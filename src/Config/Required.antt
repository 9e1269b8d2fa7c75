-- ===== src/Config/Required.antt =====
-- Which settings Load of pkg/config/config.go asks for, and what it takes where they are not given.
use parkirpintar.Common.{true, ◌&&◌, Bool, List, [], ◌∷◌, Option, some, String, ◌==◌, if◌then◌else◌}
use parkirpintar.Config.{Config}
use parkirpintar.Config.Load.{Viper}
use parkirpintar.Config.Defaults.{is_upper, ViperLaws}

module _ (v : Viper) (L : ViperLaws v) where
  -- The default of a name, names being equal as texts.
  unfoldable exact : List (String × v.Value) → String → Option v.Value → Option v.Value
  exact [] j o = o
  exact ((k, x) ∷ ds) j o = exact ds j (if k == j then some x else o)

  unfoldable all_upper : List (String × v.Value) → Bool
  all_upper [] = true
  all_upper ((k, x) ∷ ds) = is_upper k && all_upper ds

  -- What the environment or the file gives for a name.
  abbrev pub given : String → Option v.Value
  given k = L.given k (v.read_in_config v.new).1
