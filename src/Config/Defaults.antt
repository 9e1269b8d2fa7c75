-- ===== src/Config/Defaults.antt =====
-- What Load of pkg/config/config.go gives, by what viper documents.
use parkirpintar.Common.{
  ◌≡◌, ◌≢◌, refl, Bool, List, [], ◌∷◌, Option, none, some, String, ap, ◌∙◌, if◌then◌else◌, true,
  ◌&&◌, ◌||◌, ◌==◌, leb, eqb,
}
use Prim.Native.Char.{code}
use parkirpintar.Common.Int.{ℤ}
use parkirpintar.Config.{Config}
use parkirpintar.Config.Load.{
  ReadError, file_not_found, unreadable, Viper, defaults, set_all, set_defaults, bind, bind_all,
  accept, after_read, load,
}
use mathlib.Core.Path.{fun_ext}

-- The value of a key is what the environment or the file gives, before the default; SetDefault
-- changes the default of the key alone, up to its case (`same_key`, which on names of capitals is
-- equality); a getter converts the value,
-- if there is one.
abbrev pub prefer : {A : Type 0} → Option A → Option A → Option A
prefer none o = o
prefer (some a) o = some a

-- A name of capital letters and underscores.
unfoldable pub is_upper : String → Bool
is_upper String.[] = true
is_upper (String.◌∷◌ c s) =
    ((leb b'A' (code c) && leb (code c) b'Z') || eqb (code c) b'_') && is_upper s

pub record ViperLaws (v : Viper) : Type 0 where
  pub given : String → v.State → Option v.Value
  pub fallback : String → v.State → Option v.Value
  pub same_key : String → String → Bool
  pub same_key-upper :
      (j k : String) → is_upper j ≡ true → is_upper k ≡ true → same_key j k ≡ (j == k)
  pub to_string : Option v.Value → String
  pub to_int : Option v.Value → ℤ
  pub to_bool : Option v.Value → Bool
  pub to_float64 : Option v.Value → v.Float
  pub fallback-new : (k : String) → fallback k (v.read_in_config v.new).1 ≡ none
  pub given-set_default :
      (j k : String) (x : v.Value) (s : v.State) → given j (v.set_default k x s) ≡ given j s
  pub fallback-set_default :
      (j k : String) (x : v.Value) (s : v.State)
      → fallback j (v.set_default k x s) ≡ (if same_key k j then some x else fallback j s)
  pub get_string-reads :
      (k : String) (s : v.State) → v.get_string k s ≡ to_string (prefer (given k s) (fallback k s))
  pub get_int-reads :
      (k : String) (s : v.State) → v.get_int k s ≡ to_int (prefer (given k s) (fallback k s))
  pub get_bool-reads :
      (k : String) (s : v.State) → v.get_bool k s ≡ to_bool (prefer (given k s) (fallback k s))
  pub get_float64-reads :
      (k : String) (s : v.State)
      → v.get_float64 k s ≡ to_float64 (prefer (given k s) (fallback k s))

module _ (v : Viper) (L : ViperLaws v) where
  -- The default that the table has for a key: the last one that is for it.
  unfoldable pub default_of : List (String × v.Value) → String → Option v.Value → Option v.Value
  default_of [] j o = o
  default_of ((k, x) ∷ ds) j o = default_of ds j (if L.same_key k j then some x else o)

  fallback-set_all :
      (ds : List (String × v.Value)) (j : String) (s : v.State)
      → L.fallback j (set_all v ds s) ≡ default_of ds j (L.fallback j s)
  unfolding set_all default_of
  fallback-set_all [] j s = refl
  fallback-set_all ((k, x) ∷ ds) j s =
      rw (fallback-set_all ds j (v.set_default k x s), L.fallback-set_default j k x s) refl

  given-set_all :
      (ds : List (String × v.Value)) (j : String) (s : v.State)
      → L.given j (set_all v ds s) ≡ L.given j s
  unfolding set_all
  given-set_all [] j s = refl
  given-set_all ((k, x) ∷ ds) j s =
      rw (given-set_all ds j (v.set_default k x s)) (L.given-set_default j k x s)

  -- What the environment or the file gives, or else the default of the table.
  abbrev pub setting : String → Option v.Value
  setting k = prefer (L.given k (v.read_in_config v.new).1) (default_of (defaults v) k none)

  setting-reads :
      (k : String)
      → let s = set_defaults v (v.read_in_config v.new).1 in
        prefer (L.given k s) (L.fallback k s) ≡ setting k
  unfolding set_defaults
  setting-reads k =
      let s = (v.read_in_config v.new).1 in
      rw (given-set_all (defaults v) k s, fallback-set_all (defaults v) k s, L.fallback-new k) refl

  abbrev pub text_of : String → String
  text_of k = L.to_string (setting k)

  abbrev pub int_of : String → ℤ
  int_of k = L.to_int (setting k)

  abbrev flag_of : String → Bool
  flag_of k = L.to_bool (setting k)

  abbrev float_of : String → v.Float
  float_of k = L.to_float64 (setting k)

  abbrev pub configured : Config v.Float
  configured = bind v text_of int_of flag_of float_of

  bind_all-settings : bind_all v (set_defaults v (v.read_in_config v.new).1) ≡ configured
  unfolding bind_all
  bind_all-settings =
      let s = set_defaults v (v.read_in_config v.new).1 in
      let text : Path (String → String) (λ k. v.get_string k s) text_of =
        fun_ext (λ k. rw (L.get_string-reads k s, setting-reads k) refl) in
      let int : Path (String → ℤ) (λ k. v.get_int k s) int_of =
        fun_ext (λ k. rw (L.get_int-reads k s, setting-reads k) refl) in
      let flag : Path (String → Bool) (λ k. v.get_bool k s) flag_of =
        fun_ext (λ k. rw (L.get_bool-reads k s, setting-reads k) refl) in
      let float : Path (String → v.Float) (λ k. v.get_float64 k s) float_of =
        fun_ext (λ k. rw (L.get_float64-reads k s, setting-reads k) refl) in
      λ i. bind v (text i) (int i) (flag i) (float i)

  after_read-accepts :
      (f : Option ReadError) (s : v.State)
      → ((e : String) → f ≢ some (unreadable e))
      → after_read v f s ≡ accept v (bind_all v (set_defaults v s))
  unfolding after_read
  after_read-accepts none s read = refl
  after_read-accepts (some file_not_found) s read = refl
  after_read-accepts (some (unreadable e)) s read = absurd (read e refl)

  -- Load, where viper keeps to its documentation and the file is read or not there, gives the
  -- configuration whose every field is what the environment or the file gives for its key, or else
  -- the default of the table; or, if that is not valid, the error that says what is missing.
  pub load_settings :
      ((e : String) → (v.read_in_config v.new).0 ≢ some (unreadable e))
      → load v ≡ accept v configured
  unfolding load
  load_settings read =
      after_read-accepts _ (v.read_in_config v.new).1 read ∙ ap (accept v) bind_all-settings
