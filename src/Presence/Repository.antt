-- ===== src/Presence/Repository.antt =====
-- services/presence/internal/repository/repository.go.
use parkirpintar.Common.{List, [], ◌∷◌, Option, none, some, String, ◌==◌, ltb, if◌then◌else◌}
use parkirpintar.World.{M, gets, ◌>>=◌, modify, call}
use parkirpintar.Presence.Domain.{LocationUpdate}

-- The NULL of an empty text.
abbrev pub null_str : String → Option String
null_str s = if s == "" then none else some s

unfoldable pub save_location : LocationUpdate → M String (Unit {0})
save_location u = do _ ← call; modify (λ w. record w { locations = u ∷ w.locations })

-- WHERE driver_id = … ORDER BY recorded_at DESC LIMIT 1
unfoldable pub latest : String → List LocationUpdate → Option LocationUpdate
latest driver [] = none
latest driver (u ∷ us) =
    let rest = latest driver us in
    if u.driver_id == driver
    then (elim rest [
      | none ↦ some u
      | some v ↦ if ltb u.recorded_at v.recorded_at then some v else some u
    ])
    else rest

-- No row is no error here.
unfoldable pub get_last_location : String → M String (Option LocationUpdate)
unfolding latest
get_last_location driver = do _ ← call; gets (λ w. latest driver w.locations)
