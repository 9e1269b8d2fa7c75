-- ===== src/Shared/Lock.antt =====
-- pkg/lock/lock.go. The two Redis commands that it sends are SET NX with a time to live and, by the
-- script, GET with DEL.
use parkirpintar.Common.{
  ℕ, ◌+◌, Bool, true, false, List, ◌∷◌, Option, none, some, String, ◌==◌, ltb, if◌then◌else◌,
}
use parkirpintar.Common.Time.{Time}
use parkirpintar.Table.{select, delete}
use parkirpintar.World.{Entry, ok, M, ◌>>=◌, modify, call}

-- GET: a key is gone from its instant of expiry on.
unfoldable pub redis_get : String → Time → List Entry → Option String
redis_get k t entries = elim (select (λ (e : Entry). e.key) k entries) [
  | none ↦ none
  | some e ↦ if ltb t e.expires then some e.value else none
]

-- SET with a time to live; the newest entry of a key hides the older ones.
unfoldable pub redis_set : String → String → Time → List Entry → List Entry
redis_set k v until entries = record { key = k; value = v; expires = until } ∷ entries

unfoldable pub redis_del : String → List Entry → List Entry
redis_del k entries = delete (λ (e : Entry). e.key) k entries

-- SET NX: whether the key was free, and the entries then.
unfoldable pub set_nx : String → String → Time → Time → List Entry → Bool × List Entry
set_nx k v t until entries = elim (redis_get k t entries) [
  | none ↦ (true, redis_set k v until entries)
  | some _ ↦ (false, entries)
]

unfoldable pub acquire : String → String → ℕ → M String Bool
acquire key value ttl = do
  t ← call
  λ w.
      let (done, entries) = set_nx key value t (t + ttl) w.redis in
      (ok done, record w { redis = entries })

-- The script `releaseScript`.
unfoldable pub release_script : String → String → Time → List Entry → List Entry
release_script key value t entries = elim (redis_get key t entries) [
  | none ↦ entries
  | some v ↦ if v == value then redis_del key entries else entries
]

unfoldable pub release : String → String → M String (Unit {0})
release key value = do
  t ← call
  modify (λ w. record w { redis = release_script key value t w.redis })
