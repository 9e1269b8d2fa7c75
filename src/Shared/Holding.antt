-- ===== src/Shared/Holding.antt =====
-- The laws of the lock of pkg/lock/lock.go: who holds a key, and until when.
use parkirpintar.Common.{
  ◌≡◌, ◌≢◌, ◌≤◌, ◌<◌, List, none, some, true, false, String, ◌==◌, arith, eq_iff, if◌then◌else◌,
  ltb,
}
use parkirpintar.Common.Time.{Time}
use parkirpintar.World.{Entry}
use parkirpintar.Table.{select, find, select-delete}
use parkirpintar.Shared.Lock.{redis_get, redis_set, redis_del, set_nx, release_script}

pub redis_get-set :
    (j k v : String) (t until : Time) (es : List Entry)
    → redis_get j t (redis_set k v until es)
      ≡ (if k == j then (if ltb t until then some v else none) else redis_get j t es)
unfolding redis_get redis_set select find
redis_get-set j k v t until es = ground arith

pub redis_get-del :
    (j k : String) (t : Time) (es : List Entry)
    → redis_get j t (redis_del k es) ≡ (if k == j then none else redis_get j t es)
unfolding redis_get redis_del
redis_get-del j k t es = ground (arith, select-delete (λ (e : Entry). e.key) j k es)

-- What is gone stays gone.
pub redis_get-later :
    (k : String) (t u : Time) (es : List Entry)
    → t ≤ u
    → redis_get k t es ≡ none
    → redis_get k u es ≡ none
unfolding redis_get
redis_get-later k t u es h gone = ground arith

-- A lock that was taken and is released by its holder before its end leaves every key as it was.
pub release_script-set_nx :
    (j k v : String) (t₀ t₁ t until : Time) (es : List Entry)
    → (set_nx k v t₀ until es).0 ≡ true
    → t₁ < until
    → t₀ ≤ t
    → redis_get j t (release_script k v t₁ (set_nx k v t₀ until es).1) ≡ redis_get j t es
unfolding set_nx release_script
release_script-set_nx j k v t₀ t₁ t until es h live le = ground (
  arith,
  redis_get-set k k v t₁ until es,
  redis_get-set j k v t until es,
  redis_get-del j k t (redis_set k v until es),
  redis_get-later k t₀ t es le,
  eq_iff k k,
  eq_iff k j,
  eq_iff v v,
)

-- A lock that is not taken leaves the keys alone.
pub set_nx-refused :
    (k v : String) (t until : Time) (es : List Entry)
    → (set_nx k v t until es).0 ≡ false
    → (set_nx k v t until es).1 ≡ es
unfolding set_nx
set_nx-refused k v t until es h = ground arith

-- A release by anyone but the holder changes nothing.
pub release_script_foreign :
    (k v value : String) (t : Time) (es : List Entry)
    → redis_get k t es ≡ some v
    → value ≢ v
    → release_script k value t es ≡ es
unfolding release_script
release_script_foreign k v value t es held other = ground (arith, eq_iff v value)
