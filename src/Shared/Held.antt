-- ===== src/Shared/Held.antt =====
-- A lock of pkg/lock/lock.go while requests of other holders run.
use parkirpintar.Common.{
  ◌≡◌, ◌≢◌, ◌<◌, ◌&&◌, ℕ, ◌+◌, ltb, if◌then◌else◌, Option-cases, inl, inr, Bool, true, false, List,
  Option, none, some, String, ◌==◌, arith, eq_iff, leb,
}
use parkirpintar.Common.Time.{Time}
use parkirpintar.Table.{select, select-cons, select-delete}
use parkirpintar.World.{Entry, World, call}
use parkirpintar.Shared.Lock.{
  redis_get, redis_set, redis_del, set_nx, acquire, release_script, release,
}
use parkirpintar.Shared.Idempotency.{save}

abbrev pub entry_key : Entry → String
entry_key e = e.key

abbrev pub held_by : String → Time → Option Entry → Bool
held_by id until none = false
held_by id until (some e) = e.value == id && leb until e.expires

-- The key is set, to the holder's id, and stays at least until the instant.
abbrev pub IsHeld : String → String → Time → List Entry → Type 0
IsHeld k id until es = held_by id until (select entry_key k es) ≡ true

-- A live entry reads as the holder's id.
entry-reads :
    (id : String) (until t : Time) (o : Option Entry)
    → held_by id until o ≡ true
    → t < until
    → (elim o [ none ↦ none | some e ↦ if ltb t e.expires then some e.value else none ]) ≡ some id
entry-reads id until t none h before = cc
entry-reads id until t (some e) h before = ground (arith, eq_iff e.value id)

-- Until then it reads as the holder's id.
pub IsHeld-reads :
    (k id : String) (until t : Time) (es : List Entry)
    → IsHeld k id until es
    → t < until
    → redis_get k t es ≡ some id
unfolding redis_get
IsHeld-reads k id until t es h before = entry-reads id until t (select entry_key k es) h before

set_nx-IsHeld :
    (k id j v : String) (until t end : Time) (es : List Entry)
    → IsHeld k id until es
    → t < until
    → IsHeld k id until (set_nx j v t end es).1
unfolding set_nx redis_set
set_nx-IsHeld k id j v until t end es h before = ground (
  arith,
  IsHeld-reads k id until t es h before,
  select-cons entry_key k (record { key = j; value = v; expires = end }) es,
  eq_iff j k,
)

-- A lock asked for by another request, of this key or of another one, leaves it held.
pub acquire-IsHeld :
    (k id j v : String) (ttl : ℕ) (until : Time) (w : World)
    → IsHeld k id until w.redis
    → w.env.clock w.ticks < until
    → IsHeld k id until (acquire j v ttl w).1.redis
unfolding acquire call
acquire-IsHeld k id j v ttl until w h before = grind (arith, set_nx-IsHeld)

-- What another holder may free is another entry.
entry-IsHeld :
    (id v : String) (until t : Time) (o : Option Entry)
    → held_by id until o ≡ true
    → v ≢ id
    → (elim o [ none ↦ none | some e ↦ if ltb t e.expires then some e.value else none ]) ≢ some v
entry-IsHeld id v until t none h other = λ e. cc
entry-IsHeld id v until t (some e) h other = λ r. ground (arith, eq_iff e.value id)

IsHeld-own :
    (k id v : String) (until t : Time) (es : List Entry)
    → IsHeld k id until es
    → v ≢ id
    → redis_get k t es ≢ some v
unfolding redis_get
IsHeld-own k id v until t es h other = entry-IsHeld id v until t (select entry_key k es) h other

release_script-IsHeld :
    (k id j v : String) (until t : Time) (es : List Entry)
    → IsHeld k id until es
    → v ≢ id
    → IsHeld k id until (release_script j v t es)
unfolding release_script redis_del
release_script-IsHeld k id j v until t es h other = elim (Option-cases (redis_get j t es)) [
  | inl gone ↦ ground (arith, gone)
  | inr (x, found) ↦ ground (
    arith,
    found,
    select-delete entry_key k j es,
    eq_iff j k,
    eq_iff x v,
    IsHeld-own k id v until t es h other,
  )
]

-- A release by another holder leaves it held.
pub release-IsHeld :
    (k id j v : String) (until : Time) (w : World)
    → IsHeld k id until w.redis
    → v ≢ id
    → IsHeld k id until (release j v w).1.redis
unfolding release call
release-IsHeld k id j v until w h other = grind (arith, release_script-IsHeld)

-- What is saved under another key leaves it held.
pub save-IsHeld :
    (k id j v : String) (ttl : ℕ) (until : Time) (w : World)
    → IsHeld k id until w.redis
    → j ≢ k
    → IsHeld k id until (save j v ttl w).1.redis
unfolding save call redis_set
save-IsHeld k id j v ttl until w h other = ground (
  arith,
  select-cons entry_key k (record { key = j; value = v; expires = w.env.clock w.ticks + ttl })
      w.redis,
  eq_iff j k,
)
