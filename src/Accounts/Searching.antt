-- ===== src/Accounts/Searching.antt =====
-- The loop of containsStr in services/gateway/internal/handler/auth.go: what it finds, and that its
-- rounds are enough.
use Prim.Native.String.{slice, len}
use parkirpintar.Common.{
  ℕ, zero, suc, ◌≡◌, refl, ◌+◌, ◌-◌, ◌≤◌, ◌<◌, ◌↔◌, inl, inr, true, false, String, ◌==◌, arith,
  eq_iff, Bool-cases,
}
use parkirpintar.Accounts.Account.{contains_from, contains_str}

-- A position from `i` on, of the next `rounds` ones, at which the text stands.
abbrev pub StandsIn : ℕ → ℕ → String → String → Type 0
StandsIn rounds i s sub = (j : ℕ) × (i ≤ j) × (j < i + rounds) × (slice s j (j + len sub) ≡ sub)

contains_from-finds :
    (rounds i : ℕ) (s sub : String) → contains_from rounds i s sub ≡ true → StandsIn rounds i s sub
unfolding contains_from
contains_from-finds zero i s sub h = absurd (ground (arith, h))
contains_from-finds (suc rounds) i s sub h = elim (Bool-cases (slice s i (i + len sub) == sub)) [
  | inl here ↦ (i, omega arith, omega arith, (eq_iff (slice s i (i + len sub)) sub).0 here)
  | inr not_here ↦
      let (j, from, until, there) =
        contains_from-finds rounds (i + 1) s sub (ground (arith, h, not_here)) in
      (j, omega arith, omega arith, there)
]

contains_from-misses :
    (rounds i j : ℕ) (s sub : String)
    → i ≤ j
    → j < i + rounds
    → slice s j (j + len sub) ≡ sub
    → contains_from rounds i s sub ≡ true
unfolding contains_from
contains_from-misses zero i j s sub from until there = absurd (omega arith)
contains_from-misses (suc rounds) i j s sub from until there =
    elim (Bool-cases (slice s i (i + len sub) == sub)) [
      | inl here ↦ rw here refl
      | inr not_here ↦
          rw not_here
            (contains_from-misses rounds (i + 1) j s sub (later not_here) (omega arith) there)
    ]
  where
    later : (slice s i (i + len sub) == sub) ≡ false → i + 1 ≤ j
    later e = ground (arith, e, there, eq_iff (slice s j (j + len sub)) sub)

-- The search ends with the right answer: a text is found exactly if it stands at a position from
-- which it still fits.
pub contains_str-StandsIn :
    (s sub : String) → (contains_str s sub ≡ true) ↔ StandsIn (len s + 1 - len sub) 0 s sub
unfolding contains_str
contains_str-StandsIn s sub = (
  contains_from-finds (len s + 1 - len sub) 0 s sub,
  λ (j, from, until, there). contains_from-misses (len s + 1 - len sub) 0 j s sub from until there,
)
