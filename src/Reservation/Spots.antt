-- ===== src/Reservation/Spots.antt =====
-- The queries for spots of services/reservation/internal/repository/repository.go: which spot the
-- system assigns, and the list of the available ones.
use mathlib.Core.List.{
  Perm, Mem, map, filter, mem-map, mem-filter, mem-cons, mem-cons_self, not-mem-nil,
}
use mathlib.Core.Logic.{∥∥₁_map, ◌↔◌}
use mathlib.Core.List.Perm
use mathlib.Core.Logic.Or
use parkirpintar.Common.{
  ℕ, ◌≡◌, refl, inl, inr, Bool, true, false, ◌&&◌, List, [], ◌∷◌, Option, none, some, ltb, eqb,
  arith, if◌then◌else◌, Bool-cases,
}
use parkirpintar.World.{World, ok, call}
use parkirpintar.Reservation.Domain.{VehicleType, Spot, SpotRow}
use parkirpintar.Reservation.Repository.{
  comes_before, insert_sorted, sort_spots, spots_where, is_free, first, find_available_spot,
  list_available_spots,
}

-- No spot of the list comes before `s`.
abbrev pub AtLeast : Spot → List Spot → Type 0
AtLeast s [] = Unit {0}
AtLeast s (t ∷ ts) = (comes_before t s ≡ false) × AtLeast s ts

abbrev pub IsSorted : List Spot → Type 0
IsSorted [] = Unit {0}
IsSorted (s ∷ ss) = AtLeast s ss × IsSorted ss

AtLeast-trans :
    (a b : Spot) (ss : List Spot) → comes_before b a ≡ false → AtLeast b ss → AtLeast a ss
AtLeast-trans a b [] h l = tt
AtLeast-trans a b (s ∷ ss) h l = (ground arith, AtLeast-trans a b ss h l.1)

AtLeast-insert_sorted :
    (a s : Spot) (ss : List Spot)
    → comes_before s a ≡ false
    → AtLeast a ss
    → AtLeast a (insert_sorted s ss)
unfolding insert_sorted
AtLeast-insert_sorted a s [] h l = (h, tt)
AtLeast-insert_sorted a s (t ∷ ts) h l = elim (Bool-cases (comes_before t s)) [
  | inl e ↦ rw (e, insert_sorted) (l.0, AtLeast-insert_sorted a s ts h l.1)
  | inr e ↦ rw (e, insert_sorted) (h, l)
]

insert_sorted-IsSorted : (s : Spot) (ss : List Spot) → IsSorted ss → IsSorted (insert_sorted s ss)
unfolding insert_sorted
insert_sorted-IsSorted s [] h = (tt, tt)
insert_sorted-IsSorted s (t ∷ ts) h = elim (Bool-cases (comes_before t s)) [
  | inl e ↦
      rw (e, insert_sorted)
        (AtLeast-insert_sorted t s ts (ground arith) h.0, insert_sorted-IsSorted s ts h.1)
  | inr e ↦ rw (e, insert_sorted) ((e, AtLeast-trans s t ts e h.0), h)
]

insert_sorted-perm : (s : Spot) (ss : List Spot) → Perm (insert_sorted s ss) (s ∷ ss)
unfolding insert_sorted
insert_sorted-perm s [] = Perm.refl (s ∷ [])
insert_sorted-perm s (t ∷ ts) = elim (Bool-cases (comes_before t s)) [
  | inl e ↦
      rw (e, insert_sorted) (Perm.trans (Perm.cons t (insert_sorted-perm s ts)) (Perm.swap s t ts))
  | inr e ↦ rw (e, insert_sorted) (Perm.refl (s ∷ t ∷ ts))
]

pub sort_spots-IsSorted : (ss : List Spot) → IsSorted (sort_spots ss)
unfolding sort_spots
sort_spots-IsSorted [] = tt
sort_spots-IsSorted (s ∷ ss) = insert_sorted-IsSorted s (sort_spots ss) (sort_spots-IsSorted ss)

pub sort_spots-perm : (ss : List Spot) → Perm (sort_spots ss) ss
unfolding sort_spots
sort_spots-perm [] = Perm.refl []
sort_spots-perm (s ∷ ss) =
    Perm.trans (insert_sorted-perm s (sort_spots ss)) (Perm.cons s (sort_spots-perm ss))

dec_true : (b : Bool) → Dec (b ≡ true)
dec_true true = yes refl
dec_true false = no (λ e. cc)

spots_where-map :
    (p : SpotRow → Bool) (rows : List SpotRow)
    → spots_where p rows ≡ map (λ (r : SpotRow). r.spot) (filter (λ r. dec_true (p r)) rows)
unfolding spots_where dec_true
spots_where-map p [] = refl
spots_where-map p (r ∷ rows) = ground (arith, spots_where-map p rows)

-- A spot listed is that of a row that passes the test, and each such row's spot is listed.
pub mem-spots_where :
    (p : SpotRow → Bool) (rows : List SpotRow) (s : Spot)
    → Mem s (spots_where p rows) ↔ ∥ ((r : SpotRow) × Mem r rows × (p r ≡ true) × (r.spot ≡ s)) ∥₁
mem-spots_where p rows s = (
  λ m. ∥∥₁_map (mem-map.0 (rw (spots_where-map p rows) at m)) (λ (r, here, e).
      let parts = (mem-filter {p = λ x. p x ≡ true} (λ x. dec_true (p x)) {l = rows}).0 here in
      (r, parts.0, parts.1, e)),
  λ t. rw (spots_where-map p rows) (
      mem-map.1 (
        ∥∥₁_map t (λ (r, here, free, e). (
          r,
          (mem-filter {p = λ x. p x ≡ true} (λ x. dec_true (p x)) {l = rows}).1 (here, free),
          e,
        )))),
)

Bool-set : IsSet Bool
Bool-set = hlevel

AtLeast-mem : (s t : Spot) (ss : List Spot) → AtLeast s ss → Mem t ss → comes_before t s ≡ false
AtLeast-mem s t [] l m = absurd (not-mem-nil m)
AtLeast-mem s t (u ∷ ss) l m =
    Or.elim (Bool-set _ _) (mem-cons.0 m) (λ e. rw e l.0) (AtLeast-mem s t ss l.1)

-- The spot that comes before the others, or `none` of no spot.
abbrev pub IsFirst : Option Spot → List Spot → Type 0
IsFirst none ss = (t : Spot) → ¬ Mem t ss
IsFirst (some s) ss = Mem s ss × ((t : Spot) → Mem t ss → comes_before t s ≡ false)

first-IsFirst : (ss : List Spot) → IsSorted ss → IsFirst (first ss) ss
first-IsFirst [] h = λ t m. not-mem-nil m
first-IsFirst (s ∷ ss) h = (mem-cons_self, λ t m. AtLeast-mem s t (s ∷ ss) (ground arith, h.0) m)

IsFirst-perm : (o : Option Spot) (xs ys : List Spot) → Perm xs ys → IsFirst o xs → IsFirst o ys
IsFirst-perm none xs ys p h = λ t m. h t ((Perm.mem_iff p).1 m)
IsFirst-perm (some s) xs ys p h = ((Perm.mem_iff p).0 h.0, λ t m. h.1 t ((Perm.mem_iff p).1 m))

-- The spot that the system assigns is the available one of the vehicle type on the lowest floor,
-- with the lowest number there; it finds none only if there is no such spot.
pub find_available_spot-IsFirst :
    (vt : VehicleType) (w w' : World) (o : Option Spot)
    → find_available_spot vt w ≡ (ok o, w')
    → IsFirst o (spots_where (is_free vt) w.spots)
unfolding find_available_spot call
find_available_spot-IsFirst vt w w' o h =
    let free = spots_where (is_free vt) w.spots in
    let e : first (sort_spots free) ≡ o = ground arith in
    rw (← e) (
      IsFirst-perm (first (sort_spots free)) (sort_spots free) free (sort_spots-perm free)
        (first-IsFirst (sort_spots free) (sort_spots-IsSorted free)))

-- The list of available spots is ordered by floor and number, and holds exactly the available spots
-- of the vehicle type, of the floor asked for if that is not 0.
pub list_available_spots-IsSorted :
    (vt : VehicleType) (floor : ℕ) (w w' : World) (ss : List Spot)
    → list_available_spots vt floor w ≡ (ok ss, w')
    → IsSorted ss
      × ((s : Spot)
          → Mem s ss
            ↔ ∥ (
                (r : SpotRow) × Mem r w.spots
                × ((is_free vt r && (if ltb 0 floor then eqb r.spot.floor floor else true)) ≡ true)
                × (r.spot ≡ s)) ∥₁)
unfolding list_available_spots call
list_available_spots-IsSorted vt floor w w' ss h =
    let p : SpotRow → Bool =
      λ r. is_free vt r && (if ltb 0 floor then eqb r.spot.floor floor else true) in
    let free = spots_where p w.spots in
    let e : sort_spots free ≡ ss = ground arith in
    rw (← e) (
      sort_spots-IsSorted free,
      λ s. (
        λ m. (mem-spots_where p w.spots s).0 ((Perm.mem_iff (sort_spots-perm free)).0 m),
        λ t. (Perm.mem_iff (sort_spots-perm free)).1 ((mem-spots_where p w.spots s).1 t),
      ),
    )
