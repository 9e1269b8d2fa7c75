-- ===== src/Reservation/Transitions.antt =====
-- The life of a reservation: which status may follow which, and what one write to the table
-- `reservations` does to every row of it.
use parkirpintar.Common.{
  ◌≡◌, refl, ◌⊎◌, inl, inr, Bool, true, false, List, [], ◌∷◌, none, some, String, ◌==◌, arith,
  eq_iff, Bool-cases,
}
use parkirpintar.Table.{select, update, select-cons, select-update}
use parkirpintar.Reservation.Domain.{
  ReservationStatus, pending, confirmed, active, completed, cancelled, expired, Row,
}
use parkirpintar.Reservation.Repository.{row_id}

-- The edges of the state machine that domain.go's statuses form. The README draws another one: from
-- pending to confirmed or to a status failed, which the code does not have, and to expired and
-- cancelled from confirmed only.
abbrev pub may_become : ReservationStatus → ReservationStatus → Bool
may_become pending confirmed = true
may_become pending cancelled = true
may_become pending expired = true
may_become confirmed cancelled = true
may_become confirmed expired = true
may_become confirmed active = true
may_become active completed = true
may_become _ _ = false

-- A status and one that it leads to.
pub data History : ReservationStatus → ReservationStatus → Type 0 where
  stays : {s : ReservationStatus} → History s s
  moves : {s t u : ReservationStatus} → History s t → may_become t u ≡ true → History s u

pub History-trans : {s t u : ReservationStatus} → History s t → History t u → History s u
History-trans h stays = h
History-trans h (moves k e) = moves (History-trans h k) e

-- One write: none, a new pending row, or a change of one reservation that keeps its status or
-- follows an edge.
pub data Change (before after : List Row) : Type 0 where
  same : after ≡ before → Change before after
  created :
      (r : Row)
      → r.status ≡ pending
      → select row_id r.id before ≡ none
      → after ≡ r ∷ before
      → Change before after
  moved :
      (id : String) (r : Row) (f : Row → Row)
      → select row_id id before ≡ some r
      → ((x : Row) → (f x).id ≡ x.id)
      → ((f r).status ≡ r.status) ⊎ (may_become r.status (f r).status ≡ true)
      → after ≡ update row_id id f before
      → Change before after

pub data Changes (before : List Row) : List Row → Type 0 where
  done : Changes before before
  more : {mid after : List Row} → Changes before mid → Change mid after → Changes before after

-- After a write every reservation is still there, with its status or one that it may become.
pub Change-status :
    {before after : List Row} (c : Change before after) (j : String) (r : Row)
    → select row_id j before ≡ some r
    → (r' : Row) × (select row_id j after ≡ some r')
      × ((r'.status ≡ r.status) ⊎ (may_become r.status r'.status ≡ true))
Change-status (same e) j r h = (r, ground arith, inl refl)
Change-status {before} (created n p fresh e) j r h =
    (r, ground (arith, select-cons row_id j n before, eq_iff n.id j), inl refl)
Change-status {before} (moved id x f found keeps edge e) j r h = elim (Bool-cases (id == j)) [
  | inl hit ↦
      (f r, ground (arith, select-update row_id f keeps j id before), ground (arith, eq_iff id j))
  | inr miss ↦ (r, ground (arith, select-update row_id f keeps j id before), inl refl)
]

-- A write to a history of writes is one of them.
pub Changes-one : {before after : List Row} → Change before after → Changes before after
Changes-one c = more done c

pub Changes-trans : {a b c : List Row} → Changes a b → Changes b c → Changes a c
Changes-trans h done = h
Changes-trans h (more k c) = more (Changes-trans h k) c

-- Every id stands once in the table.
abbrev pub IsUnique : List Row → Type 0
IsUnique [] = Unit {0}
IsUnique (r ∷ rows) = (select row_id r.id rows ≡ none) × IsUnique rows

IsUnique-update :
    (id : String) (f : Row → Row) (keeps : (x : Row) → (f x).id ≡ x.id) (rows : List Row)
    → IsUnique rows
    → IsUnique (update row_id id f rows)
unfolding update
IsUnique-update id f keeps [] u = tt
IsUnique-update id f keeps (r ∷ rows) u = (
  ground (arith, keeps r, u.0, select-update row_id f keeps r.id id rows),
  IsUnique-update id f keeps rows u.1,
)

pub Changes-IsUnique :
    {before after : List Row} → Changes before after → IsUnique before → IsUnique after
Changes-IsUnique done u = u
Changes-IsUnique (more cs (same e)) u = rw e (Changes-IsUnique cs u)
Changes-IsUnique (more cs (created r p fresh e)) u = rw e (fresh, Changes-IsUnique cs u)
Changes-IsUnique (more cs (moved id r f found keeps edge e)) u =
    rw e (IsUnique-update id f keeps _ (Changes-IsUnique cs u))

pub Changes-History :
    {before after : List Row} (c : Changes before after) (j : String) (r : Row)
    → select row_id j before ≡ some r
    → (r' : Row) × (select row_id j after ≡ some r') × History r.status r'.status
Changes-History done j r h = (r, h, stays)
Changes-History (more cs c) j r h =
    let (m, found, past) = Changes-History cs j r h in
    let (r', found', last) = Change-status c j m found in (r', found', extend past last)
  where
    extend :
        {s t u : ReservationStatus} → History s t → (u ≡ t) ⊎ (may_become t u ≡ true) → History s u
    extend past (inl e) = rw e past
    extend past (inr e) = moves past e
