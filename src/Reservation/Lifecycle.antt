-- ===== src/Reservation/Lifecycle.antt =====
-- The contract of the reservations, as an abstract machine: each id has at most one status, a booking
-- gives a new id the status pending, and a status moves along the edges of the state machine. The
-- program refines it.
use parkirpintar.Common.{
  ◌≡◌, refl, inl, inr, true, List, Option, none, some, String, ◌==◌, arith, eq_iff, if◌then◌else◌,
}
use parkirpintar.Table.{select, select-cons, select-update}
use parkirpintar.World.{World}
use parkirpintar.Reservation.Domain.{ReservationStatus, pending, Row}
use parkirpintar.Reservation.Repository.{row_id}
use parkirpintar.Reservation.Transitions.{
  may_become, Change, same, created, moved, Changes, done, more, IsUnique,
}
use parkirpintar.Reservation.Requests.{Request, run, run-Changes}
use mathlib.Core.Path.{fun_ext}
use mathlib.Core.Option

abbrev pub Statuses : Type 0
Statuses = String → Option ReservationStatus

abbrev pub put : String → ReservationStatus → Statuses → Statuses
put id s before j = if id == j then some s else before j

-- One step of the abstract machine.
pub data Step (before after : Statuses) : Type 0 where
  idles : after ≡ before → Step before after
  books : (id : String) → before id ≡ none → after ≡ put id pending before → Step before after
  follows :
      (id : String) (s t : ReservationStatus)
      → before id ≡ some s
      → may_become s t ≡ true
      → after ≡ put id t before
      → Step before after

pub data Steps (before : Statuses) : Statuses → Type 0 where
  stops : Steps before before
  goes : {mid after : Statuses} → Steps before mid → Step mid after → Steps before after

-- What the abstract machine sees of the table.
abbrev pub view : List Row → Statuses
view rows id = Option.map (λ (r : Row). r.status) (select row_id id rows)

-- One write to the table is a step of the abstract machine.
Change-Step : {before after : List Row} → Change before after → Step (view before) (view after)
Change-Step (same e) = idles (rw e refl)
Change-Step {before} (created r p fresh e) =
    books r.id (rw fresh refl)
      (rw e (fun_ext (λ j. ground (arith, select-cons row_id j r before, p))))
Change-Step {before} (moved id r f found keeps (inl stays) e) = idles (
    rw e (
      fun_ext
        (λ j. ground (arith, select-update row_id f keeps j id before, found, stays, eq_iff id j))))
Change-Step {before} (moved id r f found keeps (inr edge) e) =
    follows id r.status (f r).status (rw found refl) edge (
      rw e (
        fun_ext
          (λ j. ground (arith, select-update row_id f keeps j id before, found, eq_iff id j))))

Changes-Steps : {before after : List Row} → Changes before after → Steps (view before) (view after)
Changes-Steps done = stops
Changes-Steps (more cs c) = goes (Changes-Steps cs) (Change-Step c)

-- The program refines the abstract machine: whatever requests are served, one after another but for
-- creations, whose insertions may come at any later point than their locks, and whichever calls
-- fail, what the table shows of the statuses changes by steps of the machine, which has the moves
-- from pending to cancelled and to expired that the README's has not.
pub run-Steps :
    (qs : List Request) (w : World)
    → IsUnique w.reservations
    → Steps (view w.reservations) (view (run qs w).reservations)
run-Steps qs w u = Changes-Steps (run-Changes qs w u)
