-- ===== src/Gateway/Listing.antt =====
-- What ReservationHistory of services/gateway/internal/handler/extra.go answers.
use parkirpintar.Common.{
  ℕ, zero, suc, ◌≡◌, refl, ◌+◌, ◌≤◌, List, [], ◌∷◌, map, Option, none, some, inl, inr, String, ◌==◌,
  arith, eq_iff, ltb, Bool-cases, Option-cases,
}
use parkirpintar.Common.Time.{Time}
use parkirpintar.Table.{take, read_rows, select, where_}
use parkirpintar.World.{World, next_tick, ok, now}
use parkirpintar.Reservation.Domain.{SpotRow, Row, Reservation}
use parkirpintar.Reservation.Repository.{spot_key, join, join_all, scan_reservation}
use parkirpintar.Gateway.History.{
  insert_latest, latest_first, own_rows, mark_entry, mark_all, reservation_history,
}
use mathlib.Core.Option
use parkirpintar.Gateway.Writes.{own_history-up, own_history-down, entry_of, mark_entry-ok}

-- No reservation of the list was confirmed later than `r`.
abbrev pub NoneLater : Reservation → List Reservation → Type 0
NoneLater r [] = Unit {0}
NoneLater r (s ∷ ss) = (s.confirmed_at ≤ r.confirmed_at) × NoneLater r ss

-- A driver's reservations, the latest confirmation first.
abbrev pub IsHistoryOf : String → List Reservation → Type 0
IsHistoryOf driver [] = Unit {0}
IsHistoryOf driver (r ∷ rs) = (r.driver_id ≡ driver) × NoneLater r rs × IsHistoryOf driver rs

abbrev pub AllOf : String → List Reservation → Type 0
AllOf driver [] = Unit {0}
AllOf driver (r ∷ rs) = (r.driver_id ≡ driver) × AllOf driver rs

abbrev pub count : List Reservation → ℕ
count [] = 0
count (_ ∷ rs) = suc (count rs)

NoneLater-trans :
    (a b : Reservation) (rs : List Reservation)
    → b.confirmed_at ≤ a.confirmed_at
    → NoneLater b rs
    → NoneLater a rs
NoneLater-trans a b [] h l = tt
NoneLater-trans a b (r ∷ rs) h l = (omega arith, NoneLater-trans a b rs h l.1)

NoneLater-insert_latest :
    (a r : Reservation) (rs : List Reservation)
    → r.confirmed_at ≤ a.confirmed_at
    → NoneLater a rs
    → NoneLater a (insert_latest r rs)
unfolding insert_latest
NoneLater-insert_latest a r [] h l = (h, tt)
NoneLater-insert_latest a r (s ∷ ss) h l = elim (Bool-cases (ltb r.confirmed_at s.confirmed_at)) [
  | inl e ↦ rw (e, insert_latest) (l.0, NoneLater-insert_latest a r ss h l.1)
  | inr e ↦ rw (e, insert_latest) (h, l)
]

insert_latest-IsHistoryOf :
    (driver : String) (r : Reservation) (rs : List Reservation)
    → r.driver_id ≡ driver
    → IsHistoryOf driver rs
    → IsHistoryOf driver (insert_latest r rs)
unfolding insert_latest
insert_latest-IsHistoryOf driver r [] own h = (own, tt, tt)
insert_latest-IsHistoryOf driver r (s ∷ ss) own h =
    elim (Bool-cases (ltb r.confirmed_at s.confirmed_at)) [
      | inl e ↦
          rw (e, insert_latest)
            (
              h.0,
              NoneLater-insert_latest s r ss (ground arith) h.1,
              insert_latest-IsHistoryOf driver r ss own h.2,
            )
      | inr e ↦
          let le : s.confirmed_at ≤ r.confirmed_at = ground arith in
          rw (e, insert_latest) (own, (le, NoneLater-trans r s ss le h.1), h)
    ]

latest_first-IsHistoryOf :
    (driver : String) (rs : List Reservation)
    → AllOf driver rs
    → IsHistoryOf driver (latest_first rs)
unfolding latest_first
latest_first-IsHistoryOf driver [] h = tt
latest_first-IsHistoryOf driver (r ∷ rs) h =
    insert_latest-IsHistoryOf driver r (latest_first rs) h.0
      (latest_first-IsHistoryOf driver rs h.1)

NoneLater-take :
    (n : ℕ) (r : Reservation) (rs : List Reservation) → NoneLater r rs → NoneLater r (take n rs)
unfolding take
NoneLater-take zero r rs h = tt
NoneLater-take (suc n) r [] h = tt
NoneLater-take (suc n) r (s ∷ ss) h = (h.0, NoneLater-take n r ss h.1)

count-take : (n : ℕ) (rs : List Reservation) → count (take n rs) ≤ count rs
unfolding take
count-take zero rs = omega arith
count-take (suc n) [] = omega arith
count-take (suc n) (r ∷ rs) = omega (arith, count-take n rs)

take-IsHistoryOf :
    (n : ℕ) (driver : String) (rs : List Reservation)
    → IsHistoryOf driver rs
    → IsHistoryOf driver (take n rs) × (count (take n rs) ≤ n)
unfolding take
take-IsHistoryOf zero driver rs h = (tt, omega arith)
take-IsHistoryOf (suc n) driver [] h = (tt, omega arith)
take-IsHistoryOf (suc n) driver (r ∷ rs) h =
    let (rest, few) = take-IsHistoryOf n driver rs h.2 in
    ((h.0, NoneLater-take n r rs h.1, rest), omega arith)

-- The rows that are selected by the driver, joined with their spots.
AllOf-cons :
    (driver : String) (r : Row) (found : Option SpotRow) (rest : List Reservation)
    → r.driver_id ≡ driver
    → AllOf driver rest
    → AllOf driver
        (elim (Option.map (scan_reservation r) found) [ none ↦ rest | some v ↦ v ∷ rest ])
AllOf-cons driver r none rest own h = h
AllOf-cons driver r (some s) rest own h = (own, h)

AllOf-join_all :
    (driver : String) (spots : List SpotRow) (rows : List Row)
    → AllOf driver (join_all spots (where_ (λ r. r.driver_id == driver) rows))
unfolding where_ join_all join
AllOf-join_all driver spots [] = tt
AllOf-join_all driver spots (r ∷ rows) = elim (Bool-cases (r.driver_id == driver)) [
  | inl own ↦ rw own (
      AllOf-cons driver r (select spot_key r.spot_id spots) _ ((eq_iff r.driver_id driver).0 own)
        (AllOf-join_all driver spots rows))
  | inr other ↦ rw other (AllOf-join_all driver spots rows)
]

pub joined-IsHistoryOf :
    (driver : String) (w : World)
    → IsHistoryOf driver
        (latest_first (join_all w.spots (where_ (λ r. r.driver_id == driver) w.reservations)))
joined-IsHistoryOf driver w =
    latest_first-IsHistoryOf driver _ (AllOf-join_all driver w.spots w.reservations)

pub own_rows-IsHistoryOf :
    (driver : String) (w : World)
    → IsHistoryOf driver (own_rows driver w) × (count (own_rows driver w) ≤ 20)
unfolding own_rows
own_rows-IsHistoryOf driver w = take-IsHistoryOf 20 driver _ (joined-IsHistoryOf driver w)

read_rows-IsHistoryOf :
    (driver : String) (cut : Option ℕ) (rs : List Reservation)
    → IsHistoryOf driver rs
    → count rs ≤ 20
    → IsHistoryOf driver (read_rows cut rs) × (count (read_rows cut rs) ≤ 20)
unfolding read_rows
read_rows-IsHistoryOf driver none rs h few = (h, few)
read_rows-IsHistoryOf driver (some n) rs h few =
    ((take-IsHistoryOf n driver rs h).0, omega (arith, count-take n rs, few))

NoneLater-entries :
    (t : Time) (r : Reservation) (rs : List Reservation)
    → NoneLater r rs
    → NoneLater (entry_of t r) (map (entry_of t) rs)
NoneLater-entries t r [] h = tt
NoneLater-entries t r (s ∷ ss) h = (ground arith, NoneLater-entries t r ss h.1)

entries-IsHistoryOf :
    (t : Time) (driver : String) (rs : List Reservation)
    → IsHistoryOf driver rs
    → IsHistoryOf driver (map (entry_of t) rs) × (count (map (entry_of t) rs) ≡ count rs)
entries-IsHistoryOf t driver [] h = (tt, refl)
entries-IsHistoryOf t driver (r ∷ rs) h =
    let (rest, n) = entries-IsHistoryOf t driver rs h.2 in
    ((ground (arith, h.0), NoneLater-entries t r rs h.1, rest), ground (arith, n))

mark_all-ok :
    (t : Time) (rs : List Reservation) (w : World) → (mark_all t rs w).0 ≡ ok (map (entry_of t) rs)
unfolding mark_all
mark_all-ok t [] w = refl
mark_all-ok t (r ∷ rs) w =
    ground (arith, mark_entry-ok t r w, mark_all-ok t rs (mark_entry t r w).1)

pub history_rows :
    (driver : String) (rows : List Reservation) (w w' : World)
    → reservation_history (some driver) w ≡ (ok rows, w')
    → rows
      ≡ map
          (entry_of (w.env.clock (w.ticks + 1)))
          (read_rows (w.env.cut w.ticks) (own_rows driver w))
unfolding reservation_history now
history_rows driver rows w w' h = elim (Option-cases (w.env.fault w.ticks)) [
  | inl up ↦ ground (
    arith,
    own_history-up driver w up,
    mark_all-ok (w.env.clock (w.ticks + 1)) (read_rows (w.env.cut w.ticks) (own_rows driver w))
        (next_tick (next_tick w)),
  )
  | inr (e, down) ↦ ground (arith, own_history-down driver e w down)
]

-- A history that is answered lists reservations of the logged-in driver only, at most 20 of them,
-- the latest confirmation first: the driver's latest rows, fewer where their reading breaks off, where one that is pending and whose time
-- is over at the reading of the clock is shown as expired.
pub reservation_history_success :
    (driver : String) (rows : List Reservation) (w w' : World)
    → reservation_history (some driver) w ≡ (ok rows, w')
    → IsHistoryOf driver rows
      × (count rows ≤ 20)
      × (rows
          ≡ map
              (entry_of (w.env.clock (w.ticks + 1)))
              (read_rows (w.env.cut w.ticks) (own_rows driver w)))
reservation_history_success driver rows w w' h =
    let t = w.env.clock (w.ticks + 1) in
    let read = read_rows (w.env.cut w.ticks) (own_rows driver w) in
    let (own, few) =
      read_rows-IsHistoryOf driver (w.env.cut w.ticks) (own_rows driver w)
        (own_rows-IsHistoryOf driver w).0 (own_rows-IsHistoryOf driver w).1 in
    let (shown, n) = entries-IsHistoryOf t driver read own in
    let e : rows ≡ map (entry_of t) read = history_rows driver rows w w' h in
    rw e (shown, omega (arith, few, n), refl)
