-- ===== src/Reservation/Expiry.antt =====
-- ExpireReservations of services/reservation/internal/usecase/usecase.go: its loop over the
-- reservations whose hold is over.
use parkirpintar.Common.{
  ℕ, ◌≡◌, ◌+◌, refl, Bool, false, ◌&&◌, ◌||◌, List, [], ◌∷◌, Option, none, some, String, ◌==◌, ltb,
  arith, eq_iff, if◌then◌else◌,
}
use parkirpintar.Common.Time.{Time}
use parkirpintar.Table.{select, update, where_, find, select-update}
use parkirpintar.World.{World, next_tick, ok, now, call}
use parkirpintar.Shared.Lock.{release}
use parkirpintar.Reservation.Domain.{SpotRow, Reservation, Row, expired}
use parkirpintar.Reservation.Repository.{
  row_id, spot_key, join, join_all, is_waiting, update_status, list_expired_reservations,
}
use parkirpintar.Reservation.Publisher.{publish}
use parkirpintar.Reservation.Usecase.{expire_one, expire_all, expire_reservations}
use parkirpintar.Reservation.Outcomes.{release-SameTables, publish-SameTables}
use parkirpintar.Reservation.Transitions.{IsUnique}
use mathlib.Core.Option

abbrev pub expire_row : Row → Row
expire_row r = record r { status = expired }

-- What one round does to the table: it depends on whether the update fails.
pub expire_one-table :
    (r : Reservation) (w : World)
    → (expire_one r w).1.reservations ≡ elim (w.env.fault w.ticks) [
      | none ↦ update row_id r.reservation_id expire_row w.reservations
      | some _ ↦ w.reservations
    ]
unfolding expire_one update_status call
expire_one-table r w = grind (arith, release-SameTables, publish-SameTables)

pub expire_one-env : (r : Reservation) (w : World) → (expire_one r w).1.env ≡ w.env
unfolding expire_one update_status call release publish now
expire_one-env r w = ground arith

pub expire_one-ok : (r : Reservation) (w : World) → (expire_one r w).0 ≡ ok tt
unfolding expire_one
expire_one-ok r w = ground arith

pub expire_all-cons :
    (r : Reservation) (rs : List Reservation) (w : World)
    → expire_all (r ∷ rs) w ≡ expire_all rs (expire_one r w).1
unfolding expire_all
expire_all-cons r rs w = ground (arith, expire_one-ok r w)

pub expire_all-ok : (rs : List Reservation) (w : World) → (expire_all rs w).0 ≡ ok tt
unfolding expire_all
expire_all-ok [] w = refl
expire_all-ok (r ∷ rs) w = rw (expire_all-cons r rs w) (expire_all-ok rs (expire_one r w).1)

-- The rounds as updates, where no call fails.
abbrev expire_rows : List Reservation → List Row → List Row
expire_rows [] rows = rows
expire_rows (r ∷ rs) rows = expire_rows rs (update row_id r.reservation_id expire_row rows)

expire_all-table :
    (rs : List Reservation) (w : World)
    → ((n : ℕ) → w.env.fault n ≡ none)
    → (expire_all rs w).1.reservations ≡ expire_rows rs w.reservations
unfolding expire_all
expire_all-table [] w up = refl
expire_all-table (r ∷ rs) w up =
    let w' = (expire_one r w).1 in
    rw (expire_all-cons r rs w) (
      ground (
        arith,
        up w.ticks,
        expire_one-table r w,
        expire_all-table rs w' (rw (expire_one-env r w) up),
      ))

abbrev is_listed : String → List Reservation → Bool
is_listed j [] = false
is_listed j (r ∷ rs) = r.reservation_id == j || is_listed j rs

select-expire_rows :
    (j : String) (rs : List Reservation) (rows : List Row)
    → select row_id j (expire_rows rs rows) ≡ (
        if is_listed j rs
        then Option.map expire_row (select row_id j rows)
        else select row_id j rows)
select-expire_rows j [] rows = refl
select-expire_rows j (r ∷ rs) rows = ground (
  arith,
  select-expire_rows j rs (update row_id r.reservation_id expire_row rows),
  select-update row_id expire_row (λ x. refl) j r.reservation_id rows,
)

-- Every reservation's spot is in the table of spots (a foreign key).
abbrev pub HasSpots : List SpotRow → List Row → Type 0
HasSpots spots [] = Unit {0}
HasSpots spots (r ∷ rows) =
    ((s : SpotRow) × (select spot_key r.spot_id spots ≡ some s)) × HasSpots spots rows

abbrev pub is_over : Time → Row → Bool
is_over t r = is_waiting r.status && ltb r.expires_at t

abbrev selected_over : Time → Option Row → Bool
selected_over t none = false
selected_over t (some r) = is_over t r

-- The ids that the query lists are those of the rows whose hold is over.
is_listed-join_all :
    (j : String) (t : Time) (spots : List SpotRow) (rows : List Row)
    → HasSpots spots rows
    → IsUnique rows
    → is_listed j (join_all spots (where_ (is_over t) rows))
      ≡ selected_over t (select row_id j rows)
unfolding join_all join where_ select find
is_listed-join_all j t spots [] known u = refl
is_listed-join_all j t spots (r ∷ rows) known u =
    ground (arith, is_listed-join_all j t spots rows known.1 u.1, known.0.1, eq_iff r.id j)

abbrev pub listed_at : World → List Reservation
listed_at w = join_all w.spots (where_ (is_over (w.env.clock w.ticks)) w.reservations)

pub expire_reservations-loop :
    (w : World)
    → w.env.fault (w.ticks + 1) ≡ none
    → expire_reservations w ≡ expire_all (listed_at w) (next_tick (next_tick w))
unfolding expire_reservations list_expired_reservations now call
expire_reservations-loop w up = ground arith

-- Where no call fails, ExpireReservations makes expired exactly the pending and confirmed
-- reservations whose hold ended before the instant at which it began, and leaves every other
-- reservation as it was.
pub expire_reservations_exact :
    (w : World) (j : String)
    → ((n : ℕ) → w.env.fault n ≡ none)
    → IsUnique w.reservations
    → HasSpots w.spots w.reservations
    → ((expire_reservations w).0 ≡ ok tt)
      × (select row_id j (expire_reservations w).1.reservations
          ≡ Option.map
              (λ r. if is_over (w.env.clock w.ticks) r then expire_row r else r)
              (select row_id j w.reservations))
expire_reservations_exact w j up u known =
    let rs = listed_at w in
    let w' = next_tick (next_tick w) in
    let over = is_listed-join_all j (w.env.clock w.ticks) w.spots w.reservations known u in
    rw (expire_reservations-loop w (up (w.ticks + 1))) (
      expire_all-ok rs w',
      rw (expire_all-table rs w' up) (ground (arith, over, select-expire_rows j rs w.reservations)),
    )
