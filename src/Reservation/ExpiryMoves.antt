-- ===== src/Reservation/ExpiryMoves.antt =====
-- ExpireReservations of services/reservation/internal/usecase/usecase.go: each of its writes
-- follows the state machine, whichever calls fail.
use parkirpintar.Common.{
  ◌≡◌, ◌+◌, refl, ◌⊎◌, inl, inr, true, List, [], ◌∷◌, none, some, String, ◌==◌, arith, eq_iff,
  if◌then◌else◌, Option-cases,
}
use parkirpintar.Common.Time.{Time}
use parkirpintar.Table.{select, update, where_, select-cons, select-update}
use parkirpintar.World.{World, next_tick, now, call}
use parkirpintar.Reservation.Domain.{SpotRow, Reservation, Row, expired}
use parkirpintar.Reservation.Repository.{row_id, join, join_all, list_expired_reservations}
use parkirpintar.Reservation.Usecase.{expire_one, expire_all, expire_reservations}
use parkirpintar.Reservation.Expiry.{
  expire_row, is_over, listed_at, expire_one-table, expire_all-cons, expire_reservations-loop,
}
use parkirpintar.Reservation.Transitions.{
  Changes-one, Change, same, moved, Changes, done, Changes-trans, IsUnique, may_become,
}

-- What the loop relies on while it runs: each listed reservation is in the table, and may expire
-- or has.
abbrev Listed : List Reservation → List Row → Type 0
Listed [] rows = Unit {0}
Listed (r ∷ rs) rows =
    ((row : Row) × (select row_id r.reservation_id rows ≡ some row)
      × ((row.status ≡ expired) ⊎ (may_become row.status expired ≡ true)))
    × Listed rs rows

Listed-update :
    (id : String) (rs : List Reservation) (rows : List Row)
    → Listed rs rows
    → Listed rs (update row_id id expire_row rows)
Listed-update id [] rows l = tt
Listed-update id (r ∷ rs) rows ((row, found, may), l) = (
  (
    if id == r.reservation_id then expire_row row else row,
    ground (arith, select-update row_id expire_row (λ x. refl) r.reservation_id id rows),
    ground arith,
  ),
  Listed-update id rs rows l,
)

Listed-cons :
    (x : Row) (rs : List Reservation) (rows : List Row)
    → select row_id x.id rows ≡ none
    → Listed rs rows
    → Listed rs (x ∷ rows)
Listed-cons x [] rows fresh l = tt
Listed-cons x (r ∷ rs) rows fresh ((row, found, may), l) = (
  (
    row,
    ground (arith, select-cons row_id r.reservation_id x rows, eq_iff x.id r.reservation_id),
    may,
  ),
  Listed-cons x rs rows fresh l,
)

Listed-join_all :
    (t : Time) (spots : List SpotRow) (rows : List Row)
    → IsUnique rows
    → Listed (join_all spots (where_ (is_over t) rows)) rows
unfolding join_all join where_
Listed-join_all t spots [] u = tt
Listed-join_all t spots (r ∷ rows) u =
    let rest =
      Listed-cons r (join_all spots (where_ (is_over t) rows)) rows u.0
        (Listed-join_all t spots rows u.1) in
    ground (arith, rest, select-cons row_id r.id r rows, eq_iff r.id r.id)

expire_one-Change :
    (r : Reservation) (rs : List Reservation) (w : World)
    → Listed (r ∷ rs) w.reservations
    → Change w.reservations (expire_one r w).1.reservations
      × Listed rs (expire_one r w).1.reservations
expire_one-Change r rs w ((row, found, may), l) = elim (Option-cases (w.env.fault w.ticks)) [
  | inl up ↦
      let e : (expire_one r w).1.reservations
          ≡ update row_id r.reservation_id expire_row w.reservations =
        rw (expire_one-table r w) (rw up refl) in
      (
        moved r.reservation_id row expire_row found (λ x. refl) (ground arith) e,
        rw e (Listed-update r.reservation_id rs w.reservations l),
      )
  | inr (text, down) ↦
      let e : (expire_one r w).1.reservations ≡ w.reservations =
        rw (expire_one-table r w) (rw down refl) in
      (same e, rw e l)
]

expire_all-Changes :
    (rs : List Reservation) (w : World)
    → Listed rs w.reservations
    → Changes w.reservations (expire_all rs w).1.reservations
unfolding expire_all
expire_all-Changes [] w l = done
expire_all-Changes (r ∷ rs) w l =
    let (c, l') = expire_one-Change r rs w l in
    rw (expire_all-cons r rs w)
      (Changes-trans (Changes-one c) (expire_all-Changes rs (expire_one r w).1 l'))

expire_reservations-down :
    (w : World) (e : String)
    → w.env.fault (w.ticks + 1) ≡ some e
    → (expire_reservations w).1.reservations ≡ w.reservations
unfolding expire_reservations list_expired_reservations now call
expire_reservations-down w e down = ground arith

-- The writes of ExpireReservations follow the state machine, whichever calls fail.
pub expire_reservations-Changes :
    (w : World)
    → IsUnique w.reservations
    → Changes w.reservations (expire_reservations w).1.reservations
expire_reservations-Changes w u = elim (Option-cases (w.env.fault (w.ticks + 1))) [
  | inl up ↦ rw (expire_reservations-loop w up) (
      expire_all-Changes (listed_at w) (next_tick (next_tick w))
        (Listed-join_all (w.env.clock w.ticks) w.spots w.reservations u))
  | inr (e, down) ↦ Changes-one (same (expire_reservations-down w e down))
]
