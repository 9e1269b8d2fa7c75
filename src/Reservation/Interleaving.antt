-- ===== src/Reservation/Interleaving.antt =====
-- Requests that cross while a reservation is being created. CreateReservation of
-- services/reservation/internal/usecase/usecase.go takes the lock of the spot and inserts the row
-- later; here the lock and the insertion are two steps, and between the steps of one creation run
-- the steps of others, whole requests of the services that write to Redis, and rounds of the expiry
-- job.
use parkirpintar.Common.{◌≡◌, ◌≢◌, ◌<◌, ◌≤◌, ℕ, ◌+◌, Option, none, some, String, arith, eq_refl}
use parkirpintar.Common.Time.{Time, hour}
use parkirpintar.Gateway.Confirmation.{ConfirmRequest, confirm_booking_payment}
use parkirpintar.Billing.Usecase.{generate_invoice}
use parkirpintar.Payment.Domain.{CustomerInfo}
use parkirpintar.Payment.Gateway.{Gateway}
use parkirpintar.Payment.Usecase.{WebhookPayload, create_transaction, handle_payload}
use parkirpintar.Gateway.Unreleased.{
  confirm_booking_payment-Held, generate_invoice-Held, create_transaction-Held, handle_payload-Held,
}
use parkirpintar.World.{
  World, M, ok, err, pure, ◌>>=◌, ◌>>◌, guard, wrap, quiet, on_error, now, new_uuid, call,
}
use parkirpintar.Shared.Lock.{acquire, release, set_nx, redis_get, redis_set}
use parkirpintar.Table.{select, find}
use parkirpintar.Shared.Idempotency.{check, save, default_ttl}
use parkirpintar.Shared.Held.{IsHeld, IsHeld-reads, acquire-IsHeld, release-IsHeld, save-IsHeld}
use parkirpintar.Reservation.Domain.{AssignmentMode, Spot, Reservation, payment_timeout, expired}
use parkirpintar.Reservation.Repository.{
  get_reservation, insert_reservation, update_status, update_confirmed, update_check_in,
  update_check_out, update_cancelled,
}
use parkirpintar.Reservation.Publisher.{publish}
use parkirpintar.Reservation.Usecase.{
  spot_lock_key, idempotency_entry, new_reservation, reserve_spot, confirm_reservation,
  cancel_reservation, check_in, check_out_fresh, check_out, expire_one,
}
use parkirpintar.Reservation.Creation.{lock_time}
use parkirpintar.Reservation.Keys.{spot_lock_key-ne-idempotency_entry}

-- CreateReservation's lock: the id of the reservation to be.
unfoldable pub reserve_lock : Spot → M String String
reserve_lock spot = do
  id ← new_uuid
  acquired ← wrap "acquire lock: " (acquire (spot_lock_key spot.spot_id) id payment_timeout)
  guard acquired "spot unavailable"
  pure id

-- CreateReservation from there on.
unfoldable pub reserve_insert :
    String → String → AssignmentMode → Spot → String → M String Reservation
reserve_insert driver_id key mode spot id = do
  at ← now
  let r = new_reservation id driver_id key mode spot at
  on_error (wrap "insert reservation: " (insert_reservation r))
      (release (spot_lock_key spot.spot_id) id)
  quiet (save (idempotency_entry key) id default_ttl)
  pure r

-- With nothing between them the steps are CreateReservation past the choice of the spot.
pub reserve_spot-steps :
    (driver key : String) (mode : AssignmentMode) (spot : Spot) (w : World)
    → reserve_spot driver key mode spot w
      ≡ (reserve_lock spot >>= reserve_insert driver key mode spot) w
unfolding reserve_spot reserve_lock reserve_insert
reserve_spot-steps driver key mode spot w = ground arith

-- What may run between the steps of a creation.
pub data Event : Type 0 where
  locks : Spot → Event
  inserts : String → String → AssignmentMode → Spot → String → Event
  confirms : String → Event
  cancels checks_in : String → String → Event
  checks_out : String → String → String → Event
  expires : Reservation → Event
  pays : Option String → Option ConfirmRequest → Event
  bills : String → String → String → String → Time → Time → Event
  charges : Gateway → String → String → String → String → ℕ → CustomerInfo → Event
  takes_webhook : Gateway → String → WebhookPayload → Event

unfoldable pub step : Event → World → World
step (locks spot) w = (reserve_lock spot w).1
step (inserts driver key mode spot id) w = (reserve_insert driver key mode spot id w).1
step (confirms id) w = (confirm_reservation id w).1
step (cancels id driver) w = (cancel_reservation id driver w).1
step (checks_in id driver) w = (check_in id driver w).1
step (checks_out id driver key) w = (check_out id driver key w).1
step (expires r) w = (expire_one r w).1
step (pays user body) w = (confirm_booking_payment user body w).1
step (bills session reservation driver key check_in check_out) w =
    (generate_invoice session reservation driver key check_in check_out w).1
step (charges gw invoice driver key m amount customer) w =
    (create_transaction gw invoice driver key m amount customer w).1
step (takes_webhook gw server_key p) w = (handle_payload gw server_key p w).1

-- The reservation whose lock an event gives back, if it does: a request that is refused, or answered
-- from the idempotency store, gives back none.
abbrev pub gives_back : Event → World → Option String
gives_back (locks _) w = none
gives_back (inserts driver key mode spot id) w = elim (reserve_insert driver key mode spot id w).0 [
  | ok _ ↦ none
  | err _ ↦ some id
]
gives_back (confirms _) w = none
gives_back (cancels id driver) w = elim (cancel_reservation id driver w).0 [
  | ok _ ↦ some id
  | err _ ↦ none
]
gives_back (checks_in _ _) w = none
gives_back (checks_out id driver key) w = elim (check (idempotency_entry key) w).0 [
  | ok none ↦ (elim (check_out id driver key w).0 [ ok _ ↦ some id | err _ ↦ none ])
  | _ ↦ none
]
gives_back (expires r) w = elim (update_status r.reservation_id expired w).0 [
  | ok _ ↦ some r.reservation_id
  | err _ ↦ none
]
gives_back _ w = none

-- An event that asks for a lock does so before the instant; one that extends a lock, by an hour, does
-- so to an instant that is not before it.
abbrev pub IsBefore : Time → Event → World → Type 0
IsBefore until (locks _) w = w.env.clock (w.ticks + 1) < until
IsBefore until (confirms _) w = w.env.clock (w.ticks + 1 + 1 + 1) < until
IsBefore until (pays _ _) w = until ≤ w.env.clock (w.ticks + 1 + 1 + 1 + 1 + 1) + hour
IsBefore until _ w = Unit {0}

-- Events one after another, before the instant, none of which gives back the lock of `id`.
pub data Trace (id : String) (until : Time) (w : World) : World → Type 0 where
  stops : Trace id until w w
  goes :
      {v : World}
      → Trace id until w v
      → (e : Event) → gives_back e v ≢ some id
      → IsBefore until e v
      → Trace id until w (step e v)

module _ (id : String) (until : Time) (s : String) where
  abbrev Held : World → Type 0
  Held w = IsHeld (spot_lock_key s) id until w.redis

  locks-Held :
      (spot : Spot) (w : World)
      → Held w
      → w.env.clock (w.ticks + 1) < until
      → Held (reserve_lock spot w).1
  unfolding reserve_lock new_uuid
  locks-Held spot w h before = grind (arith, acquire-IsHeld)

  inserts-Held :
      (driver key : String) (mode : AssignmentMode) (spot : Spot) (i : String) (w : World)
      → Held w
      → gives_back (inserts driver key mode spot i) w ≢ some id
      → Held (reserve_insert driver key mode spot i w).1
  unfolding reserve_insert insert_reservation now call
  inserts-Held driver key mode spot i w h keeps =
      grind (arith, release-IsHeld, save-IsHeld, spot_lock_key-ne-idempotency_entry)

  confirms-Held :
      (i : String) (w : World)
      → Held w
      → w.env.clock (w.ticks + 1 + 1 + 1) < until
      → Held (confirm_reservation i w).1
  unfolding confirm_reservation get_reservation update_confirmed publish now call
  confirms-Held i w h before = grind (arith, acquire-IsHeld)

  cancels-Held :
      (i driver : String) (w : World)
      → Held w
      → gives_back (cancels i driver) w ≢ some id
      → Held (cancel_reservation i driver w).1
  unfolding cancel_reservation get_reservation update_cancelled publish now call
  cancels-Held i driver w h keeps = grind (arith, release-IsHeld)

  checks_in-Held : (i driver : String) (w : World) → Held w → Held (check_in i driver w).1
  unfolding check_in get_reservation update_check_in publish now new_uuid call
  checks_in-Held i driver w h = ground arith

  checks_out-Held :
      (i driver key : String) (w : World)
      → Held w
      → gives_back (checks_out i driver key) w ≢ some id
      → Held (check_out i driver key w).1
  unfolding check_out check check_out_fresh get_reservation update_check_out publish now call
  checks_out-Held i driver key w h keeps =
      grind (arith, release-IsHeld, save-IsHeld, spot_lock_key-ne-idempotency_entry)

  expires-Held :
      (r : Reservation) (w : World)
      → Held w
      → gives_back (expires r) w ≢ some id
      → Held (expire_one r w).1
  unfolding expire_one update_status publish now call
  expires-Held r w h keeps = grind (arith, release-IsHeld)

  -- Whatever event runs, the lock stays.
  step-Held :
      (e : Event) (w : World)
      → Held w
      → gives_back e w ≢ some id
      → IsBefore until e w
      → Held (step e w)
  unfolding step
  step-Held (locks spot) w h keeps before = locks-Held spot w h before
  step-Held (inserts driver key mode spot i) w h keeps before =
      inserts-Held driver key mode spot i w h keeps
  step-Held (confirms i) w h keeps before = confirms-Held i w h before
  step-Held (cancels i driver) w h keeps before = cancels-Held i driver w h keeps
  step-Held (checks_in i driver) w h keeps before = checks_in-Held i driver w h
  step-Held (checks_out i driver key) w h keeps before = checks_out-Held i driver key w h keeps
  step-Held (expires r) w h keeps before = expires-Held r w h keeps
  step-Held (pays user body) w h keeps before =
      confirm_booking_payment-Held id until s user body w h before
  step-Held (bills session reservation driver key check_in check_out) w h keeps before =
      generate_invoice-Held id until s session reservation driver key check_in check_out w h
  step-Held (charges gw invoice driver key m amount customer) w h keeps before =
      create_transaction-Held id until s gw invoice driver key m amount customer w h
  step-Held (takes_webhook gw server_key p) w h keeps before =
      handle_payload-Held id until s gw server_key p w h

  Trace-Held : {w v : World} → Held w → Trace id until w v → Held v
  Trace-Held h stops = h
  Trace-Held h (goes {v} t e keeps before) = step-Held e v (Trace-Held h t) keeps before

reserve_lock-IsHeld :
    (spot : Spot) (id : String) (w v : World)
    → reserve_lock spot w ≡ (ok id, v)
    → IsHeld (spot_lock_key spot.spot_id) id (lock_time w + payment_timeout) v.redis
unfolding reserve_lock acquire set_nx redis_set new_uuid call select find
reserve_lock-IsHeld spot id w v h = ground (arith, eq_refl (spot_lock_key spot.spot_id), eq_refl id)

reserve_lock_held :
    (spot : Spot) (holder : String) (w : World)
    → w.env.fault (w.ticks + 1) ≡ none
    → redis_get (spot_lock_key spot.spot_id) (lock_time w) w.redis ≡ some holder
    → (reserve_lock spot w).0 ≡ err "spot unavailable"
unfolding reserve_lock acquire set_nx new_uuid call
reserve_lock_held spot holder w up held = ground arith

-- No double booking while creations cross. A creation has taken the lock of a spot; then steps of
-- other creations, of the same spot or others, whole requests of the reservation service, rounds of
-- the expiry job, confirmations at the gateway, and the billing and the payment service's requests
-- that write to Redis run in any order, and any of their calls may fail; none of them succeeds in a
-- way that gives back the lock of this creation, none asks for a lock after five minutes, and a lock
-- that is extended then lasts so long. A second creation for the spot that asks for the lock
-- within the five minutes, with Redis answering, is refused, whether the first has inserted its row
-- by then or not.
pub reserve_lock_excludes :
    (spot : Spot) (id : String) (w v u : World)
    → reserve_lock spot w ≡ (ok id, v)
    → Trace id (lock_time w + payment_timeout) v u
    → lock_time u < lock_time w + payment_timeout
    → u.env.fault (u.ticks + 1) ≡ none
    → (reserve_lock spot u).0 ≡ err "spot unavailable"
reserve_lock_excludes spot id w v u locked trace soon up =
    let until = lock_time w + payment_timeout in
    let held = Trace-Held id until spot.spot_id (reserve_lock-IsHeld spot id w v locked) trace in
    reserve_lock_held spot id u up
      (IsHeld-reads (spot_lock_key spot.spot_id) id until (lock_time u) u.redis held soon)
