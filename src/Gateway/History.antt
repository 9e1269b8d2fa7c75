-- ===== src/Gateway/History.antt =====
-- services/gateway/internal/handler/extra.go: a driver's reservations, where a pending one that is
-- overdue is marked as expired on the way.
use parkirpintar.Common.{◌&&◌, List, [], ◌∷◌, Option, String, ◌==◌, ltb, if◌then◌else◌}
use parkirpintar.Common.Time.{Time}
use parkirpintar.Table.{take, read_rows, where_, update_where}
use parkirpintar.World.{
  World, M, ok, pure, gets, or_fail, ◌>>=◌, ◌>>◌, modify, map_err, quiet, now, call,
}
use parkirpintar.Accounts.Http.{HttpError, http_error}
use parkirpintar.Reservation.Domain.{Row, Reservation, pending, expired, status_eq}
use parkirpintar.Reservation.Repository.{join_all}
use parkirpintar.Gateway.Confirmation.{is_pending_row}

-- ORDER BY confirmed_at DESC
unfoldable pub insert_latest : Reservation → List Reservation → List Reservation
insert_latest r [] = r ∷ []
insert_latest r (s ∷ ss) =
    let rest = insert_latest r ss in
    if ltb r.confirmed_at s.confirmed_at then s ∷ rest else r ∷ s ∷ ss

unfoldable pub latest_first : List Reservation → List Reservation
unfolding insert_latest
latest_first [] = []
latest_first (r ∷ rs) = insert_latest r (latest_first rs)

-- The latest 20 of a driver's reservations.
unfoldable pub own_rows : String → World → List Reservation
unfolding join_all latest_first take
own_rows driver w =
    take 20 (latest_first (join_all w.spots (where_ (λ r. r.driver_id == driver) w.reservations)))

unfoldable pub own_history : String → M String (List Reservation)
unfolding read_rows own_rows
own_history driver w =
    let cut = w.env.cut w.ticks in (call >>= λ _. gets (λ v. read_rows cut (own_rows driver v))) w

abbrev pub expire_row : Row → Row
expire_row r = record r { status = expired }

unfoldable pub expire_pending : String → M String (Unit {0})
expire_pending id = do
  _ ← call
  modify
      (λ w. record w { reservations = update_where (is_pending_row id) expire_row w.reservations })

-- One round of the loop: the entry of the answer, which shows the new status.
unfoldable pub mark_entry : Time → Reservation → M HttpError Reservation
mark_entry t r w =
    if status_eq r.status pending && ltb r.expires_at t
    then (quiet (expire_pending r.reservation_id) >> pure (record r { status = expired })) w
    else (ok r, w)

unfoldable pub mark_all : Time → List Reservation → M HttpError (List Reservation)
mark_all t [] = pure []
mark_all t (r ∷ rs) = do entry ← mark_entry t r; rest ← mark_all t rs; pure (entry ∷ rest)

unfoldable pub reservation_history : Option String → M HttpError (List Reservation)
reservation_history user = do
  driver ← or_fail user (http_error 401 "missing user id")
  rows ← map_err (λ _. http_error 500 "failed to query history") (own_history driver)
  t ← now
  mark_all t rows
