-- ===== src/Gateway/Billed.antt =====
-- What CheckOut of services/gateway/internal/handler/handler.go bills: three calls of other services,
-- the check-out, the reservation, and the invoice.
use parkirpintar.Common.{
  ◌≡◌, refl, ◌+◌, ◌*◌, inl, inr, Option, none, some, String, ◌⧺◌, ◌==◌, arith, eq_refl,
  if◌then◌else◌,
}
use parkirpintar.Common.Time.{Time}
use parkirpintar.Common.Grpc.{Failure}
use parkirpintar.Table.{find, select, select-update}
use parkirpintar.World.{World, Result-cases, next_tick, ok, M, call}
use parkirpintar.Shared.Idempotency.{check}
use parkirpintar.Pricing.{billed_hours, is_overnight}
use parkirpintar.Reservation.Domain.{Row, Reservation, completed}
use parkirpintar.Reservation.Repository.{row_id, join, get_reservation}
use parkirpintar.Reservation.Usecase.{check_out_fresh, check_out}
use parkirpintar.Reservation.Outcomes.{check_out_fresh_success}
use parkirpintar.Reservation.Handler.{
  CheckOutResponse, ProtoReservation, handle_check_out, handle_get, domain_reservation_to_proto,
}
use parkirpintar.Billing.Domain.{Invoice}
use parkirpintar.Billing.Repository.{get_by_idempotency_key}
use parkirpintar.Billing.Usecase.{generate_fresh, generate_invoice}
use parkirpintar.Billing.Invoicing.{generate_fresh_success}
use parkirpintar.Billing.Handler.{ProtoInvoice, handle_generate, domain_invoice_to_proto}
use parkirpintar.Gateway.Client.{rpc}
use parkirpintar.Gateway.Handler.{CheckOutAnswer}
use parkirpintar.Gateway
use mathlib.Core.Option

rpc-success :
    {A : Type 0}
    → (m : M Failure A) (a : A) (w w' : World) → rpc m w ≡ (ok a, w')
    → (v : World) × (m (next_tick w) ≡ (ok a, v)) × (w' ≡ next_tick v)
unfolding rpc call
rpc-success m a w w' h = elim (Result-cases (m (next_tick w))) [
  | inl (b, v, e) ↦ (v, ground (arith, h, e), ground (arith, h, e))
  | inr (x, v, e) ↦ absurd (ground (arith, h, e))
]

abbrev confirmed_in : String → World → Option Time
confirmed_in id w = Option.map (λ (r : Row). r.confirmed_at) (select row_id id w.reservations)

-- A check-out that is answered leaves the invoices, and when the reservation was confirmed.
check_out-keeps :
    (id driver key : String) (r : Reservation) (w w' : World)
    → check_out id driver key w ≡ (ok r, w')
    → (w'.invoices ≡ w.invoices) × (confirmed_in id w' ≡ confirmed_in id w)
unfolding check_out check get_reservation call
check_out-keeps id driver key r w w' h =
    elim (Result-cases (check_out_fresh id driver key (next_tick w))) [
      | inl (r', v, e) ↦
          let s = check_out_fresh_success id driver key (next_tick w) v r' e in
          let updated =
            select-update row_id
              (λ x. record x { status = completed; check_out_at = r'.check_out_at }) (λ x. refl) id
              id w.reservations in
          ground (arith, h, e, s.4, s.6, updated, s.1, eq_refl id)
      | inr (x, v, e) ↦ ground (arith, h, e)
    ]

handle_check_out-keeps :
    (id driver key : String) (a : CheckOutResponse) (w w' : World)
    → handle_check_out id driver key w ≡ (ok a, w')
    → (w'.invoices ≡ w.invoices) × (confirmed_in id w' ≡ confirmed_in id w)
unfolding handle_check_out
handle_check_out-keeps id driver key a w w' h = elim (Result-cases (check_out id driver key w)) [
  | inl (r, v, e) ↦ ground (arith, h, e, check_out-keeps id driver key r w v e)
  | inr (x, v, e) ↦ absurd (ground (arith, h, e))
]

handle_get-confirmed :
    (id : String) (d : ProtoReservation) (w w' : World)
    → handle_get id w ≡ (ok d, w')
    → (confirmed_in id w ≡ some d.confirmed_at) × (w'.invoices ≡ w.invoices)
unfolding handle_get get_reservation join domain_reservation_to_proto call
handle_get-confirmed id d w w' h = ground arith

-- The invoice of a key that no invoice has yet is a new one, with the amount of the pricing.
handle_generate-fresh :
    (session id driver key : String) (check_in check_out : Time) (inv : ProtoInvoice) (w w' : World)
    → find (λ (i : Invoice). i.idempotency_key == key) w.invoices ≡ none
    → handle_generate session id driver key check_in check_out w ≡ (ok inv, w')
    → inv.total_amount
      ≡ 5000 * billed_hours check_in check_out
        + (if is_overnight check_in check_out then 20000 else 0)
unfolding handle_generate generate_invoice check get_by_idempotency_key domain_invoice_to_proto call
handle_generate-fresh session id driver key check_in check_out inv w w' new h =
    elim (Result-cases (generate_fresh session id driver key check_in check_out (next_tick w))) [
      | inl (i, v, e) ↦
          let s =
            generate_fresh_success session id driver key check_in check_out (next_tick w) v i e in
          ground (arith, h, e, s.4)
      | inr (x, v, e) ↦ absurd (ground (arith, h, e))
    ]

-- The three calls of a check-out that is answered.
check_out-calls :
    (driver id key : String) (a : CheckOutAnswer) (w w' : World)
    → Gateway.Handler.check_out (some driver) id key w ≡ (ok a, w')
    → (resp : CheckOutResponse) × (d : ProtoReservation) × (inv : ProtoInvoice) × (v : World)
      × (u : World) × (rpc (handle_check_out id driver key) w ≡ (ok resp, v))
      × (rpc (handle_get id) v ≡ (ok d, u))
      × (rpc
            (handle_generate resp.session_id id driver
              ("inv-" ⧺ key)
              d.confirmed_at
              resp.check_out_at)
            u
          ≡ (ok inv, w'))
      × (a.check_out_at ≡ resp.check_out_at)
      × (a.invoice_summary.total_amount ≡ inv.total_amount)
unfolding Gateway.Handler.check_out
check_out-calls driver id key a w w' h =
    elim (Result-cases (rpc (handle_check_out id driver key) w)) [
      | inr (x, v, e) ↦ absurd (ground (arith, h, e))
      | inl (resp, v, e) ↦ elim (Result-cases (rpc (handle_get id) v)) [
        | inr (x, u, e') ↦ absurd (ground (arith, h, e, e'))
        | inl (d, u, e') ↦
            elim (Result-cases (
              rpc
                (handle_generate resp.session_id id driver ("inv-" ⧺ key) d.confirmed_at
                  resp.check_out_at)
                u)) [
                  | inr (x, t, e'') ↦ absurd (ground (arith, h, e, e', e''))
                  | inl (inv, t, e'') ↦ (
                    resp,
                    d,
                    inv,
                    v,
                    u,
                    e,
                    e',
                    ground (arith, h, e, e', e''),
                    ground (arith, h, e, e', e''),
                    ground (arith, h, e, e', e''),
                  )
                ]
      ]
    ]

-- What a driver pays for parking. A check-out at the gateway that is answered, with a key that no
-- invoice has yet, is billed from the instant at which the reservation was confirmed, not from the
-- check-in, to the one of the check-out: 5000 for each of the hours that BilledHours of pkg/pricing
-- counts, the whole minutes rounded up to hours and 720 at most, and 20000 for an overnight stay.
pub check_out_bills :
    (driver id key : String) (a : CheckOutAnswer) (r : Row) (w w' : World)
    → select row_id id w.reservations ≡ some r
    → find (λ (i : Invoice). i.idempotency_key == "inv-" ⧺ key) w.invoices ≡ none
    → Gateway.Handler.check_out (some driver) id key w ≡ (ok a, w')
    → a.invoice_summary.total_amount
      ≡ 5000 * billed_hours r.confirmed_at a.check_out_at
        + (if is_overnight r.confirmed_at a.check_out_at then 20000 else 0)
check_out_bills driver id key a r w w' found new h =
    let (resp, d, inv, v, u, e, e', e'', left, total) = check_out-calls driver id key a w w' h in
    let (v', left', same) = rpc-success (handle_check_out id driver key) resp w v e in
    let (u', got, same') = rpc-success (handle_get id) d v u e' in
    let (t, made, _) =
      rpc-success
        (handle_generate resp.session_id id driver ("inv-" ⧺ key) d.confirmed_at resp.check_out_at)
        inv u w' e'' in
    let k = handle_check_out-keeps id driver key resp (next_tick w) v' left' in
    let g = handle_get-confirmed id d (next_tick v) u' got in
    let invoices : u.invoices ≡ w.invoices = ground (arith, same, same', k.0, g.1) in
    let at : d.confirmed_at ≡ r.confirmed_at = ground (arith, found, k.1, g.0, same) in
    let bills =
      handle_generate-fresh resp.session_id id driver ("inv-" ⧺ key) d.confirmed_at
        resp.check_out_at inv (next_tick u) t (rw invoices new) made in
    rw (total, ← at, left) bills
