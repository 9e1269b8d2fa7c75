-- ===== src/Billing/Invoicing.antt =====
-- GenerateInvoice, GenerateBookingFeeInvoice and MarkInvoicePaid of
-- services/billing/internal/usecase/usecase.go: what they write and answer.
use parkirpintar.Common.{
  ◌≡◌, refl, ◌+◌, ◌*◌, ◌<◌, false, ◌∷◌, none, some, String, ◌==◌, arith, eq_iff, eq_refl,
  if◌then◌else◌,
}
use parkirpintar.Common.Time.{Time}
use parkirpintar.Table.{find, select, update, select-update, updated-select}
use parkirpintar.World.{World, ok, err, now, new_uuid, call}
use parkirpintar.Shared.Lock.{redis_get, redis_set}
use parkirpintar.Shared.Idempotency.{check, save, default_ttl}
use parkirpintar.Pricing.{calculate, billed_hours, is_overnight}
use parkirpintar.Pricing.Fees.{calculate_total}
use parkirpintar.Billing.Domain.{Invoice, pending_payment}
use parkirpintar.Billing.Repository.{
  invoice_key, is_taken, insert_invoice, get_by_idempotency_key, get_invoice, mark_paid, pay,
}
use parkirpintar.Billing.Usecase.{
  idempotency_entry, session_invoice, generate_fresh, generate_booking_fresh, booking_invoice,
  generate_invoice, mark_invoice_paid,
}

-- The other tables, and the messages, are the same.
abbrev pub OnlyInvoices : World → World → Type 0
OnlyInvoices w w' =
    (w'.spots ≡ w.spots)
    × (w'.reservations ≡ w.reservations)
    × (w'.transactions ≡ w.transactions)
    × (w'.published ≡ w.published)

-- An invoice that is generated anew is added as one row, under an id and a key that were not in the
-- table, awaits payment, and asks for 5000 for each billed hour and 20000 for an overnight session,
-- the booking fee not included.
pub generate_fresh_success :
    (session reservation driver key : String) (check_in check_out : Time) (w w' : World)
    (i : Invoice)
    → generate_fresh session reservation driver key check_in check_out w ≡ (ok i, w')
    → (is_taken i w.invoices ≡ false)
      × (i.session_id ≡ session)
      × (i.status ≡ pending_payment)
      × (i.idempotency_key ≡ key)
      × (i.total_amount
          ≡ 5000 * billed_hours check_in check_out
            + (if is_overnight check_in check_out then 20000 else 0))
      × (i.booking_fee ≡ 5000)
      × (w'.invoices ≡ record i { created_at = w.env.clock (w.ticks + 1 + 1) } ∷ w.invoices)
      × OnlyInvoices w w'
unfolding generate_fresh session_invoice calculate insert_invoice now new_uuid call save
generate_fresh_success session reservation driver key check_in check_out w w' i h =
    ground (arith, calculate_total check_in check_out)

-- An invoice of a booking fee that is generated anew is added as one row, under an id and a key that
-- were not in the table, awaits payment, and asks for 5000 and nothing else.
pub generate_booking_fresh_success :
    (reservation driver key : String) (w w' : World) (i : Invoice)
    → generate_booking_fresh reservation driver key w ≡ (ok i, w')
    → (is_taken i w.invoices ≡ false)
      × (i.reservation_id ≡ reservation)
      × (i.status ≡ pending_payment)
      × (i.idempotency_key ≡ key)
      × (i.total_amount ≡ 5000)
      × (i.booking_fee ≡ i.total_amount)
      × (w'.invoices ≡ record i { created_at = w.env.clock (w.ticks + 1 + 1) } ∷ w.invoices)
      × OnlyInvoices w w'
unfolding generate_booking_fresh booking_invoice insert_invoice now new_uuid call save
generate_booking_fresh_success reservation driver key w w' i h = ground arith

-- A generation that fails adds no invoice and caches no key.
pub generate_fresh_failure :
    (session reservation driver key : String) (check_in check_out : Time) (w w' : World)
    (e : String)
    → generate_fresh session reservation driver key check_in check_out w ≡ (err e, w')
    → (w'.invoices ≡ w.invoices) × (w'.redis ≡ w.redis) × OnlyInvoices w w'
unfolding generate_fresh insert_invoice now new_uuid call save
generate_fresh_failure session reservation driver key check_in check_out w w' e h = ground arith

-- A request repeated with the same key within 24 hours of the first one's being saved returns the
-- row of the first invoice, whatever session and times it names, and adds none. Between the two,
-- anything may run that leaves as they were the entry of this key in Redis and the row that has the
-- key; the saving of the key, its reading and the query do not fail.
pub generate_invoice_replay :
    (session session' reservation reservation' driver driver' key : String)
    (check_in check_in' check_out check_out' : Time) (w w' v : World) (i : Invoice)
    → generate_fresh session reservation driver key check_in check_out w ≡ (ok i, w')
    → redis_get (idempotency_entry key) (v.env.clock v.ticks) v.redis
      ≡ redis_get (idempotency_entry key) (v.env.clock v.ticks) w'.redis
    → find (λ (x : Invoice). x.idempotency_key == key) v.invoices
      ≡ find (λ (x : Invoice). x.idempotency_key == key) w'.invoices
    → w.env.fault (w.ticks + 1 + 1 + 1) ≡ none
    → v.env.clock v.ticks < w.env.clock (w.ticks + 1 + 1 + 1) + default_ttl
    → v.env.fault v.ticks ≡ none
    → v.env.fault (v.ticks + 1) ≡ none
    → let (answer, v') =
        generate_invoice session' reservation' driver' key check_in' check_out' v in
      (answer ≡ ok (record i { created_at = w.env.clock (w.ticks + 1 + 1) }))
      × (v'.invoices ≡ v.invoices)
unfolding generate_fresh session_invoice insert_invoice now new_uuid call save redis_set
    generate_invoice check redis_get select find get_by_idempotency_key
generate_invoice_replay session session' reservation reservation' driver driver' key check_in
      check_in' check_out check_out' w w' v i h keys rows saved soon up up' =
    ground (arith, eq_refl key, eq_refl (idempotency_entry key))

mark_invoice_paid_found :
    (id tx method : String) (at : Time) (w w' : World) (i : Invoice)
    → mark_invoice_paid id tx method at w ≡ (ok i, w')
    → (w'.invoices ≡ update invoice_key id (pay tx method at) w.invoices)
      × (select invoice_key id (update invoice_key id (pay tx method at) w.invoices) ≡ some i)
      × (w'.redis ≡ w.redis)
      × OnlyInvoices w w'
unfolding mark_invoice_paid mark_paid get_invoice call
mark_invoice_paid_found id tx method at w w' i h = ground arith

-- Marking an invoice paid that is answered without an error sets its payment and nothing else: its
-- amounts stay, the answer is the row, and every other invoice is as it was.
pub mark_invoice_paid_success :
    (id tx method : String) (at : Time) (w w' : World) (i : Invoice)
    → mark_invoice_paid id tx method at w ≡ (ok i, w')
    → ((old : Invoice) × (select invoice_key id w.invoices ≡ some old) × (i ≡ pay tx method at old))
      × ((j : String)
          → select invoice_key j w'.invoices
            ≡ (if id == j then some i else select invoice_key j w.invoices))
      × (w'.redis ≡ w.redis)
      × OnlyInvoices w w'
mark_invoice_paid_success id tx method at w w' i h =
    let (rows, found, redis, only) = mark_invoice_paid_found id tx method at w w' i h in
    let updated = select-update invoice_key (pay tx method at) (λ a. refl) in
    (
      updated-select invoice_key (pay tx method at) (λ a. refl) id w.invoices i found,
      λ j. ground (
        arith,
        rows,
        found,
        updated j id w.invoices,
        updated id id w.invoices,
        eq_refl id,
        eq_iff id j,
      ),
      redis,
      only,
    )
