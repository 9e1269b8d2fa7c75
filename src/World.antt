-- ===== src/World.antt =====
-- What the services run in: the tables of PostgreSQL, the keys of Redis, the messages given to the
-- broker, and the environment. A computation takes the world and returns a result with the new
-- world, since what was written stays written after an error.
-- The environment answers the n-th request that the program makes of it: whether the n-th call of
-- the database, of Redis or of the broker fails (such a call then changes nothing), what the clock
-- shows then, which identifier uuid.New returns, and after how many rows the answer to a query breaks
-- off, if it does: only code that does not look at the error of its rows goes on then, and to other
-- code this is a call that fails.
use parkirpintar.Common.{
  ◌≡◌, refl, ◌⊎◌, inl, inr, ℕ, ◌+◌, List, Option, none, some, String, ◌⧺◌, Bool, if◌then◌else◌,
}
use parkirpintar.Common.Time.{Time}
use parkirpintar.Reservation.Domain.{Row, SpotRow}
use parkirpintar.Billing.Domain.{Invoice}
use parkirpintar.Payment.Domain.{Transaction}
use parkirpintar.Accounts.Domain.{Driver}
use parkirpintar.Notification.Domain.{NotificationLog}
use parkirpintar.Presence.Domain.{LocationUpdate}

pub record Env : Type 0 where
  pub fault : ℕ → Option String
  pub clock : ℕ → Time
  pub uuid : ℕ → String
  pub cut : ℕ → Option ℕ

-- A key of Redis: its text and the instant from which it is gone.
pub record Entry : Type 0 where
  pub key : String
  pub value : String
  pub expires : Time

-- The fields of ReservationEvent (services/reservation/internal/publisher/publisher.go).
pub record ReservationEvent : Type 0 where
  pub reservation_id : String
  pub driver_id : String
  pub spot_id : String
  pub floor : ℕ
  pub spot_number : ℕ
  pub vehicle_type : String
  pub session_id : String
  pub status : String

-- pkg/mq's Message. The payload stands for its JSON text, which encoding/json reads back by the
-- tags that publisher and subscribers share.
pub record Message : Type 0 where
  pub event : String
  pub timestamp : Time
  pub payload : ReservationEvent

pub record World : Type 0 where
  pub env : Env
  pub ticks : ℕ
  pub spots : List SpotRow
  pub reservations : List Row
  pub invoices : List Invoice
  pub transactions : List Transaction
  pub drivers : List Driver
  pub notices : List NotificationLog
  pub locations : List LocationUpdate
  pub redis : List Entry
  pub published : List Message

pub data Result (E A : Type 0) : Type 0 where
  ok : A → Result E A
  err : E → Result E A

abbrev pub M : Type 0 → Type 0 → Type 0
M E A = World → Result E A × World

module _ {E A : Type 0} where
  abbrev pub pure : A → M E A
  pure a w = (ok a, w)

  abbrev pub fail : E → M E A
  fail e w = (err e, w)

  abbrev pub gets : (World → A) → M E A
  gets f w = (ok (f w), w)

  abbrev pub or_fail : Option A → E → M E A
  or_fail none e = fail e
  or_fail (some a) _ = pure a

-- How a computation ends.
pub Result-cases :
    {E A : Type 0} (p : Result E A × World)
    → ((a : A) × (w : World) × (p ≡ (ok a, w))) ⊎ ((e : E) × (w : World) × (p ≡ (err e, w)))
Result-cases (ok a, w) = inl (a, w, refl)
Result-cases (err e, w) = inr (e, w, refl)

pub Result-split :
    {E A : Type 0} (r : Result E A) → ((a : A) × (r ≡ ok a)) ⊎ ((e : E) × (r ≡ err e))
Result-split (ok a) = inl (a, refl)
Result-split (err e) = inr (e, refl)

infixl 5 ◌>>=◌ ◌>>◌
abbrev pub ◌>>=◌ : {E A B : Type 0} → M E A → (A → M E B) → M E B
◌>>=◌ m f w = let (r, w') = m w in elim r [ ok a ↦ f a w' | err e ↦ (err e, w') ]

abbrev pub ◌>>◌ : {E B : Type 0} → M E (Unit {0}) → M E B → M E B
m >> k = m >>= λ _. k

abbrev pub guard : {E : Type 0} → Bool → E → M E (Unit {0})
guard b e w = (if b then ok tt else err e, w)

abbrev pub modify : {E : Type 0} → (World → World) → M E (Unit {0})
modify f w = (ok tt, f w)

-- An error of `m` is wrapped, as by fmt.Errorf("…: %w", err).
abbrev pub map_err : {E F A : Type 0} → (E → F) → M E A → M F A
map_err f m w = let (r, w') = m w in (elim r [ ok a ↦ ok a | err e ↦ err (f e) ], w')

abbrev pub wrap : {A : Type 0} → String → M String A → M String A
wrap text = map_err (λ e. text ⧺ e)

-- An error of `m` is dropped, or only logged.
abbrev pub quiet : {E F A : Type 0} → M E A → M F (Unit {0})
quiet m w = (ok tt, (m w).1)

-- An error of `m` comes back after a cleanup whose own error is dropped.
abbrev pub on_error : {E F A B : Type 0} → M E A → M F B → M E A
on_error m k w = let (r, w') = m w in elim r [ ok a ↦ (ok a, w') | err e ↦ (err e, (k w').1) ]

-- The result of `m` as a value, to branch on.
abbrev pub attempt : {E F A : Type 0} → M E A → M F (Result E A)
attempt m w = let (r, w') = m w in (ok r, w')

abbrev pub next_tick : World → World
next_tick w = record w { ticks = w.ticks + 1 }

-- time.Now()
unfoldable pub now : {E : Type 0} → M E Time
now w = (ok (w.env.clock w.ticks), next_tick w)

-- uuid.New().String()
unfoldable pub new_uuid : {E : Type 0} → M E String
new_uuid w = (ok (w.env.uuid w.ticks), next_tick w)

-- A call of the database, of Redis or of the broker: the instant at which it is served.
unfoldable pub call : M String Time
call w =
    (elim (w.env.fault w.ticks) [ none ↦ ok (w.env.clock w.ticks) | some e ↦ err e ], next_tick w)
