-- ===== src/Mq.antt =====
-- pkg/mq/mq.go: connections to RabbitMQ and the consumer's loop; its Publish stands with the
-- reservation service's publisher. amqp is what it does to the broker: each call of it is a request
-- of the environment that may fail and then changes nothing; closing does not fail. A delivery is
-- the message that encoding/json reads from its body, or `none`.
pub mod Consuming
use parkirpintar.Common.{
  if◌then◌else◌, ℕ, ◌+◌, ◌-◌, Bool, true, false, List, [], ◌∷◌, ◌++◌, Option, none, some, String,
  ◌⧺◌,
}
use parkirpintar.Common.Grpc.{Failure, status_error, nil_dereference}
use parkirpintar.World.{World, Result, ok, err, Message, M, pure, wrap, call}

pub record Broker : Type 0 where
  pub connections : ℕ
  pub channels : ℕ
  pub exchanges : List String
  pub queues : List String
  pub bindings : List (String × String)
  pub consumed : List String

abbrev pub exchange_parkirpintar : String
exchange_parkirpintar = "parkirpintar"

-- A call of amqp with its effect.
unfoldable pub amqp :
    String → (Broker → Broker) → Broker → World → Result String (Unit {0}) × Broker × World
amqp text effect b w =
    let (r, w') = wrap text call w in
    elim r [ ok _ ↦ (ok tt, effect b, w') | err e ↦ (err e, b, w') ]

abbrev pub dialed : Broker → Broker
dialed b = record b { connections = b.connections + 1 }

abbrev pub channel_opened : Broker → Broker
channel_opened b = record b { channels = b.channels + 1 }

abbrev pub connection_closed : Broker → Broker
connection_closed b = record b { connections = b.connections - 1 }

abbrev pub channel_closed : Broker → Broker
channel_closed b = record b { channels = b.channels - 1 }

-- NewPublisher: what is open is closed again on an error.
unfoldable pub connect : Broker → World → Result String (Unit {0}) × Broker × World
connect b w =
    let (r₁, b₁, w₁) = amqp "dial amqp: " dialed b w in
    let (r₂, b₂, w₂) = amqp "open channel: " channel_opened b₁ w₁ in
    let (r₃, b₃, w₃) =
      amqp "declare exchange: " (λ x. record x { exchanges = exchange_parkirpintar ∷ x.exchanges })
        b₂ w₂ in
    elim r₁ [
      | err e ↦ (err e, b₁, w₁)
      | ok _ ↦ elim r₂ [
        | err e ↦ (err e, connection_closed b₂, w₂)
        | ok _ ↦ elim r₃ [
          | err e ↦ (err e, connection_closed (channel_closed b₃), w₃)
          | ok _ ↦ (ok tt, b₃, w₃)
        ]
      ]
    ]

-- NewConsumer has the same body.
unfoldable pub new_consumer : Broker → World → Result String (Unit {0}) × Broker × World
unfolding connect
new_consumer = connect

-- Close of a publisher or a consumer.
unfoldable pub close : Broker → Broker
close b = connection_closed (channel_closed b)

abbrev pub bound : String → String → Broker → Broker
bound queue key b = record b { bindings = b.bindings ++ ((queue, key) ∷ []) }

-- The loop over the routing keys, which stops at the first that fails.
unfoldable pub bind_all :
    String → List String → Broker → World → Result String (Unit {0}) × Broker × World
bind_all queue [] b w = (ok tt, b, w)
bind_all queue (key ∷ keys) b w =
    let (r, b', w') = amqp ("bind queue " ⧺ queue ⧺ " to " ⧺ key ⧺ ": ") (bound queue key) b w in
    let rest = bind_all queue keys b' w' in elim r [ ok _ ↦ rest | err e ↦ (err e, b', w') ]

-- Subscribe up to the start of its loop.
unfoldable pub subscribe :
    String → List String → Broker → World → Result String (Unit {0}) × Broker × World
subscribe queue keys b w =
    let (r₁, b₁, w₁) =
      amqp ("declare queue " ⧺ queue ⧺ ": ") (λ x. record x { queues = queue ∷ x.queues }) b w in
    let (r₂, b₂, w₂) = bind_all queue keys b₁ w₁ in
    let rest =
      amqp ("consume " ⧺ queue ⧺ ": ") (λ x. record x { consumed = queue ∷ x.consumed }) b₂ w₂ in
    elim r₁ [ err e ↦ (err e, b₁, w₁) | ok _ ↦ elim r₂ [ err e ↦ (err e, b₂, w₂) | ok _ ↦ rest ] ]

-- How a delivery is settled: a nack does not queue it again.
-- A delivery is acknowledged or not, or the handler panics on it, which ends the process.
pub data Settled : Type 0 where
  acked nacked panicked : Settled

abbrev pub settled_as : Result Failure (Unit {0}) → Settled
settled_as (ok _) = acked
settled_as (err (status_error _ _)) = nacked
settled_as (err nil_dereference) = panicked

abbrev pub goes_on : Settled → Bool
goes_on panicked = false
goes_on _ = true

-- One round of the loop.
unfoldable pub settle : (Message → M Failure (Unit {0})) → Option Message → World → Settled × World
settle handler none w = (nacked, w)
settle handler (some msg) w = let (r, w') = handler msg w in (settled_as r, w')

unfoldable pub consume :
    (Message → M Failure (Unit {0})) → List (Option Message) → World → List Settled × World
unfolding settle
consume handler [] w = ([], w)
consume handler (d ∷ ds) w =
    let (s, w') = settle handler d w in
    let (ss, w'') = consume handler ds w' in if goes_on s then (s ∷ ss, w'') else (s ∷ [], w')
