-- ===== src/Mq/Consuming.antt =====
-- What the connections and the consumer's loop of pkg/mq/mq.go promise, and what the subscribers of
-- the notification and billing services make of them.
use parkirpintar.Common.{◌≡◌, ◌≢◌, refl, ◌+◌, List, [], ◌∷◌, ◌++◌, map, some, String, arith}
use parkirpintar.World.{World, Result, ok, err, Message, call}
use parkirpintar.Mq.{
  Broker, amqp, connect, close, bind_all, subscribe, Settled, acked, panicked, settle, consume,
}
use parkirpintar.Notification.Handler.{
  Repository, stores, no_repository, nil_pointer, Providers, SendRequest, channel_push,
}
use parkirpintar.Common.Grpc.{nil_dereference}
use parkirpintar.Notification.Subscriber.{event_to_template, event_data, handle_event}
use parkirpintar.Notification.Delivery.{send_notification-ok, send_notification-panics}

-- A constructor that fails leaves no connection and no channel open; one that succeeds opens one of
-- each, which Close closes.
pub connect-close :
    (b b' : Broker) (r : Result String (Unit {0})) (w w' : World)
    → connect b w ≡ (r, b', w')
    → let left : Broker = elim r [ ok _ ↦ close b' | err _ ↦ b' ] in
      (left.connections ≡ b.connections) × (left.channels ≡ b.channels)
unfolding connect amqp call close
connect-close b b' r w w' h = ground arith

abbrev pub pairs : String → List String → List (String × String)
pairs queue [] = []
pairs queue (key ∷ keys) = (queue, key) ∷ pairs queue keys

append_assoc : {A : Type 0} (xs ys zs : List A) → (xs ++ ys) ++ zs ≡ xs ++ (ys ++ zs)
append_assoc [] ys zs = refl
append_assoc (x ∷ xs) ys zs = ground (arith, append_assoc xs ys zs)

append_nil : {A : Type 0} (xs : List A) → xs ++ [] ≡ xs
append_nil [] = refl
append_nil (x ∷ xs) = ground (arith, append_nil xs)

bind_all_success :
    (queue : String) (keys : List String) (b b' : Broker) (w w' : World)
    → bind_all queue keys b w ≡ (ok tt, b', w')
    → (b'.bindings ≡ b.bindings ++ pairs queue keys)
      × (b'.queues ≡ b.queues)
      × (b'.consumed ≡ b.consumed)
unfolding bind_all amqp call
bind_all_success queue [] b b' w w' h = ground (arith, append_nil b.bindings)
bind_all_success queue (key ∷ keys) b b' w w' h = ground (
  arith,
  bind_all_success queue keys (record b { bindings = b.bindings ++ ((queue, key) ∷ []) }) b'
      (record w { ticks = w.ticks + 1 }) w',
  append_assoc b.bindings ((queue, key) ∷ []) (pairs queue keys),
)

-- A subscription that succeeds has declared its queue, bound it by each of the keys, in their order,
-- and consumes it.
pub subscribe_success :
    (queue : String) (keys : List String) (b b' : Broker) (w w' : World)
    → subscribe queue keys b w ≡ (ok tt, b', w')
    → (b'.queues ≡ queue ∷ b.queues)
      × (b'.bindings ≡ b.bindings ++ pairs queue keys)
      × (b'.consumed ≡ queue ∷ b.consumed)
unfolding subscribe amqp call
subscribe_success queue keys b b' w w' h = ground (
  arith,
  bind_all_success queue keys (record b { queues = queue ∷ b.queues })
      (bind_all queue keys (record b { queues = queue ∷ b.queues })
        (record w { ticks = w.ticks + 1 })).1
      (record w { ticks = w.ticks + 1 })
      (bind_all queue keys (record b { queues = queue ∷ b.queues })
        (record w { ticks = w.ticks + 1 })).2,
)

abbrev pub all_acked : List Message → List Settled
all_acked [] = []
all_acked (_ ∷ ms) = acked ∷ all_acked ms

-- How the deliveries of some messages are settled by the notification service.
abbrev pub settled_with : Repository → List Message → List Settled
settled_with _ [] = []
settled_with nil_pointer (_ ∷ _) = panicked ∷ []
settled_with _ (m ∷ ms) = all_acked (m ∷ ms)

abbrev event_request : Message → SendRequest
event_request msg = record {
  driver_id = msg.payload.driver_id;
  channel = channel_push;
  template_id = event_to_template msg.event;
  values = event_data msg;
}

handle_event-ok :
    (repo : Repository) (p : Providers) (msg : Message) (w : World)
    → repo ≢ nil_pointer
    → (handle_event repo p msg w).0 ≡ ok tt
unfolding handle_event
handle_event-ok repo p msg w works =
    let (a, e) = send_notification-ok repo p (event_request msg) w works in ground (arith, e)

handle_event-panics :
    (p : Providers) (msg : Message) (w : World)
    → (handle_event nil_pointer p msg w).0 ≡ err nil_dereference
unfolding handle_event
handle_event-panics p msg w = ground (arith, send_notification-panics p (event_request msg) w)

consume-acks :
    (repo : Repository) (p : Providers) (ms : List Message) (w : World)
    → repo ≢ nil_pointer
    → (consume (handle_event repo p) (map some ms) w).0 ≡ all_acked ms
unfolding consume settle
consume-acks repo p [] w works = refl
consume-acks repo p (m ∷ ms) w works = ground (
  arith,
  handle_event-ok repo p m w works,
  consume-acks repo p ms (handle_event repo p m w).1 works,
)

-- The notification service acknowledges every message that json reads, whether its provider, the
-- table of notifications or any other call fails or not, if its handler has a repository over the
-- database or none: a message that could not be told to its driver is not kept. With the nil pointer
-- that its main gives to the handler where the database cannot be set up, the first message ends it
-- in a panic, unacknowledged.
pub notifications_acked :
    (repo : Repository) (p : Providers) (ms : List Message) (w : World)
    → (consume (handle_event repo p) (map some ms) w).0 ≡ settled_with repo ms
unfolding consume settle
notifications_acked repo p [] w = refl
notifications_acked stores p (m ∷ ms) w = consume-acks stores p (m ∷ ms) w (λ e. cc)
notifications_acked no_repository p (m ∷ ms) w = consume-acks no_repository p (m ∷ ms) w (λ e. cc)
notifications_acked nil_pointer p (m ∷ ms) w = ground (arith, handle_event-panics p m w)
