-- ===== src/Billing/Subscriber.antt =====
-- services/billing/internal/subscriber/subscriber.go, with the part of Subscribe in pkg/mq/mq.go
-- that hands it a delivery: what the handler answers decides between ack and nack.
use parkirpintar.Common.{◌-◌, Bool, true, false, String, ◌==◌, if◌then◌else◌}
use parkirpintar.Common.Time.{hour}
use parkirpintar.World.{World, ok, err, Message, M, pure, ◌>>=◌, new_uuid}
use parkirpintar.Billing.Usecase.{generate_invoice}

-- HandleCheckOut for an event with a session.
unfoldable pub bill_check_out : Message → M String (Unit {0})
bill_check_out msg = do
  let check_out = msg.timestamp
  let check_in = check_out - hour
  key ← new_uuid
  _ ←
      generate_invoice msg.payload.session_id msg.payload.reservation_id msg.payload.driver_id key
        check_in check_out
  pure tt

unfoldable pub handle_check_out : Message → M String (Unit {0})
handle_check_out msg w = if msg.payload.session_id == "" then (ok tt, w) else bill_check_out msg w

-- Whether the delivery is acknowledged; a message that is not is dropped, not queued again.
unfoldable pub deliver : Message → World → Bool × World
deliver msg w = let (r, w') = handle_check_out msg w in (elim r [ ok _ ↦ true | err _ ↦ false ], w')
