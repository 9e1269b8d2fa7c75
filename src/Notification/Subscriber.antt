-- ===== src/Notification/Subscriber.antt =====
-- services/notification/internal/subscriber/subscriber.go: the message that a driver gets for an
-- event of the reservation service.
use parkirpintar.Common.{String, ◌==◌, if◌then◌else◌}
use parkirpintar.World.{Message, M, pure, ◌>>=◌}
use parkirpintar.Common.Grpc.{Failure}
use parkirpintar.Reservation.Publisher.{
  reservation_confirmed_event, reservation_expired_event, reservation_cancelled_event,
  check_in_detected_event, check_out_completed_event,
}
use parkirpintar.Common.Decimal.{decimal}
use parkirpintar.Notification.Handler.{
  channel_push, Template, template_unspecified, reservation_confirmed, reservation_expired,
  reservation_cancelled, check_in_success, check_out_success, Data, Repository, Providers,
  send_notification,
}

unfoldable pub event_to_template : String → Template
event_to_template event =
    if event == reservation_confirmed_event
    then reservation_confirmed
    else if event == reservation_expired_event
    then reservation_expired
    else if event == reservation_cancelled_event
    then reservation_cancelled
    else if event == check_in_detected_event
    then check_in_success
    else if event == check_out_completed_event
    then check_out_success
    else template_unspecified

-- The data of a message; an int32 has at most 10 digits.
unfoldable pub event_data : Message → Data
unfolding decimal
event_data msg key =
    if key == "event"
    then msg.event
    else if key == "reservation_id"
    then msg.payload.reservation_id
    else if key == "spot"
    then decimal 10 msg.payload.spot_number
    else if key == "floor"
    then decimal 10 msg.payload.floor
    else ""

-- Handle of a message that json reads: an error of the sender is returned, an answer that says that
-- the sending failed is only logged.
unfoldable pub handle_event : Repository → Providers → Message → M Failure (Unit {0})
handle_event repo p msg = do
  _ ← send_notification repo p (record {
    driver_id = msg.payload.driver_id;
    channel = channel_push;
    template_id = event_to_template msg.event;
    values = event_data msg;
  })
  pure tt
