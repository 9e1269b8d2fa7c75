-- ===== src/Notification/Delivery.antt =====
-- What the notification service records and answers.
use Prim.Native.String.{len}
use parkirpintar.Common.{
  ap, ◌∙◌, zero, suc, ℕ, ◌≡◌, ◌≢◌, refl, ◌+◌, List, [], ◌∷◌, Option, none, false, String, arith,
  eq_iff, leb, ◌&&◌,
}
use parkirpintar.Table.{read_rows_nil, where_}
use parkirpintar.Common.Int.{ℤ}
use parkirpintar.Common.Grpc.{nil_dereference}
use parkirpintar.World.{World, next_tick, Message, ok, err, now, new_uuid, call}
use parkirpintar.Notification.Domain.{NotificationLog}
use parkirpintar.Notification.Repository.{
  fits, insert_notice, recent_first, page, count_notices, get_by_driver_id,
}
use parkirpintar.Notification.Handler.{
  Repository, stores, no_repository, nil_pointer, persist, query_history, channel_number,
  send_response, Channel, channel_unspecified, channel_push, channel_email, channel_both, Template,
  reservation_cancelled, check_out_success, channel_text, template_text, Data, template_content,
  Providers, send_by, dispatch, SendRequest, SendResponse, log_entry, send_notification, send_all,
  count_drivers, broadcast_notification, get_notification_history,
}
use parkirpintar.Notification.Subscriber.{event_data}

-- A channel of notification.proto.
abbrev pub IsNamed : Channel → Type 0
IsNamed c = (n : ℤ) → c ≢ channel_number n

-- No entry for such a channel fits the table: its text is longer than its column.
log_entry-too_long :
    (id : String) (req : SendRequest) (content : String × String) (error : Option String) (at : ℕ)
    → IsNamed req.channel
    → fits (log_entry id req content error at) ≡ false
unfolding log_entry channel_text
log_entry-too_long id req content error at named = too_long req.channel named
  where
    too_long :
        (c : Channel)
        → IsNamed c
        → leb (len (channel_text c)) 20
            && leb (len (template_text req.template_id)) 50
            && leb (len (log_entry id req content error at).status) 20
          ≡ false
    too_long channel_unspecified named = refl
    too_long channel_push named = refl
    too_long channel_email named = refl
    too_long channel_both named = refl
    too_long (channel_number n) named = absurd (named n refl)

insert_notice-refused :
    (l : NotificationLog) (w : World) → fits l ≡ false → ((insert_notice l w).1.notices ≡ w.notices)
unfolding insert_notice call
insert_notice-refused l w long = ground arith

dispatch-keeps :
    (p : Providers) (c : Channel) (driver title body : String) (w : World)
    → ((dispatch p c driver title body w).1.notices ≡ w.notices)
unfolding dispatch send_by
dispatch-keeps p channel_unspecified driver title body w = refl
dispatch-keeps p (channel_number _) driver title body w = refl
dispatch-keeps p channel_push driver title body w = refl
dispatch-keeps p channel_email driver title body w = refl
dispatch-keeps p channel_both driver title body w = refl

dispatch-ok :
    (p : Providers) (c : Channel) (driver title body : String) (w : World)
    → (error : Option String) × ((dispatch p c driver title body w).0 ≡ ok error)
unfolding dispatch send_by
dispatch-ok p channel_unspecified driver title body w = (none, refl)
dispatch-ok p (channel_number _) driver title body w = (none, refl)
dispatch-ok p channel_push driver title body w = (p.push w.env w.ticks driver title body, refl)
dispatch-ok p channel_email driver title body w = (p.email w.env w.ticks driver title body, refl)
dispatch-ok p channel_both driver title body w =
    (p.email w.env (w.ticks + 1) driver title body, refl)

-- A notification by a named channel that is sent, or fails, leaves no entry in the log.
pub send_notification-notices :
    (repo : Repository) (p : Providers) (req : SendRequest) (w : World)
    → IsNamed req.channel
    → (send_notification repo p req w).1.notices ≡ w.notices
unfolding send_notification persist now new_uuid
send_notification-notices stores p req w named =
    grind (arith, insert_notice-refused, log_entry-too_long, dispatch-keeps, dispatch-ok)
send_notification-notices no_repository p req w named = grind (arith, dispatch-keeps, dispatch-ok)
send_notification-notices nil_pointer p req w named = grind (arith, dispatch-keeps, dispatch-ok)

-- A notification is answered without an error, unless the repository is the nil pointer.
pub send_notification-ok :
    (repo : Repository) (p : Providers) (req : SendRequest) (w : World)
    → repo ≢ nil_pointer
    → (a : SendResponse) × ((send_notification repo p req w).0 ≡ ok a)
unfolding send_notification persist now new_uuid
send_notification-ok nil_pointer p req w works = absurd (works refl)
send_notification-ok stores p req w works =
    let content = template_content req.template_id req.values in
    let (error, e) = dispatch-ok p req.channel req.driver_id content.0 content.1 (next_tick w) in
    (send_response (w.env.uuid w.ticks) error, ground (arith, e))
send_notification-ok no_repository p req w works =
    let content = template_content req.template_id req.values in
    let (error, e) = dispatch-ok p req.channel req.driver_id content.0 content.1 (next_tick w) in
    (send_response (w.env.uuid w.ticks) error, ground (arith, e))

pub send_notification-panics :
    (p : Providers) (req : SendRequest) (w : World)
    → (send_notification nil_pointer p req w).0 ≡ err nil_dereference
unfolding send_notification persist now new_uuid
send_notification-panics p req w =
    let content = template_content req.template_id req.values in
    let (error, e) = dispatch-ok p req.channel req.driver_id content.0 content.1 (next_tick w) in
    ground (arith, e)

send_all-none :
    (repo : Repository) (p : Providers) (c : Channel) (t : Template) (values : Data)
    (ds : List String) (w : World)
    → repo ≢ nil_pointer
    → (send_all repo p c t values ds w).0 ≡ ok []
unfolding send_all
send_all-none repo p c t values [] w works = refl
send_all-none repo p c t values (d ∷ ds) w works =
    let req : SendRequest = record {
      driver_id = d;
      channel = c;
      template_id = t;
      values = values;
    } in
    let (a, e) = send_notification-ok repo p req w works in
    ground (arith, e, send_all-none repo p c t values ds (send_notification repo p req w).1 works)

-- A broadcast that does not panic counts every driver as reached and none as failed, whatever the
-- providers answer.
pub broadcast_notification-counts :
    (repo : Repository) (p : Providers) (c : Channel) (t : Template) (values : Data)
    (ds : List String) (w : World)
    → repo ≢ nil_pointer
    → (broadcast_notification repo p c t values ds w).0
      ≡ ok (record { total_sent = count_drivers ds; total_failed = 0; failed_driver_ids = [] })
unfolding broadcast_notification count_drivers
broadcast_notification-counts repo p c t values ds w works =
    ground (arith, send_all-none repo p c t values ds w works)

-- A message about a cancellation or a check-out has no amount, since the event carries none.
pub template_content-amount :
    (msg : Message)
    → ((template_content reservation_cancelled (event_data msg)).1
        ≡ "Reservasi dibatalkan. Biaya: Rp ")
      × ((template_content check_out_success (event_data msg)).1
          ≡ "Sesi parkir selesai. Total: Rp ")
unfolding template_content event_data
template_content-amount msg = (refl, refl)

abbrev pub send_each : Repository → Providers → List SendRequest → World → World
send_each repo p [] w = w
send_each repo p (q ∷ qs) w = send_each repo p qs (send_notification repo p q w).1

abbrev pub AllNamed : List SendRequest → Type 0
AllNamed [] = Unit {0}
AllNamed (q ∷ qs) = IsNamed q.channel × AllNamed qs

send_each-notices :
    (repo : Repository) (p : Providers) (qs : List SendRequest) (w : World)
    → AllNamed qs
    → (send_each repo p qs w).notices ≡ w.notices
send_each-notices repo p [] w named = refl
send_each-notices repo p (q ∷ qs) w named =
    send_each-notices repo p qs (send_notification repo p q w).1 named.1
    ∙ send_notification-notices repo p q w named.0

empty_history :
    (driver : String) (limit offset : ℕ) (v : World)
    → driver ≢ ""
    → v.notices ≡ []
    → v.env.fault v.ticks ≡ none
    → v.env.fault (v.ticks + 1) ≡ none
    → (get_notification_history stores driver limit offset v).0 ≡ ok ([], 0)
unfolding get_notification_history query_history get_by_driver_id recent_first page count_notices
    where_ call
empty_history driver zero zero v named empty up up' =
    ground (arith, eq_iff driver "", read_rows_nil {A = NotificationLog} (v.env.cut (v.ticks + 1)))
empty_history driver zero (suc offset) v named empty up up' =
    ground (arith, eq_iff driver "", read_rows_nil {A = NotificationLog} (v.env.cut (v.ticks + 1)))
empty_history driver (suc limit) zero v named empty up up' =
    ground (arith, eq_iff driver "", read_rows_nil {A = NotificationLog} (v.env.cut (v.ticks + 1)))
empty_history driver (suc limit) (suc offset) v named empty up up' =
    ground (arith, eq_iff driver "", read_rows_nil {A = NotificationLog} (v.env.cut (v.ticks + 1)))

-- Whatever notifications were sent, by channels of notification.proto, since the log was empty, the
-- history of any driver that is named is answered empty, where the handler has its repository and the
-- database answers.
pub get_notification_history-empty :
    (repo : Repository) (p : Providers) (qs : List SendRequest) (driver : String) (limit offset : ℕ)
    (w v : World)
    → w.notices ≡ []
    → driver ≢ ""
    → AllNamed qs
    → v ≡ send_each repo p qs w
    → v.env.fault v.ticks ≡ none
    → v.env.fault (v.ticks + 1) ≡ none
    → (get_notification_history stores driver limit offset v).0 ≡ ok ([], 0)
get_notification_history-empty repo p qs driver limit offset w v empty named known sent up up' =
    empty_history driver limit offset v named
      (ap (λ (x : World). x.notices) sent ∙ send_each-notices repo p qs w known ∙ empty) up up'
