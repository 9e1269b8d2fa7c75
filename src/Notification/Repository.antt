-- ===== src/Notification/Repository.antt =====
-- services/notification/internal/repository/repository.go. The columns of notification_logs hold at
-- most 20 characters of a channel or a status and 50 of a template (migrations/), and an insertion
-- of a longer text is refused.
use Prim.Native.String.{len}
use parkirpintar.Common.{
  ℕ, zero, suc, Bool, true, false, ◌&&◌, List, [], ◌∷◌, none, some, String, ◌==◌, leb, ltb,
  if◌then◌else◌,
}
use parkirpintar.Table.{read_rows, where_, select}
use parkirpintar.World.{M, gets, pure, ◌>>=◌, ◌>>◌, guard, modify, call}
use parkirpintar.Notification.Domain.{NotificationLog}

abbrev pub notice_id : NotificationLog → String
notice_id l = l.id

abbrev pub fits : NotificationLog → Bool
fits l = leb (len l.channel) 20 && leb (len l.template_id) 50 && leb (len l.status) 20

unfoldable pub insert_notice : NotificationLog → M String (Unit {0})
insert_notice l = do
  _ ← call
  guard (fits l) "value too long for type character varying"
  taken ← gets (λ w. select notice_id l.id w.notices)
  guard (elim taken [ none ↦ true | some _ ↦ false ])
      "duplicate key value violates unique constraint"
  modify (λ w. record w { notices = l ∷ w.notices })

-- ORDER BY sent_at DESC
unfoldable pub insert_recent : NotificationLog → List NotificationLog → List NotificationLog
insert_recent l [] = l ∷ []
insert_recent l (k ∷ ks) =
    let rest = insert_recent l ks in if ltb l.sent_at k.sent_at then k ∷ rest else l ∷ k ∷ ks

unfoldable pub recent_first : List NotificationLog → List NotificationLog
unfolding insert_recent
recent_first [] = []
recent_first (l ∷ ls) = insert_recent l (recent_first ls)

-- LIMIT … OFFSET …
unfoldable pub page : ℕ → ℕ → List NotificationLog → List NotificationLog
page zero zero ls = []
page (suc limit) zero [] = []
page (suc limit) zero (l ∷ ls) = l ∷ page limit zero ls
page limit (suc offset) [] = []
page limit (suc offset) (l ∷ ls) = page limit offset ls

unfoldable pub count_notices : List NotificationLog → ℕ
count_notices [] = 0
count_notices (_ ∷ ls) = suc (count_notices ls)

abbrev limit_or_default : ℕ → ℕ
limit_or_default zero = 20
limit_or_default (suc n) = suc n

-- The notices of a page, whose reading may break off, and the number of all; negative limits and offsets are not modelled.
unfoldable pub get_by_driver_id : String → ℕ → ℕ → M String (List NotificationLog × ℕ)
unfolding recent_first page count_notices where_
get_by_driver_id driver limit offset = do
  _ ← call
  total ← gets (λ w. count_notices (where_ (λ l. l.driver_id == driver) w.notices))
  cut ← gets (λ w. w.env.cut w.ticks)
  _ ← call
  own ← gets (λ w. where_ (λ l. l.driver_id == driver) w.notices)
  pure (read_rows cut (page (limit_or_default limit) offset (recent_first own)), total)
