-- ===== src/Services/Notification.antt =====
-- services/notification.service.js.
use ride_sharing_backend.Common.{
  Bool, Option, ◌&&◌, true, false, ℕ, String, true, false, not, none, some, ◌∷◌, ◌==◌,
}
use ride_sharing_backend.Common.Table.{Table, find, find_many, count, update}
use ride_sharing_backend.Errors.{bad_request, not_found, other, prisma, p2002, api}
use ride_sharing_backend.Model.{Notification, NotificationChannel, NotificationStatus, EmailJob}
use ride_sharing_backend.Services.Ride.Views.{page_of, Pagination, pagination_meta}
use ride_sharing_backend.Store.{
  Payload, Action, ok, err, modify, throw, gets, or_throw, throw_if, ◌>>=◌, ◌>>◌,
}

unfoldable pub create_notification : ℕ → Notification → Action (Unit {0})
create_notification id row s = elim (find id s.notifications) [
  | some _ ↦ (err (prisma p2002 "id" ""), s)
  | none ↦ (ok tt, record s { notifications = (id, row) ∷ s.notifications })
]

-- `markSent`, `markFailed` and `markRead`.
abbrev pub with_sent : ℕ → Notification → Notification
with_sent now n = record n { status = NotificationStatus.sent; sent_at = some now }

abbrev pub with_failed : Notification → Notification
with_failed n = record n { status = NotificationStatus.failed }

abbrev pub with_read : Notification → Notification
with_read n = record n { is_read = true }

abbrev pub mark_notification : ℕ → (ℕ → Notification → Notification) → Action (Unit {0})
mark_notification id f =
    modify (λ s. record s { notifications = update id (f s.now) s.notifications })

-- `emailQueue.add`: the queue lives in Redis.
unfoldable pub enqueue_email : EmailJob → Action (Unit {0})
enqueue_email job s = elim s.redis.is_up [
  | true ↦ (ok tt, record s { email_jobs = job ∷ s.email_jobs })
  | false ↦ (err (other "Redis is unreachable"), s)
]

-- What a channel does with the notification's row.
unfoldable pub deliver : NotificationChannel → ℕ → ℕ → String → String → Action (Unit {0})
deliver NotificationChannel.email id user_id email title =
    enqueue_email (record { notification_id = id; to = email; subject = title })
deliver NotificationChannel.socket id user_id email title =
    (modify (λ s. record s {
      emitted = record { to = user_id; payload = Payload.notification title } ∷ s.emitted;
    })
      >> mark_notification id with_sent)
deliver NotificationChannel.push id user_id email title = mark_notification id (λ _. with_failed)
deliver NotificationChannel.sms id user_id email title =
    throw (api (bad_request "Unsupported notification channel: SMS"))

-- The new row's id is an argument.
unfoldable pub notify : ℕ → ℕ → String → NotificationChannel → String → Action (Unit {0})
notify id user_id email channel title = do
  create_notification id (record {
    user_id = user_id;
    channel = channel;
    title = title;
    status = NotificationStatus.pending;
    is_read = false;
    sent_at = none;
  })
  deliver channel id user_id email title

unfoldable pub mark_notification_read : ℕ → ℕ → Action Notification
mark_notification_read user_id id = do
  found ← gets (λ s. find id s.notifications)
  n ← or_throw (not_found "Notification not found") found
  throw_if (not (n.user_id == user_id)) (not_found "Notification not found")
  mark_notification id (λ _. with_read)
  updated ← gets (λ s. find id s.notifications)
  or_throw (not_found "Record not found") updated

abbrev is_listed : ℕ → Option Bool → ℕ → Notification → Bool
is_listed user_id none _ n = n.user_id == user_id
is_listed user_id (some true) _ n = (n.user_id == user_id) && n.is_read
is_listed user_id (some false) _ n = (n.user_id == user_id) && not n.is_read

unfoldable pub list_my_notifications :
    ℕ → ℕ → ℕ → Option Bool → Action (Table Notification × Pagination)
list_my_notifications user_id page limit is_read = gets (λ s. (
  page_of page limit (find_many (is_listed user_id is_read) s.notifications),
  pagination_meta page limit (count (is_listed user_id is_read) s.notifications),
))
