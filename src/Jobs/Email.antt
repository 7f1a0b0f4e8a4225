-- ===== src/Jobs/Email.antt =====
-- jobs/processors/email.processor.js, with the retries that jobs/queues.js sets.
use ride_sharing_backend.Common.{
  ℕ, suc, Bool, true, false, Option, none, some, List, [], ◌∷◌, leb, if◌then◌else◌,
}
use ride_sharing_backend.Common.Table.{find, update}
use ride_sharing_backend.Errors.{other, prisma, p2025}
use ride_sharing_backend.Model.{Notification, NotificationStatus, EmailJob}
use ride_sharing_backend.Services.Notification.{with_sent, with_failed}
use ride_sharing_backend.Store.{Store, Action, ok, err, at_time, when, ◌>>◌}

-- `transporter.sendMail`, and whether the server takes the mail.
unfoldable pub send_email : EmailJob → Bool → Action (Unit {0})
send_email job true s = (ok tt, record s { emails_sent = job ∷ s.emails_sent })
send_email job false s = (err (other "SMTP"), s)

-- `markSent` and `markFailed`: `update({ where: { id }, data })` on notifications.
unfoldable pub write_notification : ℕ → (Notification → Notification) → Action (Unit {0})
write_notification id f s = elim (find id s.notifications) [
  | none ↦ (err (prisma p2025 "" ""), s)
  | some _ ↦ (ok tt, record s { notifications = update id f s.notifications })
]

unfoldable pub mark_sent : ℕ → Action (Unit {0})
mark_sent id s = write_notification id (with_sent s.now) s

unfoldable pub mark_failed : ℕ → Action (Unit {0})
mark_failed id = write_notification id with_failed

-- `notification && notification.status !== "PENDING"`
abbrev pub is_pending_status : NotificationStatus → Bool
is_pending_status NotificationStatus.pending = true
is_pending_status _ = false

abbrev pub is_done : Option Notification → Bool
is_done none = false
is_done (some n) = if is_pending_status n.status then false else true

unfoldable pub send_unless_done : Bool → EmailJob → Bool → Action (Unit {0})
send_unless_done true job answers s = (ok tt, s)
send_unless_done false job answers s = (send_email job answers >> mark_sent job.notification_id) s

-- The processor.
unfoldable pub process : EmailJob → Bool → Action (Unit {0})
process job answers s =
    send_unless_done (is_done (find job.notification_id s.notifications)) job answers s

-- `defaultJobOptions.attempts`
abbrev pub max_attempts : ℕ
max_attempts = 3

-- The handler of `failed`, after so many attempts.
unfoldable pub on_job_failed : ℕ → EmailJob → Action (Unit {0})
on_job_failed attempts_made job =
    when (leb max_attempts attempts_made) (mark_failed job.notification_id)

-- One run of a job: the mail server takes the mail, it does not, or the worker dies between the
-- sending and the write of the row.
pub data Run : Type 0 where
  delivers refuses crashes : Run

unfoldable pub crash : EmailJob → Store → Store
crash job s = elim (is_done (find job.notification_id s.notifications)) [
  | true ↦ s
  | false ↦ (send_email job true s).1
]

-- The runs of a job, each at its time: it is over when the processor returns, or when its attempts
-- are used up. A crash is no attempt: the job is delivered again, up to `max_stalled` times (BullMQ's
-- `maxStalledCount`, which is 1 unless it is set), and has failed after that.
unfoldable pub run_job : ℕ → ℕ → ℕ → List (ℕ × Run) → EmailJob → Store → Store
run_job max_stalled stalled made [] job s = s
run_job max_stalled stalled made ((t, Run.crashes) ∷ rs) job s =
    let crashed = crash job (at_time t s) in
    let rest = run_job max_stalled (suc stalled) made rs job crashed in
    if leb (suc stalled) max_stalled then rest else (on_job_failed made job crashed).1
run_job max_stalled stalled made ((t, Run.delivers) ∷ rs) job s =
    let (r, s') = process job true (at_time t s) in
    let failed : Store = (on_job_failed (suc made) job s').1 in
    let rest = run_job max_stalled stalled (suc made) rs job failed in
    elim r [ ok _ ↦ s' | err _ ↦ if leb max_attempts (suc made) then failed else rest ]
run_job max_stalled stalled made ((t, Run.refuses) ∷ rs) job s =
    let (r, s') = process job false (at_time t s) in
    let failed : Store = (on_job_failed (suc made) job s').1 in
    let rest = run_job max_stalled stalled (suc made) rs job failed in
    elim r [ ok _ ↦ s' | err _ ↦ if leb max_attempts (suc made) then failed else rest ]
