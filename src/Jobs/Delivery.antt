-- ===== src/Jobs/Delivery.antt =====
-- What becomes of an email job.
use ride_sharing_backend.Common.{
  ℕ, suc, ◌≤◌, ◌≡◌, refl, Bool, true, false, ◌||◌, Option, none, some, List, [], ◌∷◌, length, take,
  arith, if◌then◌else◌,
}
use ride_sharing_backend.Common.Table.{find, update, find-update}
use ride_sharing_backend.Jobs.Email.{
  Run, process, send_unless_done, send_email, mark_sent, mark_failed, write_notification,
  on_job_failed, run_job,
}
use ride_sharing_backend.Model.{Notification, NotificationStatus, EmailJob}
use ride_sharing_backend.Services.Notification.{with_sent, with_failed}
use ride_sharing_backend.Store.{Store, at_time}

-- The answers of the mail server to the runs of a job, each with its time.
abbrev pub runs_of : List (ℕ × Bool) → List (ℕ × Run)
runs_of [] = []
runs_of ((t, true) ∷ rest) = (t, Run.delivers) ∷ runs_of rest
runs_of ((t, false) ∷ rest) = (t, Run.refuses) ∷ runs_of rest

abbrev pub any_taken : List (ℕ × Bool) → Bool
any_taken [] = false
any_taken ((t, a) ∷ rest) = a || any_taken rest

abbrev pub status_of : ℕ → Store → Option NotificationStatus
status_of id s = elim (find id s.notifications) [ none ↦ none | some n ↦ some n.status ]

-- While the row is pending, a run that is taken sends and marks, ...
pub run_delivers :
    (max_stalled stalled made t : ℕ) (rs : List (ℕ × Run)) (job : EmailJob) (n : Notification)
    (s : Store)
    → find job.notification_id s.notifications ≡ some n
    → n.status ≡ NotificationStatus.pending
    → run_job max_stalled stalled made ((t, Run.delivers) ∷ rs) job s ≡ record s {
      now = t;
      emails_sent = job ∷ s.emails_sent;
      notifications = update job.notification_id (with_sent t) s.notifications;
    }
unfolding run_job process send_unless_done send_email mark_sent write_notification
run_delivers max_stalled stalled made t rs job n s f p = ground arith

-- ... one that is refused goes on with the next attempt, ...
pub run_refuses :
    (max_stalled stalled made t : ℕ) (rs : List (ℕ × Run)) (job : EmailJob) (n : Notification)
    (s : Store)
    → find job.notification_id s.notifications ≡ some n
    → n.status ≡ NotificationStatus.pending
    → made ≤ 1
    → run_job max_stalled stalled made ((t, Run.refuses) ∷ rs) job s
      ≡ run_job max_stalled stalled (suc made) rs job (at_time t s)
unfolding run_job process send_unless_done send_email on_job_failed
run_refuses max_stalled stalled made t rs job n s f p few = ground arith

-- ... and the last one that is refused marks the failure.
pub run_refuses_last :
    (max_stalled stalled t : ℕ) (rs : List (ℕ × Run)) (job : EmailJob) (n : Notification)
    (s : Store)
    → find job.notification_id s.notifications ≡ some n
    → n.status ≡ NotificationStatus.pending
    → run_job max_stalled stalled 2 ((t, Run.refuses) ∷ rs) job s
      ≡ record s { now = t; notifications = update job.notification_id with_failed s.notifications }
unfolding run_job process send_unless_done send_email on_job_failed mark_failed write_notification
run_refuses_last max_stalled stalled t rs job n s f p = ground arith

-- What is known of a job that is over, and whose mail was sent or not.
record Settled (sent : Bool) (job : EmailJob) (mails : List EmailJob) (t : Store) : Type 0 where
  status :
      status_of job.notification_id t
      ≡ some (if sent then NotificationStatus.sent else NotificationStatus.failed)
  sends : t.emails_sent ≡ (if sent then job ∷ mails else mails)

module _ (job : EmailJob) (n : Notification) where
  delivers-Settled :
      (max_stalled stalled made t : ℕ) (rs : List (ℕ × Run)) (s : Store)
      → find job.notification_id s.notifications ≡ some n
      → n.status ≡ NotificationStatus.pending
      → Settled true job s.emails_sent
          (run_job max_stalled stalled made ((t, Run.delivers) ∷ rs) job s)
  delivers-Settled max_stalled stalled made t rs s f p =
      let k = job.notification_id in
      rw (run_delivers max_stalled stalled made t rs job n s f p) (record {
        status = ground (arith, f, find-update k k (with_sent t) s.notifications);
        sends = refl;
      })

  refuses-Settled :
      (max_stalled stalled t : ℕ) (rs : List (ℕ × Run)) (s : Store)
      → find job.notification_id s.notifications ≡ some n
      → n.status ≡ NotificationStatus.pending
      → Settled false job s.emails_sent
          (run_job max_stalled stalled 2 ((t, Run.refuses) ∷ rs) job s)
  refuses-Settled max_stalled stalled t rs s f p =
      let k = job.notification_id in
      rw (run_refuses_last max_stalled stalled t rs job n s f p) (record {
        status = ground (arith, f, find-update k k with_failed s.notifications);
        sends = refl;
      })

  settles :
      (max_stalled : ℕ) (answers : List (ℕ × Bool)) (s : Store)
      → find job.notification_id s.notifications ≡ some n
      → n.status ≡ NotificationStatus.pending
      → 3 ≤ length answers
      → Settled
          (any_taken (take 3 answers))
          job
          s.emails_sent
          (run_job max_stalled 0 0 (runs_of answers) job s)
  settles max_stalled [] s f p h = absurd (omega arith)
  settles max_stalled ((t, true) ∷ rest) s f p h =
      delivers-Settled max_stalled 0 0 t (runs_of rest) s f p
  settles max_stalled ((t, false) ∷ []) s f p h = absurd (omega arith)
  settles max_stalled ((t, false) ∷ (u, true) ∷ rest) s f p h =
      rw
        (run_refuses max_stalled 0 0 t ((u, Run.delivers) ∷ runs_of rest) job n s f p (omega arith))
        (delivers-Settled max_stalled 0 1 u (runs_of rest) (at_time t s) f p)
  settles max_stalled ((t, false) ∷ (u, false) ∷ []) s f p h = absurd (omega arith)
  settles max_stalled ((t, false) ∷ (u, false) ∷ (v, true) ∷ rest) s f p h =
      rw
        (run_refuses max_stalled 0 0 t ((u, Run.refuses) ∷ (v, Run.delivers) ∷ runs_of rest) job n s
          f p (omega arith))
        (rw
          (run_refuses max_stalled 0 1 u ((v, Run.delivers) ∷ runs_of rest) job n (at_time t s) f p
            (omega arith))
          (delivers-Settled max_stalled 0 2 v (runs_of rest) (at_time u s) f p))
  settles max_stalled ((t, false) ∷ (u, false) ∷ (v, false) ∷ rest) s f p h =
      rw
        (run_refuses max_stalled 0 0 t ((u, Run.refuses) ∷ (v, Run.refuses) ∷ runs_of rest) job n s
          f p (omega arith))
        (rw
          (run_refuses max_stalled 0 1 u ((v, Run.refuses) ∷ runs_of rest) job n (at_time t s) f p
            (omega arith))
          (refuses-Settled max_stalled 0 v (runs_of rest) (at_time u s) f p))

-- Without a crash, an email job always comes to an end: if the mail server answers at least three times, the notification
-- that was pending is then sent or failed. It is sent, by exactly one mail, if one of the first three
-- answers takes it, else it is failed and no mail was sent.
pub run_job_settles :
    (max_stalled : ℕ) (job : EmailJob) (n : Notification) (answers : List (ℕ × Bool)) (s : Store)
    → find job.notification_id s.notifications ≡ some n
    → n.status ≡ NotificationStatus.pending
    → 3 ≤ length answers
    → let t = run_job max_stalled 0 0 (runs_of answers) job s in
      (status_of job.notification_id t
        ≡ some (
            if any_taken (take 3 answers)
            then NotificationStatus.sent
            else NotificationStatus.failed))
      × (t.emails_sent
          ≡ (if any_taken (take 3 answers) then job ∷ s.emails_sent else s.emails_sent))
run_job_settles max_stalled job n answers s f p h =
    let w = settles job n max_stalled answers s f p h in (w.status, w.sends)
