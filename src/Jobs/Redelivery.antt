-- ===== src/Jobs/Redelivery.antt =====
-- What the crashes of its worker do to an email job.
use ride_sharing_backend.Common.{
  ℕ, suc, ◌+◌, ◌≤◌, ◌≡◌, refl, ap, true, inl, inr, none, some, List, [], ◌∷◌, ◌++◌, length, arith,
  Bool-cases, Option-cases, leb,
}
use ride_sharing_backend.Common.Table.{find, find-update}
use ride_sharing_backend.Jobs.Delivery.{run_delivers, run_refuses, status_of}
use ride_sharing_backend.Jobs.Email.{
  Run, process, send_unless_done, send_email, on_job_failed, mark_failed, write_notification, crash,
  run_job, is_done,
}
use ride_sharing_backend.Model.{Notification, NotificationStatus, EmailJob}
use ride_sharing_backend.Services.Notification.{with_sent}
use ride_sharing_backend.Store.{Store, at_time}

-- Crashes at given times.
abbrev pub crashes_at : List ℕ → List (ℕ × Run)
crashes_at [] = []
crashes_at (t ∷ ts) = (t, Run.crashes) ∷ crashes_at ts

-- The handler of a failure sends nothing.
on_job_failed-emails :
    (made : ℕ) (job : EmailJob) (s : Store)
    → (on_job_failed made job s).1.emails_sent ≡ s.emails_sent
unfolding on_job_failed mark_failed write_notification
on_job_failed-emails made job s = elim (Bool-cases (leb 3 made)) [
  | inl e ↦ ground (arith, Option-cases (find job.notification_id s.notifications))
  | inr e ↦ ground arith
]

-- A job whose notification is no longer pending sends nothing more.
quiet :
    (max_stalled stalled made : ℕ) (rs : List (ℕ × Run)) (job : EmailJob) (n : Notification)
    (s : Store)
    → find job.notification_id s.notifications ≡ some n
    → is_done (some n) ≡ true
    → (run_job max_stalled stalled made rs job s).emails_sent ≡ s.emails_sent
unfolding run_job process send_unless_done crash
quiet max_stalled stalled made [] job n s f d = refl
quiet max_stalled stalled made ((t, Run.crashes) ∷ rs) job n s f d = ground (
  arith,
  quiet max_stalled (suc stalled) made rs job n (at_time t s) f d,
  on_job_failed-emails made job (at_time t s),
)
quiet max_stalled stalled made ((t, Run.delivers) ∷ rs) job n s f d = ground arith
quiet max_stalled stalled made ((t, Run.refuses) ∷ rs) job n s f d = ground arith

abbrev mailed : ℕ → EmailJob → Store → Store
mailed t job s = record s { now = t; emails_sent = job ∷ s.emails_sent }

-- While the row is pending, a crash leaves one more mail; the job is then delivered again, or has failed.
crash_redelivers :
    (max_stalled stalled made t : ℕ) (rs : List (ℕ × Run)) (job : EmailJob) (n : Notification)
    (s : Store)
    → find job.notification_id s.notifications ≡ some n
    → n.status ≡ NotificationStatus.pending
    → suc stalled ≤ max_stalled
    → run_job max_stalled stalled made ((t, Run.crashes) ∷ rs) job s
      ≡ run_job max_stalled (suc stalled) made rs job (mailed t job s)
unfolding run_job crash send_email
crash_redelivers max_stalled stalled made t rs job n s f p few = ground arith

crash_fails :
    (max_stalled stalled made t : ℕ) (rs : List (ℕ × Run)) (job : EmailJob) (n : Notification)
    (s : Store)
    → find job.notification_id s.notifications ≡ some n
    → n.status ≡ NotificationStatus.pending
    → max_stalled ≤ stalled
    → run_job max_stalled stalled made ((t, Run.crashes) ∷ rs) job s
      ≡ (on_job_failed made job (mailed t job s)).1
unfolding run_job crash send_email
crash_fails max_stalled stalled made t rs job n s f p many = ground arith

refuses_over :
    (max_stalled stalled made t : ℕ) (rs : List (ℕ × Run)) (job : EmailJob) (n : Notification)
    (s : Store)
    → find job.notification_id s.notifications ≡ some n
    → n.status ≡ NotificationStatus.pending
    → 2 ≤ made
    → (run_job max_stalled stalled made ((t, Run.refuses) ∷ rs) job s).emails_sent ≡ s.emails_sent
unfolding run_job process send_unless_done send_email
refuses_over max_stalled stalled made t rs job n s f p many =
    ground (arith, on_job_failed-emails (suc made) job (at_time t s))

-- Each redelivery that is left may send a mail, and one run more.
run_job-bounded :
    (max_stalled stalled made : ℕ) (rs : List (ℕ × Run)) (job : EmailJob) (n : Notification)
    (s : Store)
    → find job.notification_id s.notifications ≡ some n
    → n.status ≡ NotificationStatus.pending
    → stalled ≤ max_stalled
    → length (run_job max_stalled stalled made rs job s).emails_sent + stalled
      ≤ max_stalled + 1 + length s.emails_sent
unfolding run_job
run_job-bounded max_stalled stalled made [] job n s f p le = omega arith
run_job-bounded max_stalled stalled made ((t, Run.crashes) ∷ rs) job n s f p le =
    elim (Bool-cases (leb (suc stalled) max_stalled)) [
      | inl e ↦
          let few : suc stalled ≤ max_stalled = ground (arith, e) in
          let ih =
            run_job-bounded max_stalled (suc stalled) made rs job n (mailed t job s) f p few in
          rw (crash_redelivers max_stalled stalled made t rs job n s f p few) (omega (arith, ih))
      | inr e ↦
          rw
            (
              crash_fails max_stalled stalled made t rs job n s f p (ground (arith, e)),
              on_job_failed-emails made job (mailed t job s),
            )
            (omega arith)
    ]
run_job-bounded max_stalled stalled made ((t, Run.delivers) ∷ rs) job n s f p le =
    rw (run_delivers max_stalled stalled made t rs job n s f p) (omega arith)
run_job-bounded max_stalled stalled made ((t, Run.refuses) ∷ rs) job n s f p le =
    elim (Bool-cases (leb 2 made)) [
      | inl e ↦
          rw (refuses_over max_stalled stalled made t rs job n s f p (ground (arith, e)))
            (omega arith)
      | inr e ↦
          let ih = run_job-bounded max_stalled stalled (suc made) rs job n (at_time t s) f p le in
          rw (run_refuses max_stalled stalled made t rs job n s f p (ground (arith, e)))
            (omega (arith, ih))
    ]

-- Crashes that are all redelivered, and then a delivery: the mails, and the row.
redelivered :
    (max_stalled stalled : ℕ) (times : List ℕ) (last : ℕ) (job : EmailJob) (n : Notification)
    (s : Store)
    → find job.notification_id s.notifications ≡ some n
    → n.status ≡ NotificationStatus.pending
    → stalled + length times ≤ max_stalled
    → let t = run_job max_stalled stalled 0 (crashes_at times ++ (last, Run.delivers) ∷ []) job s in
      (length t.emails_sent ≡ length times + 1 + length s.emails_sent)
      × (find job.notification_id t.notifications ≡ some (with_sent last n))
redelivered max_stalled stalled [] last job n s f p le =
    rw (run_delivers max_stalled stalled 0 last [] job n s f p) (
      omega arith,
      ground (
        arith,
        f,
        find-update job.notification_id job.notification_id (with_sent last) s.notifications,
      ),
    )
redelivered max_stalled stalled (t ∷ times) last job n s f p le =
    let (mails, row) =
      redelivered max_stalled (suc stalled) times last job n (mailed t job s) f p (omega arith) in
    rw
      (crash_redelivers max_stalled stalled 0 t (crashes_at times ++ (last, Run.delivers) ∷ []) job
        n s f p (omega arith))
      (omega (arith, mails), row)

-- A worker that crashes between the sending of a mail and the write of the pending row makes the job send again, as
-- often as the queue redelivers a stalled job and no oftener: whatever its runs, a job sends at most one mail
-- more than it may be redelivered. If it crashes at given times, at most as many as that, and is then delivered,
-- there is a mail for each crash and one for the delivery, the row is marked as sent, and no later run of the job
-- sends another.
pub run_job_redelivered :
    (max_stalled : ℕ) (job : EmailJob) (n : Notification) (runs : List (ℕ × Run)) (times : List ℕ)
    (last stalled made : ℕ) (again : List (ℕ × Run)) (s : Store)
    → find job.notification_id s.notifications ≡ some n
    → n.status ≡ NotificationStatus.pending
    → length times ≤ max_stalled
    → let t = run_job max_stalled 0 0 (crashes_at times ++ (last, Run.delivers) ∷ []) job s in
      (length (run_job max_stalled 0 0 runs job s).emails_sent
        ≤ max_stalled + 1 + length s.emails_sent)
      × (length t.emails_sent ≡ length times + 1 + length s.emails_sent)
      × (status_of job.notification_id t ≡ some NotificationStatus.sent)
      × ((run_job max_stalled stalled made again job t).emails_sent ≡ t.emails_sent)
run_job_redelivered max_stalled job n runs times last stalled made again s f p few =
    let (mails, row) = redelivered max_stalled 0 times last job n s f p (omega arith) in
    (
      omega (arith, run_job-bounded max_stalled 0 0 runs job n s f p (omega arith)),
      mails,
      ap (λ o. elim o [ none ↦ none | some m ↦ some m.status ]) row,
      quiet max_stalled stalled made again job (with_sent last n) _ row refl,
    )
