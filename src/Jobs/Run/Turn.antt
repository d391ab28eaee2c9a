-- ===== src/Jobs/Run/Turn.antt =====
-- One round of the loop of `execute` in rootfs/usr/lib/rougarou/jobs.py, case by case.
use rougarou_os.Base.{
  ℕ, ◌≡◌, refl, Bool, true, false, Option, none, some, List, ◌∷◌, inl, inr, Bool-cases,
  Option-cases, find,
}
use rougarou_os.Jobs.Schema.{Job, Db}
use rougarou_os.Jobs.Store.{job_key}
use rougarou_os.Jobs.Operation.{Operation, perform_all}
use rougarou_os.Jobs.Run.{Watch, Sight, look, Round, seen, beat, Report, broken, ended, run_rounds}

module _ (limit pid : ℕ) (job : Job) (deadline : ℕ) (before : List Operation) (o : Sight)
    (rounds : List Round) (w : Watch) (s : Db) where
  -- The queue when the round looks at it, and the watch afterwards.
  abbrev pub seen_queue : Db
  seen_queue = beat pid o w (perform_all before s)

  abbrev pub looked : Job → Watch × Bool
  looked row = look limit job deadline row.cancel_requested o w

  pub data Turn (x : Option Report × Db) : Type 0 where
    lost :
        find job_key job.id seen_queue.jobs ≡ none
        → x ≡ (some (broken "OperatorError" o.wait_code w), seen_queue)
        → Turn x
    over :
        (row : Job)
        → find job_key job.id seen_queue.jobs ≡ some row
        → (looked row).1 ≡ true
        → x ≡ (some (ended o.code (looked row).0), seen_queue)
        → Turn x
    more :
        (row : Job)
        → find job_key job.id seen_queue.jobs ≡ some row
        → (looked row).1 ≡ false
        → x ≡ run_rounds limit pid job deadline rounds (looked row).0 seen_queue
        → Turn x

  pub run_rounds-Turn : Turn (run_rounds limit pid job deadline (seen before o ∷ rounds) w s)
  unfolding run_rounds
  run_rounds-Turn = elim (Option-cases (find job_key job.id seen_queue.jobs)) [
    | inl f ↦ lost f (rw (f, run_rounds) refl)
    | inr (row, f) ↦ elim (Bool-cases (looked row).1) [
      | inl d ↦ over row f d (rw (f, run_rounds) (rw (d, run_rounds) refl))
      | inr d ↦ more row f d (rw (f, run_rounds) (rw (d, run_rounds) refl))
    ]
  ]
