-- ===== src/Jobs/Total.antt =====
-- Operations of rootfs/usr/lib/rougarou/jobs.py that cannot raise from a valid queue.
use rougarou_os.Base.{
  ℕ, ◌+◌, String, ◌≡◌, refl, false, Option, none, some, List, [], ◌∷◌, ℤ, find, arith, ok, All,
  All-map, select-Selected, find-mem, select,
}
use rougarou_os.Jobs.Schema.{State, Message, is_running, interrupted, worker_vanished, Job, Db}
use rougarou_os.Jobs.Store.{transaction, job_key, get_job, update_job, event}
use rougarou_os.Jobs.Ops.{finish, finish_vanished, recover}
use rougarou_os.Jobs.Refine.{finish-Steps}
use rougarou_os.Jobs.Life.{Steps-Survives}
use rougarou_os.Jobs.Valid.{IsValid}

module _ (id : String) (state : State) (why : Option Message) (code : Option ℤ)
    (clock : ℕ → ℕ) where
  pub finish_total :
      (s : Db) (row : Job)
      → s.in_transaction ≡ false
      → find job_key id s.jobs ≡ some row
      → ((finish id state why code clock s).0 ≡ ok tt)
        × ((finish id state why code clock s).1.in_transaction ≡ false)
  unfolding finish transaction get_job update_job event
  finish_total s row idle found = ground arith

-- The rows that recovery goes through are in the queue, and stay there.
abbrev pub Known : Db → Job → Type 0
Known s r = (j : Job) × (find job_key r.id s.jobs ≡ some j)

pub Known-finish :
    (id : String) (clock : ℕ → ℕ) (rows : List Job) (s : Db)
    → All (Known s) rows
    → All (Known (finish id interrupted (some worker_vanished) none clock s).1) rows
Known-finish id clock rows s h =
    All-map (Known s) _ rows
      (λ r (j, f).
        let (k, g, _) =
          Steps-Survives r.id j
            (finish-Steps id clock interrupted (some worker_vanished) none s refl) f in
        (k, g))
      h

pub running-Known : (s : Db) → IsValid s → All (Known s) (select (λ j. is_running j.state) s.jobs)
running-Known s v =
    All-map _ _ _ (λ r (m, p). (r, find-mem job_key s.jobs v.keyed m))
      (select-Selected (λ j. is_running j.state) s.jobs)

pub finish_vanished_total :
    (clock : ℕ → ℕ) (rows : List Job) (s : Db)
    → s.in_transaction ≡ false
    → All (Known s) rows
    → (finish_vanished clock rows s).0 ≡ ok tt
unfolding finish_vanished
finish_vanished_total clock [] s idle h = refl
finish_vanished_total clock (row ∷ rows) s idle h =
    let first = finish row.id interrupted (some worker_vanished) none clock in
    let (done, closed) =
      finish_total row.id interrupted (some worker_vanished) none clock s h.0.0 idle h.0.1 in
    rw done (
      finish_vanished_total (λ i. clock (i + 2)) rows (first s).1 closed
        (Known-finish row.id clock rows s h.1))

-- Recovery after a crash never fails: every job that was running is still in the queue.
pub recover_total :
    (clock : ℕ → ℕ) (s : Db) → s.in_transaction ≡ false → IsValid s → (recover clock s).0 ≡ ok tt
unfolding recover
recover_total clock s idle v = finish_vanished_total clock _ s idle (running-Known s v)
