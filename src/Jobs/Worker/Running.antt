-- ===== src/Jobs/Worker/Running.antt =====
-- Which jobs of rootfs/usr/lib/rougarou/jobs.py are running, through everything that does not start
-- one.
use rougarou_os.Base.{
  ℕ, ◌+◌, String, ◌≡◌, refl, Bool, true, false, not, Option, none, some, List, [], ◌∷◌, find, All,
  All-append, All-update, Result, ok, err, inl, inr, Bool-cases, Option-cases, Post, Triple,
  Triple-bind, Triple-if, pure, require, modify, ◌>>=◌, ◌>>◌, in_range, continue, map,
}
use rougarou_os.Jobs.Schema.{
  Job, Mark, Message, Db, OperatorError, is_running, is_queued, is_terminal, needs_attention,
  workspace_missing, workspace_not_directory, bad_limits, Acknowledgment, already, not_reviewable,
  WorkerState,
}
use rougarou_os.Jobs.Store.{
  Op, job_key, transaction, commit_or_rollback, nested, insert_job, update_job, event, or_raise,
  get_job,
}
use rougarou_os.Jobs.Ops.{
  Paths, Request, submit, insert_block, cancel, acknowledge, acknowledge_block, acknowledge_rows,
  check_reviewable, put_acknowledgment, unreviewed_rows, heartbeat,
}
use rougarou_os.Jobs.Life.{put_acknowledgment-jobs}
use rougarou_os.Jobs.Operation.{
  Operation, submitting, finishing, cancelling, acknowledging, recovering, claiming, beating,
  perform, perform_all,
}

-- The running jobs are among those that `P` allows.
abbrev pub RunningIn : (String → Type 0) → Db → Type 0
RunningIn P s = All (λ j. is_running j.state ≡ true → P j.id) s.jobs

module _ (P : String → Type 0) where
  abbrev pub Stays : {A : Type 0} → Op A → Type 0
  Stays m = Triple (RunningIn P) m (λ _. RunningIn P) (RunningIn P)

  bind-Stays :
      {A B : Type 0} (m : Op A) (f : A → Op B) → Stays m → ((a : A) → Stays (f a)) → Stays (m >>= f)
  bind-Stays m f h g = Triple-bind (RunningIn P) (λ _. RunningIn P) (λ _. RunningIn P) m f h g

  or_raise-Stays : {A : Type 0} (e : OperatorError) (o : Option A) → Stays (or_raise e o)
  or_raise-Stays e none s h = h
  or_raise-Stays e (some a) s h = h

  require-Stays : (b : Bool) (e : OperatorError) → Stays (require b e)
  require-Stays true e s h = h
  require-Stays false e s h = h

  event-Stays : (id : String) (m : Mark) (d : Option Message) (at : ℕ) → Stays (event id m d at)
  unfolding event
  event-Stays id m d at s h = h

  commit-Stays :
      {A : Type 0} (s : Db) (x : Result OperatorError A × Db)
      → RunningIn P s
      → Post (λ _. RunningIn P) (RunningIn P) x
      → Post (λ _. RunningIn P) (RunningIn P) (commit_or_rollback s x)
  commit-Stays s (ok a, t) h k = k
  commit-Stays s (err e, t) h k = h

  transaction-Stays : {A : Type 0} (block : Op A) → Stays block → Stays (transaction block)
  unfolding transaction
  transaction-Stays block keeps s h = elim (Bool-cases s.in_transaction) [
    | inl e ↦ simp e h
    | inr e ↦ simp e (commit-Stays s (block (record s { in_transaction = true })) h (keeps _ h))
  ]

  nested-Stays : {A : Type 0} (block : Op A) → Stays block → Stays (nested block)
  unfolding nested
  nested-Stays block keeps s h = elim (Bool-cases s.in_transaction) [
    | inl e ↦ simp e (keeps s h)
    | inr e ↦ simp e (commit-Stays s (block (record s { in_transaction = true })) h (keeps _ h))
  ]

  insert_job-Stays : (j : Job) → is_running j.state ≡ false → Stays (insert_job j)
  unfolding insert_job
  insert_job-Stays j off s h = elim (Option-cases (find job_key j.id s.jobs)) [
    | inr (x, e) ↦ rw e h
    | inl e ↦ rw e (All-append _ s.jobs (j ∷ []) h ((λ on. cc), tt))
  ]

  update_job-Stays :
      (id : String) (f : Job → Job)
      → ((j : Job) → (f j).id ≡ j.id)
      → ((j : Job) → is_running (f j).state ≡ true → is_running j.state ≡ true)
      → Stays (update_job id f)
  unfolding update_job
  update_job-Stays id f keeps on_before s h =
      All-update job_key _ id f s.jobs (λ x _ p on. rw (keeps x) (p (on_before x on))) h

  get_job-Stays : (id : String) → Stays (get_job id)
  unfolding get_job
  get_job-Stays id s h = elim (Option-cases (find job_key id s.jobs)) [
    | inl e ↦ rw e h
    | inr (row, e) ↦ rw e h
  ]

  submit-Stays : (paths : Paths) (r : Request) (clock : ℕ → ℕ) → Stays (submit paths r clock)
  unfolding submit insert_block
  submit-Stays paths r clock =
      bind-Stays (or_raise workspace_missing (paths.resolve r.workspace)) _ (or_raise-Stays _ _)
        λ workspace.
          bind-Stays (require (paths.is_dir workspace) workspace_not_directory) _
            (require-Stays _ _)
            λ _.
              bind-Stays (or_raise bad_limits (in_range 1 604800 r.timeout)) _ (or_raise-Stays _ _)
                λ timeout.
                  bind-Stays (or_raise bad_limits (in_range 0 31536000 r.delay)) _
                    (or_raise-Stays _ _)
                    λ delay.
                      bind-Stays (nested _) _
                        (nested-Stays _ (
                          bind-Stays (insert_job _) _ (insert_job-Stays _ refl)
                            λ _. event-Stays _ _ _ _))
                        λ _ s h. h

  pub cancel-Stays : (id : String) (clock : ℕ → ℕ) → Stays (cancel id clock)
  unfolding cancel
  cancel-Stays id clock = transaction-Stays _ (
      bind-Stays (get_job id) _ (get_job-Stays id) λ row.
        bind-Stays (require (not (is_terminal row.state)) (already row.state)) _ (require-Stays _ _)
          λ _.
            Triple-if (RunningIn P) (λ _. RunningIn P) (is_queued row.state) _ _
              (λ _.
                bind-Stays (update_job id _) _ (update_job-Stays id _ (λ _. refl) (λ j on. cc))
                  λ _. event-Stays _ _ _ _)
              (λ _.
                bind-Stays (update_job id _) _ (update_job-Stays id _ (λ _. refl) (λ j on. on))
                  λ _. event-Stays _ _ _ _))

  put-Stays : (a : Acknowledgment) → Stays (modify (put_acknowledgment a))
  put-Stays a s h = rw (put_acknowledgment-jobs a s) h

  rows-Stays : (now : ℕ) (rows : List Job) (clock : ℕ → ℕ) → Stays (acknowledge_rows now clock rows)
  unfolding acknowledge_rows event
  rows-Stays now [] clock s h = h
  rows-Stays now (row ∷ rows) clock s h =
      rows-Stays now rows (λ i. clock (i + 1)) _ (rw (put_acknowledgment-jobs _ s) h)

  check_reviewable-Stays : (chosen : Option String) → Stays (check_reviewable chosen)
  unfolding check_reviewable
  check_reviewable-Stays none s h = h
  check_reviewable-Stays (some id) s h =
      bind-Stays (get_job id) _ (get_job-Stays id)
        (λ row. require-Stays (needs_attention row.state) not_reviewable) s h

  acknowledge_block-Stays :
      (chosen : Option String) (clock : ℕ → ℕ) → Stays (acknowledge_block chosen clock)
  unfolding acknowledge_block
  acknowledge_block-Stays chosen clock s h =
      let rows = unreviewed_rows chosen s in
      bind-Stays (acknowledge_rows (clock 0) (λ i. clock (i + 1)) rows)
        (λ _. pure (map job_key rows)) (rows-Stays (clock 0) rows (λ i. clock (i + 1))) (λ _ t k. k)
        s h

  acknowledge-Stays : (chosen : Option String) (clock : ℕ → ℕ) → Stays (acknowledge chosen clock)
  unfolding acknowledge
  acknowledge-Stays chosen clock =
      transaction-Stays (check_reviewable chosen >> acknowledge_block chosen clock) (
        bind-Stays (check_reviewable chosen) _ (check_reviewable-Stays chosen)
          λ _. acknowledge_block-Stays chosen clock)

  pub heartbeat-Stays : (pid : ℕ) (w : WorkerState) (at : ℕ) → Stays (heartbeat pid w at)
  unfolding heartbeat
  heartbeat-Stays pid w at s h = h

-- What the operator's commands do: they start, finish and recover nothing.
abbrev pub IsOperators : Operation → Type 0
IsOperators (submitting paths request clock) = Unit
IsOperators (cancelling id clock) = Unit
IsOperators (acknowledging chosen clock) = Unit
IsOperators _ = ⊥

after-RunningIn :
    {A : Type 0} (P : String → Type 0) (x : Result OperatorError A × Db)
    → Post (λ _. RunningIn P) (RunningIn P) x
    → RunningIn P x.1
after-RunningIn P (ok a, s) h = h
after-RunningIn P (err e, s) h = h

discard-RunningIn :
    {A : Type 0} (P : String → Type 0) (x : Result OperatorError A × Db)
    → RunningIn P x.1
    → RunningIn P (continue (λ (_ : A). pure tt) x.0 x.1).1
discard-RunningIn P (ok a, s) h = h
discard-RunningIn P (err e, s) h = h

perform-RunningIn :
    (P : String → Type 0) (o : Operation) (s : Db)
    → IsOperators o
    → RunningIn P s
    → RunningIn P (perform o s).1
unfolding perform
perform-RunningIn P (submitting paths r clock) s l h =
    discard-RunningIn P (submit paths r clock s)
      (after-RunningIn P (submit paths r clock s) (submit-Stays P paths r clock s h))
perform-RunningIn P (cancelling id clock) s l h =
    after-RunningIn P (cancel id clock s) (cancel-Stays P id clock s h)
perform-RunningIn P (acknowledging chosen clock) s l h =
    discard-RunningIn P (acknowledge chosen clock s)
      (after-RunningIn P (acknowledge chosen clock s) (acknowledge-Stays P chosen clock s h))
perform-RunningIn P (finishing a b c d e) s l h = absurd l
perform-RunningIn P (recovering c) s l h = absurd l
perform-RunningIn P (claiming c) s l h = absurd l
perform-RunningIn P (beating a b c) s l h = absurd l

pub perform_all-RunningIn :
    (P : String → Type 0) (os : List Operation) (s : Db)
    → All IsOperators os
    → RunningIn P s
    → RunningIn P (perform_all os s)
unfolding perform_all
perform_all-RunningIn P [] s l h = h
perform_all-RunningIn P (o ∷ os) s l h =
    perform_all-RunningIn P os (perform o s).1 l.1 (perform-RunningIn P o s l.0 h)
