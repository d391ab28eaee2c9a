-- ===== src/Jobs/Refine.antt =====
-- Each operation of rootfs/usr/lib/rougarou/jobs.py is a run of the steps of `Step`.
use rougarou_os.Base.{
  ℕ, String, ◌≡◌, refl, ap, ◌∙◌, Bool, true, false, Option, none, some, List, [], ◌∷◌, ℤ, find,
  arith, pure, map, ◌+◌, continue, ◌>>◌, in_range, Result, ok, err, inl, inr, Bool-cases,
  Option-cases, find-update_self, Keyed, find-mem, fetch_one-Selected, All, All-map,
  select-Selected, All-order_by, ◌&&◌,
}
use mathlib.Core.Path.{subst}
use mathlib.Core.List.{Memᴰ}
use rougarou_os.Jobs.Schema.{
  State, WorkerState, Acknowledgment, entered, worker_vanished, is_queued, needs_attention,
  State-cases, queued, interrupted, is_terminal, Message, Job, Db, OperatorError,
}
use rougarou_os.Jobs.Store.{
  Op, nested, transaction, commit_or_rollback, get_job, event, update_job, insert_job, job_key,
}
use rougarou_os.Jobs.Ops.{
  Paths, Request, insert_block, new_job, retry_detail, created_then_id, is_chosen,
  acknowledge_block, put_acknowledgment, outcome, claim_row, finish, cancel, submit, claim, recover,
  finish_vanished, acknowledge, acknowledge_rows, heartbeat, start, ready_then_created, is_due,
  is_unreviewed, unreviewed_rows, check_reviewable,
}
use rougarou_os.Jobs.Step.{
  Step, submitting, starting, settling, dropping, asking, reviewing, beating, Steps, IsNew, here,
  next, one, Steps-trans,
}

abbrev pub mode : Bool → Db → Db
mode b s = record s { in_transaction = b }

-- A step does not depend on whether a transaction is open.
Step-mode : (b : Bool) {s t : Db} → Step s t → Step (mode b s) (mode b t)
unfolding put_acknowledgment
Step-mode b (submitting j d at f n e) = submitting j d at f n (ap (mode b) e)
Step-mode b (starting id row now at f q e) = starting id row now at f q (ap (mode b) e)
Step-mode b (settling id row final now at c w f q r o e) =
    settling id row final now at c w f q r o (ap (mode b) e)
Step-mode b (dropping id row now at f q e) = dropping id row now at f q (ap (mode b) e)
Step-mode b (asking id row at f q e) = asking id row at f q (ap (mode b) e)
Step-mode b {s} (reviewing row now at m a e) =
    reviewing row now at m a (ap (mode b) e ∙ ground arith)
Step-mode b (beating w e) = beating w (ap (mode b) e)

Steps-mode : (b : Bool) {s t : Db} → Steps s t → Steps (mode b s) (mode b t)
Steps-mode b here = here
Steps-mode b (next r st) = next (Steps-mode b r) (Step-mode b st)

commit-Steps :
    {A : Type 0} (s : Db) (r : Result OperatorError A × Db)
    → s.in_transaction ≡ false
    → Steps (mode true s) r.1
    → Steps s (commit_or_rollback s r).1
commit-Steps s (ok a, s') e r =
    subst (λ x. Steps x (mode false s')) (ground arith) (Steps-mode false r)
commit-Steps s (err x, s') e r = here

-- A transaction does what its block does, or nothing.
pub transaction-Steps :
    {A : Type 0} (block : Op A) (s : Db)
    → Steps (mode true s) (block (mode true s)).1
    → Steps s (transaction block s).1
unfolding transaction
transaction-Steps block s h = elim (Bool-cases s.in_transaction) [
  | inl e ↦ simp e here
  | inr e ↦ simp e (commit-Steps s (block (mode true s)) e h)
]

-- What runs a sequence of two operations, and a block that may already stand in a transaction.
continue-Steps :
    {A B : Type 0} (s : Db) (f : A → Op B) (r : Result OperatorError A × Db)
    → Steps s r.1
    → ((a : A) → Steps r.1 (f a r.1).1)
    → Steps s (continue f r.0 r.1).1
continue-Steps s f (ok a, t) h k = Steps-trans h (k a)
continue-Steps s f (err e, t) h k = h

pub nested-Steps :
    {A : Type 0} (block : Op A) (s : Db)
    → ((b : Bool) → Steps (mode b s) (block (mode b s)).1)
    → Steps s (nested block s).1
unfolding nested
nested-Steps block s h = elim (Bool-cases s.in_transaction) [
  | inl e ↦ simp e (subst (λ x. Steps x (block x).1) (ground arith) (h true))
  | inr e ↦ simp e (commit-Steps s (block (mode true s)) e (h true))
]

insert-Steps :
    (j : Job) (detail : Option Message) (at : ℕ) (s : Db)
    → IsNew j
    → Steps s ((insert_job j >> event j.id (entered queued) detail at) s).1
unfolding insert_job event
insert-Steps j detail at s new = elim (Option-cases (find job_key j.id s.jobs)) [
  | inl e ↦ rw e (one (submitting j detail at e new refl))
  | inr (row, e) ↦ rw e here
]

-- What each operation does to the queue is a run of steps, whether it returns or raises.
module _ (id : String) (clock : ℕ → ℕ) where
  pub finish-Steps :
      (state : State) (why : Option Message) (code : Option ℤ) (s : Db)
      → is_terminal state ≡ true
      → Steps s (finish id state why code clock s).1
  unfolding finish get_job update_job event
  finish-Steps state why code s h =
      let t = mode true s in
      transaction-Steps _ s (elim (Option-cases (find job_key id t.jobs)) [
        | inl e ↦ rw e here
        | inr (row, e) ↦ rw e (elim (Bool-cases (is_terminal row.state)) [
          | inl d ↦ rw d here
          | inr d ↦ rw d (
              one (
                settling id row (outcome row state why).0 (clock 0) (clock 1) code
                  (outcome row state why).1 e d (ground arith) (λ x. ground arith) refl))
        ])
      ])

  pub cancel-Steps : (s : Db) → Steps s (cancel id clock s).1
  unfolding cancel get_job update_job event
  cancel-Steps s =
      let t = mode true s in
      transaction-Steps _ s (elim (Option-cases (find job_key id t.jobs)) [
        | inl e ↦ rw e here
        | inr (row, e) ↦ rw e (elim (State-cases row.state) [
          | inl q ↦ simp q (one (dropping id row (clock 0) (clock 1) e q refl))
          | inr (inl q) ↦ simp q (one (asking id row (clock 0) e q refl))
          | inr (inr q) ↦ simp q here
        ])
      ])

pub submit-Steps :
    (paths : Paths) (r : Request) (clock : ℕ → ℕ) (s : Db) → Steps s (submit paths r clock s).1
unfolding submit insert_block
submit-Steps paths r clock s = elim (Option-cases (paths.resolve r.workspace)) [
  | inl e ↦ rw e here
  | inr (w, e) ↦ rw e (elim (Bool-cases (paths.is_dir w)) [
    | inr d ↦ rw d here
    | inl d ↦ rw d (elim (Option-cases (in_range 1 604800 r.timeout)) [
      | inl t ↦ rw t here
      | inr (timeout, t) ↦ rw t (elim (Option-cases (in_range 0 31536000 r.delay)) [
        | inl y ↦ rw y here
        | inr (delay, y) ↦ rw y (
            continue-Steps s (λ _. pure r.job_id) (nested (insert_block r w timeout delay clock) s)
              (nested-Steps _ s λ b.
                insert-Steps (new_job r w timeout delay (clock 0)) (retry_detail r.parent) (clock 1)
                  (mode b s)
                  (record {
                    waits = refl;
                    never_started = refl;
                    not_finished = refl;
                    not_asked = refl;
                  }))
              (λ _. here))
      ])
    ])
  ])
]

claim_row-Steps :
    (clock : ℕ → ℕ) (t : Db) (row : Option Job)
    → ((j : Job) → row ≡ some j → (find job_key j.id t.jobs ≡ some j) × (j.state ≡ queued))
    → Steps t (claim_row clock row t).1
unfolding claim_row get_job update_job event
claim_row-Steps clock t none h = here
claim_row-Steps clock t (some j) h =
    let (f, q) = h j refl in
    rw (find-update_self job_key (start (clock 1)) (λ _. refl) j.id t.jobs j f)
      (one (starting j.id j (clock 1) (clock 2) f q refl))

is_queued_eq : (x : State) → is_queued x ≡ true → x ≡ queued
is_queued_eq x h = ground arith

-- The row that is claimed is found again by its key, so a primary key is assumed.
pub claim-Steps : (clock : ℕ → ℕ) (s : Db) → Keyed job_key s.jobs → Steps s (claim clock s).1
unfolding claim
claim-Steps clock s k = transaction-Steps _ s (
    claim_row-Steps clock (mode true s) _ λ j e.
      let (m, p) = fetch_one-Selected ready_then_created (is_due (clock 0)) s.jobs j e in
      (find-mem job_key s.jobs k m, is_queued_eq j.state (ground arith)))

finish_vanished-Steps :
    (clock : ℕ → ℕ) (rows : List Job) (s : Db) → Steps s (finish_vanished clock rows s).1
unfolding finish_vanished
finish_vanished-Steps clock [] s = here
finish_vanished-Steps clock (row ∷ rows) s =
    continue-Steps s (λ _. finish_vanished (λ i. clock (i + 2)) rows)
      (finish row.id interrupted (some worker_vanished) none clock s)
      (finish-Steps row.id clock interrupted (some worker_vanished) none s refl)
      (λ _. finish_vanished-Steps (λ i. clock (i + 2)) rows _)

pub recover-Steps : (clock : ℕ → ℕ) (s : Db) → Steps s (recover clock s).1
unfolding recover
recover-Steps clock s = finish_vanished-Steps clock _ s

jobs-put_acknowledgment : (a : Acknowledgment) (s : Db) → (put_acknowledgment a s).jobs ≡ s.jobs
unfolding put_acknowledgment
jobs-put_acknowledgment a s = ground arith

acknowledge_rows-Steps :
    (now : ℕ) (clock : ℕ → ℕ) (rows : List Job) (s : Db)
    → All (λ j. Memᴰ j s.jobs × (needs_attention j.state ≡ true)) rows
    → Steps s (acknowledge_rows now clock rows s).1
unfolding acknowledge_rows event
acknowledge_rows-Steps now clock [] s h = here
acknowledge_rows-Steps now clock (row ∷ rows) s h =
    Steps-trans (one (reviewing row now (clock 0) h.0.0 h.0.1 refl))
      (acknowledge_rows-Steps now (λ i. clock (i + 1)) rows _ (rw jobs-put_acknowledgment h.1))

check_reviewable-Steps : (chosen : Option String) (s : Db) → Steps s (check_reviewable chosen s).1
unfolding check_reviewable get_job
check_reviewable-Steps none s = here
check_reviewable-Steps (some id) s = elim (Option-cases (find job_key id s.jobs)) [
  | inl e ↦ rw e here
  | inr (row, e) ↦
      rw e (elim (Bool-cases (needs_attention row.state)) [ inl a ↦ rw a here | inr a ↦ rw a here ])
]

unreviewed_rows-attention :
    (chosen : Option String) (s : Db)
    → All (λ j. Memᴰ j s.jobs × (needs_attention j.state ≡ true)) (unreviewed_rows chosen s)
unfolding unreviewed_rows is_unreviewed
unreviewed_rows-attention chosen s = All-order_by created_then_id _ _ (
    All-map _ _ _ (λ j m. (m.0, ground arith))
      (select-Selected (λ j. is_unreviewed s j && is_chosen chosen j) s.jobs))

acknowledge_block-Steps :
    (chosen : Option String) (clock : ℕ → ℕ) (s : Db) → Steps s (acknowledge_block chosen clock s).1
unfolding acknowledge_block
acknowledge_block-Steps chosen clock s =
    let rows = unreviewed_rows chosen s in
    continue-Steps s (λ _. pure (map job_key rows))
      (acknowledge_rows (clock 0) (λ i. clock (i + 1)) rows s)
      (acknowledge_rows-Steps (clock 0) (λ i. clock (i + 1)) rows s
        (unreviewed_rows-attention chosen s))
      (λ _. here)

pub acknowledge-Steps :
    (chosen : Option String) (clock : ℕ → ℕ) (s : Db) → Steps s (acknowledge chosen clock s).1
unfolding acknowledge
acknowledge-Steps chosen clock s = transaction-Steps _ s (
    continue-Steps (mode true s) (λ _. acknowledge_block chosen clock)
      (check_reviewable chosen (mode true s)) (check_reviewable-Steps chosen (mode true s))
      (λ _. acknowledge_block-Steps chosen clock _))

pub heartbeat-Steps :
    (pid : ℕ) (w : WorkerState) (at : ℕ) (s : Db) → Steps s (heartbeat pid w at s).1
unfolding heartbeat
heartbeat-Steps pid w at s = one (beating _ refl)
