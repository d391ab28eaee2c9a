-- ===== src/Jobs/Life.antt =====
-- The life of a job in rootfs/usr/lib/rougarou/jobs.py, followed through every step.
use rougarou_os.Base.{
  ℕ, ◌≤◌, String, ◌≡◌, refl, ◌∙◌, true, some, find, update, arith, inl, inr, sym, [], ◌∷◌,
  Bool-cases, same, eq_iff, find-update, find-append,
}
use mathlib.Core.Path.{subst}
use rougarou_os.Jobs.Schema.{State, queued, running, is_terminal, Job, Acknowledgment, Db}
use rougarou_os.Jobs.Store.{job_key}
use rougarou_os.Jobs.Ops.{put_acknowledgment, start}
use rougarou_os.Jobs.Step.{
  Step, submitting, starting, settling, dropping, asking, reviewing, beating, Steps, here, next,
  settle, drop, ask,
}

-- queued, then running, then an outcome
abbrev pub stage : State → ℕ
stage queued = 0
stage running = 1
stage _ = 2

-- What becomes of a row: its definition stays, its stage does not fall, and an outcome is final.
pub record Follows (j k : Job) : Type 0 where
  pub same_id : k.id ≡ j.id
  pub same_kind : k.kind ≡ j.kind
  pub same_spec : k.spec ≡ j.spec
  pub same_workspace : k.workspace ≡ j.workspace
  pub same_timeout : k.timeout ≡ j.timeout
  pub same_created : k.created ≡ j.created
  pub same_parent : k.parent ≡ j.parent
  pub advances : stage j.state ≤ stage k.state
  pub final : is_terminal j.state ≡ true → k ≡ j

Follows-refl : (j : Job) → Follows j j
Follows-refl j = ground arith

Follows-trans : {j k l : Job} → Follows j k → Follows k l → Follows j l
Follows-trans {j} {k} {l} a b = record {
  same_id = b.same_id ∙ a.same_id;
  same_kind = b.same_kind ∙ a.same_kind;
  same_spec = b.same_spec ∙ a.same_spec;
  same_workspace = b.same_workspace ∙ a.same_workspace;
  same_timeout = b.same_timeout ∙ a.same_timeout;
  same_created = b.same_created ∙ a.same_created;
  same_parent = b.same_parent ∙ a.same_parent;
  advances = omega (arith, a.advances, b.advances);
  final = λ t. b.final (subst (λ x. is_terminal x.state ≡ true) (sym (a.final t)) t) ∙ a.final t;
}

-- The row under `id` and what followed it.
abbrev pub Survives : String → Job → Db → Type 0
Survives id j t = (k : Job) × (find job_key id t.jobs ≡ some k) × Follows j k

module _ (s : Db) (id : String) (j : Job) (found : find job_key id s.jobs ≡ some j) (i : String)
    (row : Job) (f : Job → Job) (at_row : find job_key i s.jobs ≡ some row)
    (keeps : (x : Job) → (f x).id ≡ x.id) (follows : Follows row (f row)) where
  update-Survives : (k : Job) × (find job_key id (update job_key i f s.jobs) ≡ some k) × Follows j k
  update-Survives = elim (Bool-cases (same i id)) [
    | inl e ↦
        let p : i ≡ id = (eq_iff i id).0 e in
        let q : row ≡ j = ground (arith, rw p at at_row) in
        (
          f j,
          rw (find-update job_key f keeps i id s.jobs) (rw (e, found) refl),
          subst (λ x. Follows x (f x)) q follows,
        )
    | inr e ↦ (j, rw (find-update job_key f keeps i id s.jobs) (rw e found), Follows-refl j)
  ]

pub put_acknowledgment-jobs : (a : Acknowledgment) (s : Db) → (put_acknowledgment a s).jobs ≡ s.jobs
unfolding put_acknowledgment
put_acknowledgment-jobs a s = ground arith

Step-Survives :
    {s t : Db} (id : String) (j : Job)
    → Step s t
    → find job_key id s.jobs ≡ some j
    → Survives id j t
Step-Survives {s} id j (submitting k why at f n e) h =
    rw e (j, find-append job_key id s.jobs (k ∷ []) j h, Follows-refl j)
Step-Survives {s} id j (starting i row now at f q e) h =
    rw e (update-Survives s id j h i row (start now) f (λ _. refl) (ground arith))
Step-Survives {s} id j (settling i row final now at c w f a d o e) h =
    rw e (update-Survives s id j h i row (settle final now c w) f (λ _. refl) (ground arith))
Step-Survives {s} id j (dropping i row now at f q e) h =
    rw e (update-Survives s id j h i row (drop now) f (λ _. refl) (ground arith))
Step-Survives {s} id j (asking i row at f q e) h =
    rw e (update-Survives s id j h i row ask f (λ _. refl) (ground arith))
Step-Survives {s} id j (reviewing row now at m a e) h =
    rw (e, put_acknowledgment-jobs) (j, h, Follows-refl j)
Step-Survives id j (beating w e) h = rw e (j, h, Follows-refl j)

pub Steps-Survives :
    {s t : Db} (id : String) (j : Job)
    → Steps s t
    → find job_key id s.jobs ≡ some j
    → Survives id j t
Steps-Survives id j here h = (j, h, Follows-refl j)
Steps-Survives id j (next r st) h =
    let (k, f, g) = Steps-Survives id j r h in
    let (l, f', g') = Step-Survives id k st f in (l, f', Follows-trans g g')

put_acknowledgment-mode :
    (a : Acknowledgment) (s : Db) → (put_acknowledgment a s).in_transaction ≡ s.in_transaction
unfolding put_acknowledgment
put_acknowledgment-mode a s = ground arith

Step-mode : {s t : Db} → Step s t → t.in_transaction ≡ s.in_transaction
Step-mode (submitting k why at f n e) = rw e refl
Step-mode (starting i row now at f q e) = rw e refl
Step-mode (settling i row final now at c w f a d o e) = rw e refl
Step-mode (dropping i row now at f q e) = rw e refl
Step-mode (asking i row at f q e) = rw e refl
Step-mode {s} (reviewing row now at m a e) = rw e (put_acknowledgment-mode _ s)
Step-mode (beating w e) = rw e refl

-- Steps open and close no transaction.
pub Steps-mode : {s t : Db} → Steps s t → t.in_transaction ≡ s.in_transaction
Steps-mode here = refl
Steps-mode (next r st) = Step-mode st ∙ Steps-mode r

-- The tables of the scheduled tasks, which no operation of the queue touches.
pub data SameTables (s t : Db) : Type 0 where
  same_tables :
      t.scheduled_tasks ≡ s.scheduled_tasks
      → t.scheduled_runs ≡ s.scheduled_runs
      → t.scheduled_events ≡ s.scheduled_events
      → SameTables s t

Step-tables : {s t : Db} → Step s t → SameTables s t
unfolding put_acknowledgment
Step-tables (submitting k why at f n e) = rw e (same_tables refl refl refl)
Step-tables (starting i row now at f q e) = rw e (same_tables refl refl refl)
Step-tables (settling i row final now at c w f a d o e) = rw e (same_tables refl refl refl)
Step-tables (dropping i row now at f q e) = rw e (same_tables refl refl refl)
Step-tables (asking i row at f q e) = rw e (same_tables refl refl refl)
Step-tables {s} (reviewing row now at m a e) =
    rw e (same_tables (ground arith) (ground arith) (ground arith))
Step-tables (beating w e) = rw e (same_tables refl refl refl)

pub Steps-tables : {s t : Db} → Steps s t → SameTables s t
Steps-tables here = same_tables refl refl refl
Steps-tables (next r st) = elim (Steps-tables r) [
  | same_tables a b c ↦ elim (Step-tables st) [
    | same_tables a' b' c' ↦ same_tables (a' ∙ a) (b' ∙ b) (c' ∙ c)
  ]
]
