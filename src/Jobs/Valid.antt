-- ===== src/Jobs/Valid.antt =====
-- What every state of the queue of rootfs/usr/lib/rougarou/jobs.py satisfies between operations.
use rougarou_os.Base.{
  ℕ, ◌<◌, String, ◌≡◌, refl, true, false, Option, none, some, List, [], ◌∷◌, ◌++◌, All-of_mem, find,
  update, arith, inl, inr, Bool-cases, is_some, same, same_refl, eq_iff, All, All-append, All-map,
  All-update_row, All-update, All-mem, mem-find, find-mem_absent, Keyed, Keyed-append, Keyed-update,
  find-update, find-append, find-mem, find-key, if◌then◌else◌,
}
use mathlib.Core.List.{Memᴰ}
use rougarou_os.Jobs.Schema.{
  State, queued, running, cancelled, is_terminal, needs_attention, Message, Job, Mark, entered,
  cancel_asked, acknowledged, reviewed, cancelled_before_execution, Event, Acknowledgment, Db,
  empty,
}
use rougarou_os.Jobs.Store.{job_key, next_seq}
use rougarou_os.Jobs.Ops.{acknowledgment_key, put_acknowledgment, start}
use rougarou_os.Jobs.Step.{
  Step, submitting, starting, settling, dropping, asking, reviewing, beating, Steps, IsNew, here,
  next, with_event, with_job, settle, drop, ask,
}

-- The columns of a row agree with its state.
pub record IsRow (j : Job) : Type 0 where
  pub waiting :
      j.state ≡ queued → (j.started ≡ none) × (j.finished ≡ none) × (j.cancel_requested ≡ false)
  pub going : j.state ≡ running → (is_some j.started ≡ true) × (j.finished ≡ none)
  pub ended : is_terminal j.state ≡ true → is_some j.finished ≡ true
  pub obeyed : is_terminal j.state ≡ true → j.cancel_requested ≡ true → j.state ≡ cancelled

abbrev pub marked : Mark → Option State
marked (entered x) = some x
marked _ = none

abbrev pub or_else : {A : Type 0} → Option A → Option A → Option A
or_else none o = o
or_else (some a) o = some a

-- The state that the event log gives a job: the last one that it entered.
unfoldable pub last_entered : String → List Event → Option State
last_entered id [] = none
last_entered id (e ∷ es) =
    or_else (last_entered id es) (if same e.job_id id then marked e.mark else none)

pub last_entered-append :
    (id : String) (es : List Event) (e : Event)
    → last_entered id (es ++ e ∷ []) ≡ (
        if same e.job_id id
        then or_else (marked e.mark) (last_entered id es)
        else last_entered id es)
unfolding last_entered
last_entered-append id [] e = ground arith
last_entered-append id (x ∷ es) e = ground (arith, last_entered-append id es e)

abbrev pub Replays : List Event → Job → Type 0
Replays es j = last_entered j.id es ≡ some j.state

-- An acknowledgment names a job that is there, in the outcome that was reviewed.
abbrev pub IsBacked : List Job → Acknowledgment → Type 0
IsBacked jobs a =
    (j : Job) × (find job_key a.job_id jobs ≡ some j)
    × (j.state ≡ a.state)
    × (needs_attention a.state ≡ true)

-- Sequence numbers grow along the log.
abbrev pub Ascending : List Event → Type 0
Ascending [] = Unit
Ascending (e ∷ es) = All (λ x. e.seq < x.seq) es × Ascending es

pub record IsValid (s : Db) : Type 0 where
  pub keyed : Keyed job_key s.jobs
  pub rows : All IsRow s.jobs
  pub replays : All (Replays s.events) s.jobs
  pub backed : All (IsBacked s.jobs) s.job_acknowledgments
  pub ascending : Ascending s.events

pub next_seq_bound : (es : List Event) → All (λ e. e.seq < next_seq es) es
unfolding next_seq
next_seq_bound [] = tt
next_seq_bound (e ∷ es) = (omega arith, All-map _ _ es (λ x h. omega arith) (next_seq_bound es))

Ascending-append :
    (es : List Event) (e : Event)
    → Ascending es
    → All (λ x. x.seq < e.seq) es
    → Ascending (es ++ e ∷ [])
Ascending-append [] e a h = (tt, tt)
Ascending-append (x ∷ es) e a h =
    (All-append (λ y. x.seq < y.seq) es (e ∷ []) a.0 (h.0, tt), Ascending-append es e a.1 h.1)

log_ascends :
    (es : List Event) (id : String) (mark : Mark) (why : Option Message) (at : ℕ)
    → Ascending es
    → Ascending
        (es ++ record { seq = next_seq es; job_id = id; at = at; mark = mark; detail = why } ∷ [])
log_ascends es id mark why at a = Ascending-append es _ a (next_seq_bound es)

-- A change of one row, with the event that tells of it.
module _ (s : Db) (id : String) (row : Job) (f : Job → Job) (mark : Mark) (why : Option Message)
    (at : ℕ) (found : find job_key id s.jobs ≡ some row) (keeps : (j : Job) → (f j).id ≡ j.id)
    (told : or_else (marked mark) (some row.state) ≡ some (f row).state)
    (active : is_terminal row.state ≡ false) (coherent : IsRow (f row)) (v : IsValid s) where
  row_id : row.id ≡ id
  row_id = find-key job_key id s.jobs row found

  told_row : Replays (with_event id mark why at s).events (f row)
  told_row =
      let was =
        All-mem (Replays s.events) s.jobs v.replays (mem-find job_key id s.jobs row found) in
      rw (keeps row, last_entered-append row.id s.events)
        (ground (arith, row_id, was, told, eq_iff id row.id))

  told_others :
      (x : Job)
      → same x.id id ≡ false
      → Replays s.events x
      → Replays (with_event id mark why at s).events x
  told_others x n h =
      rw (last_entered-append x.id s.events) (ground (arith, eq_iff id x.id, eq_iff x.id id))

  not_reviewed : (a : Acknowledgment) → IsBacked s.jobs a → same id a.job_id ≡ false
  not_reviewed a (j, f, q, n) = elim (Bool-cases (same id a.job_id)) [
    | inr t ↦ t
    | inl t ↦
        let e : id ≡ a.job_id = (eq_iff id a.job_id).0 t in
        let same_row : row ≡ j = ground (arith, rw e at found) in ground arith
  ]

  change-IsBacked : All (IsBacked (update job_key id f s.jobs)) s.job_acknowledgments
  change-IsBacked =
      All-map _ _ s.job_acknowledgments
        (λ a b. (
          b.0,
          rw (find-update job_key f keeps id a.job_id s.jobs) (rw (not_reviewed a b) b.1),
          b.2,
          b.3,
        ))
        v.backed

  pub change-IsValid : IsValid (with_event id mark why at (with_job id f s))
  change-IsValid = record {
    keyed = Keyed-update job_key id f s.jobs keeps v.keyed;
    rows = All-update_row job_key id f s.jobs row v.keyed found coherent (λ x _ h. h) v.rows;
    replays = All-update_row job_key id f s.jobs row v.keyed found told_row told_others v.replays;
    backed = change-IsBacked;
    ascending = log_ascends s.events id mark why at v.ascending;
  }

IsNew-IsRow : (j : Job) → IsNew j → IsRow j
IsNew-IsRow j new = record {
  waiting = λ _. (new.never_started, new.not_finished, new.not_asked);
  going = λ e. ground (arith, new.waits);
  ended = λ e. ground (arith, new.waits);
  obeyed = λ e _. ground (arith, new.waits);
}

-- A new row, with the event that tells of it.
submitted-IsValid :
    (s : Db) (j : Job) (why : Option Message) (at : ℕ)
    → find job_key j.id s.jobs ≡ none
    → IsNew j
    → IsValid s
    → IsValid (with_event j.id (entered queued) why at (record s { jobs = s.jobs ++ j ∷ [] }))
submitted-IsValid s j why at absent new v = record {
  keyed = Keyed-append job_key s.jobs j v.keyed absent;
  rows = All-append IsRow s.jobs (j ∷ []) v.rows (IsNew-IsRow j new, tt);
  replays =
      All-append (Replays _) s.jobs (j ∷ [])
        (All-of_mem _ s.jobs λ x m. rw (last_entered-append x.id s.events) (
          ground (
            arith,
            find-mem_absent job_key j.id s.jobs absent m,
            All-mem (Replays s.events) s.jobs v.replays m,
            eq_iff j.id x.id,
            eq_iff x.id j.id,
          )))
        (rw (last_entered-append j.id s.events) (ground (arith, same_refl j.id, new.waits)), tt);
  backed =
      All-map _ _ s.job_acknowledgments
        (λ a b. (b.0, find-append job_key a.job_id s.jobs (j ∷ []) b.0 b.1, b.2, b.3)) v.backed;
  ascending = log_ascends s.events j.id (entered queued) why at v.ascending;
}

-- An acknowledgment of a row that needs attention, with the event that tells of it.
reviewed-IsBacked :
    (s : Db) (row : Job) (now : ℕ)
    → Memᴰ row s.jobs
    → needs_attention row.state ≡ true
    → IsValid s
    → All
        (IsBacked s.jobs)
        (put_acknowledgment
          (record { job_id = row.id; state = row.state; acknowledged_at = now })
          s).job_acknowledgments
unfolding put_acknowledgment
reviewed-IsBacked s row now m a v =
    let found = find-mem job_key s.jobs v.keyed m in
    elim (Bool-cases (is_some (find acknowledgment_key row.id s.job_acknowledgments))) [
      | inl e ↦ rw e (
          All-update acknowledgment_key (IsBacked s.jobs) row.id _ s.job_acknowledgments
            (λ old k b. (row, rw k found, refl, a)) v.backed)
      | inr e ↦ rw e (All-append _ s.job_acknowledgments _ v.backed ((row, found, refl, a), tt))
    ]

put_acknowledgment_keeps :
    (a : Acknowledgment) (s : Db)
    → ((put_acknowledgment a s).jobs ≡ s.jobs) × ((put_acknowledgment a s).events ≡ s.events)
unfolding put_acknowledgment
put_acknowledgment_keeps a s = ground arith

reviewed-IsValid :
    (s : Db) (row : Job) (now at : ℕ)
    → Memᴰ row s.jobs
    → needs_attention row.state ≡ true
    → IsValid s
    → IsValid (
        with_event row.id acknowledged (some (reviewed row.state)) at (
          put_acknowledgment
            (record { job_id = row.id; state = row.state; acknowledged_at = now })
            s))
reviewed-IsValid s row now at m a v =
    let (same_jobs, same_events) =
      put_acknowledgment_keeps
        (record { job_id = row.id; state = row.state; acknowledged_at = now }) s in
    record {
      keyed = rw same_jobs v.keyed;
      rows = rw same_jobs v.rows;
      replays =
          rw (same_jobs, same_events)
            (All-map _ _ s.jobs (λ x h. rw (last_entered-append x.id s.events) (ground (arith, h)))
              v.replays);
      backed = rw same_jobs (reviewed-IsBacked s row now m a v);
      ascending =
          rw same_events
            (log_ascends s.events row.id acknowledged (some (reviewed row.state)) at v.ascending);
    }

-- Each step keeps the invariant, and so does a run of steps.
Step-IsValid : {s t : Db} → Step s t → IsValid s → IsValid t
Step-IsValid {s} (submitting j why at f n e) v = rw e (submitted-IsValid s j why at f n v)
Step-IsValid {s} (starting id row now at f q e) v = rw e (
    change-IsValid s id row (start now) (entered running) none at f (λ _. refl) refl (ground arith)
      (record {
        waiting = λ x. cc;
        going = λ x.
            (refl, ((All-mem IsRow s.jobs v.rows (mem-find job_key id s.jobs row f)).waiting q).1);
        ended = λ x. cc;
        obeyed = λ x. cc;
      })
      v)
Step-IsValid {s} (settling id row final now at c w f a d o e) v = rw e (
    change-IsValid s id row (settle final now c w) (entered final) w at f (λ _. refl) refl a
      (record {
        waiting = λ x. ground arith;
        going = λ x. ground arith;
        ended = λ x. refl;
        obeyed = λ x. o;
      })
      v)
Step-IsValid {s} (dropping id row now at f q e) v = rw e (
    change-IsValid s id row (drop now) (entered cancelled) (some cancelled_before_execution) at f
      (λ _. refl) refl (ground arith)
      (record { waiting = λ x. cc; going = λ x. cc; ended = λ x. refl; obeyed = λ x y. refl }) v)
Step-IsValid {s} (asking id row at f q e) v = rw e (
    change-IsValid s id row ask cancel_asked none at f (λ _. refl) refl (ground arith)
      (record {
        waiting = λ x. ground arith;
        going = λ x. (All-mem IsRow s.jobs v.rows (mem-find job_key id s.jobs row f)).going q;
        ended = λ x. ground arith;
        obeyed = λ x. ground arith;
      })
      v)
Step-IsValid {s} (reviewing row now at m a e) v = rw e (reviewed-IsValid s row now at m a v)
Step-IsValid (beating w e) v = rw e (record {
  keyed = v.keyed;
  rows = v.rows;
  replays = v.replays;
  backed = v.backed;
  ascending = v.ascending;
})

pub Steps-IsValid : {s t : Db} → Steps s t → IsValid s → IsValid t
Steps-IsValid here v = v
Steps-IsValid (next r st) v = Step-IsValid st (Steps-IsValid r v)

pub IsValid-empty : IsValid empty
IsValid-empty = record { keyed = tt; rows = tt; replays = tt; backed = tt; ascending = tt }
