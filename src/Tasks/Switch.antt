-- ===== src/Tasks/Switch.antt =====
-- Switching a task on and off in rootfs/usr/lib/rougarou/tasks.py keeps the tables as they should be.
use rougarou_os.Base.{
  ℕ, String, ◌≡◌, refl, Bool, true, false, List, [], ◌∷◌, same, All, All-update, All-update_row,
  Keyed-update, inl, inr, Bool-cases, Post, Triple, Triple-bind, Triple-if, Result, ok, err, pure,
  ◌>>=◌, ◌>>◌, if◌then◌else◌, update, Post-map,
}
use rougarou_os.Jobs.Schema.{Task, enabled, paused, removed, Db, OperatorError}
use rougarou_os.Jobs.Store.{Op}
use rougarou_os.Tasks.Store.{
  Outside, World, TaskOp, on_db, is_caught, daemon_reload, enable_now, get, record_event, systemctl,
  task_key, managed_file, unlink, unit_name,
}
use rougarou_os.Tasks.Ops.{ready, update_task}
use rougarou_os.Tasks.Units.{
  is_tested, set_enabled, write_units, undo_enable, start_timer, enable, stop_timer, remove_units,
  pause, timer_name,
}
use rougarou_os.Tasks.Tables.{IsScheduled}
use rougarou_os.Tasks.Keep.{Keeps, Got, get-Got, record_event-Keeps, IsValid-with}
use rougarou_os.Tasks.Frame.{
  Frame, Frame-Triple, on_db-Triple, systemctl-Frame, managed_file-Frame, unlink-Frame,
  write_units-Frame, ready-Frame, stop_timer-Frame,
}

abbrev pub Good : World → Type 0
Good w = IsScheduled w.db

abbrev pub Safe : {A : Type 0} → TaskOp A → Type 0
Safe m = Triple Good m (λ _. Good) Good

pub db-Safe : {A : Type 0} (m : Op A) → Keeps m → Safe (on_db m)
db-Safe m h = on_db-Triple (λ _. IsScheduled) IsScheduled m h

pub Frame-Safe : {A : Type 0} (m : TaskOp A) → Frame m → Safe m
Frame-Safe m f = Frame-Triple IsScheduled m f

pub bind-Safe :
    {A B : Type 0} (m : TaskOp A) (f : A → TaskOp B)
    → Safe m
    → ((a : A) → Safe (f a))
    → Safe (m >>= f)
bind-Safe m f h g = Triple-bind Good (λ _. Good) (λ _. Good) m f h g

off-Keeps : (name : String) → Keeps (set_enabled false name)
unfolding set_enabled update_task
off-Keeps name s (v, (k, ts, l, single)) = (
  IsValid-with s _ _ _ _ v,
  (
    Keyed-update task_key name _ s.scheduled_tasks (λ _. refl) k,
    All-update task_key _ name _ s.scheduled_tasks (λ _ _ _. (λ _. refl, λ on. cc)) ts,
    l,
    single,
  ),
)

on-Keeps :
    (name : String) (task : Task)
    → Triple
        (λ s. Got name false task s × (is_tested task s ≡ true))
        (set_enabled true name)
        (λ _. IsScheduled)
        IsScheduled
unfolding set_enabled update_task is_tested
on-Keeps name task s (((v, (k, ts, l, single)), f, live), t) =
    let there : task.deleted ≡ false = live refl in
    (
      IsValid-with s _ _ _ _ v,
      (
        Keyed-update task_key name _ s.scheduled_tasks (λ _. refl) k,
        All-update_row task_key name _ s.scheduled_tasks task k f (λ d. cc, λ _. t) (λ _ _ h. h) ts,
        l,
        single,
      ),
    )

undo-Safe :
    (name : String) (x : Result OperatorError (Unit {0}) × World)
    → Post (λ _. Good) Good x
    → Post (λ _. Good) Good (undo_enable name x)
undo-Safe name (ok a, w) h = h
undo-Safe name (err e, w) h = elim (Bool-cases (is_caught e)) [
  | inl c ↦ rw c (
      bind-Safe (on_db (set_enabled false name)) _
        (db-Safe (set_enabled false name) (off-Keeps name)) (λ _ w h. h) w h)
  | inr c ↦ rw c h
]

start_timer-Safe : (outside : Outside) (name : String) → Safe (start_timer outside name)
unfolding start_timer
start_timer-Safe outside name w h = undo-Safe name _ (
    Frame-Safe (systemctl outside (enable_now (timer_name name)))
      (systemctl-Frame outside (enable_now (timer_name name))) w h)

abbrev Tested : String → Task → Db → Type 0
Tested name task s = Got name false task s × (is_tested task s ≡ true)

frame :
    {A : Type 0} (P : Db → Type 0) (g : (s : Db) → P s → IsScheduled s) (m : TaskOp A)
    → Frame m
    → Triple (λ w. P w.db) m (λ _ w. P w.db) Good
frame P g m f w h = Post-map (m w) (λ _ _ x. x) (λ v x. g v.db x) (Frame-Triple P m f w h)

pub enable-Safe :
    (outside : Outside) (name : String) (clock : ℕ → ℕ) → Safe (enable outside name clock)
unfolding enable
enable-Safe outside name clock =
    Triple-bind Good (λ task w. Got name false task w.db) (λ _. Good) (on_db (get name false)) _
      (on_db-Triple (Got name false) IsScheduled (get name false) (get-Got name false))
      λ task.
        Triple-bind Good (λ _ w. Got name false task w.db) (λ _. Good) (ready outside task) _
          (frame (Got name false task) (λ _ x. x.0) (ready outside task) (ready-Frame outside task))
          λ _ w h. elim (Bool-cases (is_tested task w.db)) [
            | inr e ↦ rw e h.0
            | inl e ↦ rw e (finish task w (h, e))
          ]
  where
    finish :
        (task : Task)
        → Triple
            (λ w. Tested name task w.db)
            (do
              write_units outside task
              systemctl outside daemon_reload
              on_db (set_enabled true name)
              start_timer outside name
              on_db (record_event name enabled (clock 0)))
            (λ _. Good)
            Good
    finish task =
        Triple-bind Good (λ _ w. Tested name task w.db) (λ _. Good) (write_units outside task) _
          (frame (Tested name task) (λ _ x. x.0.0) (write_units outside task)
            (write_units-Frame outside task))
          λ _.
            Triple-bind Good (λ _ w. Tested name task w.db) (λ _. Good)
              (systemctl outside daemon_reload) _
              (frame (Tested name task) (λ _ x. x.0.0) (systemctl outside daemon_reload)
                (systemctl-Frame outside daemon_reload))
              λ _.
                Triple-bind Good (λ _. Good) (λ _. Good) (on_db (set_enabled true name)) _
                  (on_db-Triple (λ _. IsScheduled) IsScheduled (set_enabled true name)
                    (on-Keeps name task))
                  λ _. bind-Safe (start_timer outside name) _ (start_timer-Safe outside name) λ _.
                    db-Safe (record_event name enabled (clock 0))
                      (record_event-Keeps name enabled (clock 0))

-- The rows under a name are switched off.
abbrev pub OffAt : String → Task → Type 0
OffAt name t = same t.name name ≡ true → t.enabled ≡ false

pub switched_off :
    (name : String) (ts : List Task)
    → All (OffAt name) (update task_key name (λ t. record t { enabled = false }) ts)
unfolding update
switched_off name [] = tt
switched_off name (t ∷ ts) = elim (Bool-cases (same t.name name)) [
  | inl e ↦ rw e (λ _. refl, switched_off name ts)
  | inr e ↦ rw e (λ h. cc, switched_off name ts)
]

abbrev Off : String → Db → Type 0
Off name s = IsScheduled s × All (OffAt name) s.scheduled_tasks

off_lem : (name : String) → Triple IsScheduled (set_enabled false name) (λ _. Off name) IsScheduled
unfolding set_enabled update_task
off_lem name s h =
    ((unfold set_enabled update_task in off-Keeps name s h), switched_off name s.scheduled_tasks)

All-remove :
    (P : Task → Type 0) (name : String) (ts : List Task)
    → ((t : Task) → t.enabled ≡ false → P t → P (record t { deleted = true }))
    → All P ts
    → All (OffAt name) ts
    → All P (update task_key name (λ t. record t { deleted = true }) ts)
unfolding update
All-remove P name [] g h o = tt
All-remove P name (t ∷ ts) g h o = elim (Bool-cases (same t.name name)) [
  | inl e ↦ rw e (g t (o.0 e) h.0, All-remove P name ts g h.1 o.1)
  | inr e ↦ rw e (h.0, All-remove P name ts g h.1 o.1)
]

remove_lem :
    (name : String)
    → Triple
        (Off name)
        (update_task name λ t. record t { deleted = true })
        (λ _. IsScheduled)
        IsScheduled
unfolding update_task
remove_lem name s ((v, (k, ts, l, single)), o) = (
  IsValid-with s _ _ _ _ v,
  (
    Keyed-update task_key name _ s.scheduled_tasks (λ _. refl) k,
    All-remove _ name s.scheduled_tasks (λ t off h. (λ _. off, h.1)) ts o,
    l,
    single,
  ),
)

remove_units-Safe :
    (outside : Outside) (name : String)
    → Triple (λ w. Off name w.db) (remove_units outside name) (λ _. Good) Good
unfolding remove_units
remove_units-Safe outside name =
    Triple-bind Good (λ _ w. Off name w.db) (λ _. Good) (unlink outside (timer_name name)) _
      (frame (Off name) (λ _ x. x.0) (unlink outside (timer_name name))
        (unlink-Frame outside (timer_name name)))
      λ _.
        Triple-bind Good (λ _ w. Off name w.db) (λ _. Good)
          (unlink outside (unit_name name "service")) _
          (frame (Off name) (λ _ x. x.0) (unlink outside (unit_name name "service"))
            (unlink-Frame outside (unit_name name "service")))
          λ _.
            Triple-bind Good (λ _ w. Off name w.db) (λ _. Good) (systemctl outside daemon_reload) _
              (frame (Off name) (λ _ x. x.0) (systemctl outside daemon_reload)
                (systemctl-Frame outside daemon_reload))
              λ _.
                on_db-Triple (λ _. IsScheduled) IsScheduled
                  (update_task name λ t. record t { deleted = true }) (remove_lem name)

pub pause-Safe :
    (outside : Outside) (name : String) (remove : Bool) (clock : ℕ → ℕ)
    → Safe (pause outside name remove clock)
unfolding pause
pause-Safe outside name remove clock =
    bind-Safe (on_db (get name false)) _
      (db-Safe (get name false)
        (λ s h. Post-map (get name false s) (λ _ _ x. x.0) (λ _ x. x) (get-Got name false s h)))
      λ _.
        bind-Safe (managed_file (timer_name name)) _
          (Frame-Safe (managed_file (timer_name name)) (managed_file-Frame (timer_name name)))
          λ _.
            bind-Safe (managed_file (unit_name name "service")) _
              (Frame-Safe (managed_file (unit_name name "service"))
                (managed_file-Frame (unit_name name "service")))
              λ _.
                Triple-bind Good (λ _ w. Off name w.db) (λ _. Good) (on_db (set_enabled false name))
                  _
                  (on_db-Triple (λ _. Off name) IsScheduled (set_enabled false name) (off_lem name))
                  λ _.
                    Triple-bind Good (λ _ w. Off name w.db) (λ _. Good) (stop_timer outside name) _
                      (frame (Off name) (λ _ x. x.0) (stop_timer outside name)
                        (stop_timer-Frame outside name))
                      λ _.
                        Triple-bind Good (λ _. Good) (λ _. Good)
                          (if remove then remove_units outside name else pure tt) _
                          (Triple-if Good (λ _. Good) remove (remove_units outside name) (pure tt)
                            (λ _. remove_units-Safe outside name) (λ _ w h. h.0))
                          λ _.
                            db-Safe
                              (record_event name (if remove then removed else paused) (clock 0))
                              (record_event-Keeps name (if remove then removed else paused)
                                (clock 0))
