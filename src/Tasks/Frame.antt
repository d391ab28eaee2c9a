-- ===== src/Tasks/Frame.antt =====
-- The parts of rootfs/usr/lib/rougarou/tasks.py that leave the database alone.
use rougarou_os.Base.{
  String, ◌≡◌, refl, sym, ◌∙◌, ◌||◌, continue, Bool, true, false, not, Option, none, some, [], ◌∷◌,
  ◌&&◌, find, is_some, Post, Triple, Result, ok, err, pure, require, ◌>>=◌, if◌then◌else◌,
  starts_with, ◌==◌,
}
use mathlib.Core.Path.{subst}
use rougarou_os.Jobs.Schema.{
  Task, Db, OperatorError, command_missing, not_regular, not_private, unmanaged_unit, os_error,
  worker_inactive, workspace_unavailable, codex_unauthenticated,
}
use rougarou_os.Jobs.Store.{Op}
use rougarou_os.Tasks.Store.{
  Outside, World, UnitFile, TaskOp, on_db, put_db, Call, disable_now, is_active, Reply, returned,
  timed_out, not_run, Provider, codex, responses, ollama, custom, Spec, command_spec, ai_spec,
  systemctl, checked, reply_error, managed_file, managed_unit, check_regular, replaceable, unit_key,
  atomic_write, unlink, marker,
}
use rougarou_os.Tasks.Ops.{
  ready, worker_answers, decoded, spec_ready, provider_ready, logged_in, not_refused,
  require_command,
}
use rougarou_os.Tasks.Units.{
  write_units, stop_timer, service_name, timer_name, service_text, timer_text,
}

-- The operation leaves the database as it is, whether it returns or raises.
abbrev pub Frame : {A : Type 0} → TaskOp A → Type 0
Frame m = (w : World) → (m w).1.db ≡ w.db

unmoved :
    {A : Type 0} (P : Db → Type 0) (x : Result OperatorError A × World)
    → P x.1.db
    → Post (λ _ w. P w.db) (λ w. P w.db) x
unmoved P (ok a, w) h = h
unmoved P (err e, w) h = h

pub Frame-Triple :
    {A : Type 0} (P : Db → Type 0) (m : TaskOp A)
    → Frame m
    → Triple (λ w. P w.db) m (λ _ w. P w.db) (λ w. P w.db)
Frame-Triple P m f w h = unmoved P (m w) (subst P (sym (f w)) h)

put_db-Post :
    {A : Type 0} (Q : A → Db → Type 0) (R : Db → Type 0) (w : World)
    (x : Result OperatorError A × Db)
    → Post Q R x
    → Post (λ a v. Q a v.db) (λ v. R v.db) (put_db w x)
put_db-Post Q R w (ok a, s) h = h
put_db-Post Q R w (err e, s) h = h

pub on_db-Triple :
    {A : Type 0} {P : Db → Type 0} (Q : A → Db → Type 0) (R : Db → Type 0) (m : Op A)
    → Triple P m Q R
    → Triple (λ w. P w.db) (on_db m) (λ a w. Q a w.db) (λ w. R w.db)
unfolding on_db
on_db-Triple Q R m h w p = put_db-Post Q R w (m w.db) (h w.db p)

continue-db :
    {A B : Type 0} (f : A → TaskOp B) (x : Result OperatorError A × World) (s : Db)
    → x.1.db ≡ s
    → ((a : A) → Frame (f a))
    → (continue f x.0 x.1).1.db ≡ s
continue-db f (ok a, w) s h g = g a w ∙ h
continue-db f (err e, w) s h g = h

Frame-bind :
    {A B : Type 0} (m : TaskOp A) (f : A → TaskOp B)
    → Frame m
    → ((a : A) → Frame (f a))
    → Frame (m >>= f)
Frame-bind m f h g w = continue-db f (m w) w.db (h w) g

Frame-require : (b : Bool) (e : OperatorError) → Frame (require b e)
Frame-require true e w = refl
Frame-require false e w = refl

Frame-checked : (o : Option OperatorError) → Frame (checked o)
Frame-checked none w = refl
Frame-checked (some e) w = refl

pub systemctl-Frame : (outside : Outside) (call : Call) → Frame (systemctl outside call)
unfolding systemctl
systemctl-Frame outside call w = Frame-checked (reply_error (outside.manager call)) _

check_regular-Frame : (private : Bool) (u : UnitFile) → Frame (check_regular private u)
check_regular-Frame private u =
    Frame-bind (require (u.is_regular && u.is_owned) not_regular) _
      (Frame-require (u.is_regular && u.is_owned) not_regular)
      λ _. Frame-require (not private || u.is_private) not_private

managed_unit-Frame : (o : Option UnitFile) → Frame (managed_unit o)
managed_unit-Frame none w = refl
managed_unit-Frame (some u) w =
    Frame-bind (check_regular true u) _ (check_regular-Frame true u)
      (λ _. Frame-require (starts_with u.contents marker) unmanaged_unit) w

pub managed_file-Frame : (name : String) → Frame (managed_file name)
unfolding managed_file
managed_file-Frame name w = managed_unit-Frame (find unit_key name w.units) w

replaceable-Frame : (o : Option UnitFile) → Frame (replaceable o)
replaceable-Frame none w = refl
replaceable-Frame (some u) w = check_regular-Frame false u w

pub unlink-Frame : (outside : Outside) (name : String) → Frame (unlink outside name)
unfolding unlink
unlink-Frame outside name =
    Frame-bind (require (outside.is_writable name) os_error) _
      (Frame-require (outside.is_writable name) os_error) λ _ w. refl

atomic_write-Frame :
    (outside : Outside) (name contents : String) → Frame (atomic_write outside name contents)
unfolding atomic_write
atomic_write-Frame outside name contents w =
    Frame-bind (replaceable (find unit_key name w.units)) _
      (replaceable-Frame (find unit_key name w.units))
      (λ _.
        Frame-bind (require (outside.is_writable name) os_error) _
          (Frame-require (outside.is_writable name) os_error) λ _ w. refl)
      w

pub write_units-Frame : (outside : Outside) (task : Task) → Frame (write_units outside task)
unfolding write_units
write_units-Frame outside task =
    Frame-bind (managed_file (service_name task)) _ (managed_file-Frame (service_name task)) λ _.
      Frame-bind (managed_file (timer_name task.name)) _ (managed_file-Frame (timer_name task.name))
        λ _.
          Frame-bind (atomic_write outside (service_name task) (service_text outside task)) _
            (atomic_write-Frame outside (service_name task) (service_text outside task))
            λ _. atomic_write-Frame outside (timer_name task.name) (timer_text task)

worker_answers-Frame : (r : Reply) → Frame (worker_answers r)
worker_answers-Frame (returned c) w = Frame-require (c == 0) worker_inactive w
worker_answers-Frame timed_out w = refl
worker_answers-Frame not_run w = refl

logged_in-Frame : (r : Reply) → Frame (logged_in r)
logged_in-Frame (returned c) w = Frame-require (c == 0) codex_unauthenticated w
logged_in-Frame timed_out w = refl
logged_in-Frame not_run w = refl

provider_ready-Frame : (outside : Outside) (p : Provider) → Frame (provider_ready outside p)
provider_ready-Frame outside codex w = logged_in-Frame outside.login w
provider_ready-Frame outside (responses a b c) w = refl
provider_ready-Frame outside (ollama a) w = refl
provider_ready-Frame outside (custom a) w = refl

not_refused-Frame : (o : Option OperatorError) → Frame (not_refused o)
not_refused-Frame none w = refl
not_refused-Frame (some e) w = refl

spec_ready-Frame : (outside : Outside) (spec : Spec) → Frame (spec_ready outside spec)
spec_ready-Frame outside (command_spec []) w = refl
spec_ready-Frame outside (command_spec (x ∷ xs)) w =
    Frame-require (outside.is_installed x) (command_missing x) w
spec_ready-Frame outside (ai_spec provider prompt sandbox model) w =
    Frame-bind (require_command outside "codex") _
      (Frame-require (outside.is_installed "codex") (command_missing "codex"))
      (λ _.
        Frame-bind (not_refused (outside.refuses provider)) _
          (not_refused-Frame (outside.refuses provider)) λ _. provider_ready-Frame outside provider)
      w

decoded-Frame : (o : Option Spec) → Frame (decoded o)
decoded-Frame none w = refl
decoded-Frame (some x) w = refl

pub ready-Frame : (outside : Outside) (task : Task) → Frame (ready outside task)
unfolding ready
ready-Frame outside task w =
    Frame-bind (worker_answers (outside.manager is_active)) _
      (worker_answers-Frame (outside.manager is_active))
      (λ _.
        Frame-bind (require (outside.paths.is_dir task.workspace) workspace_unavailable) _
          (Frame-require (outside.paths.is_dir task.workspace) workspace_unavailable)
          λ _.
            Frame-bind (decoded (outside.loads task.spec)) _
              (decoded-Frame (outside.loads task.spec)) (spec_ready-Frame outside))
      _

Frame-if : {A : Type 0} (b : Bool) (m n : TaskOp A) → Frame m → Frame n → Frame (if b then m else n)
Frame-if true m n f g w = f w
Frame-if false m n f g w = g w

pub stop_timer-Frame : (outside : Outside) (name : String) → Frame (stop_timer outside name)
unfolding stop_timer
stop_timer-Frame outside name w =
    Frame-if (is_some (find unit_key (timer_name name) w.units))
      (systemctl outside (disable_now (timer_name name))) (pure tt)
      (systemctl-Frame outside (disable_now (timer_name name))) (λ _. refl) w
