-- ===== src/Jobs/Run/End.antt =====
-- The loop of `execute` in rootfs/usr/lib/rougarou/jobs.py ends, and leaves a job with its outcome.
use rougarou_os.Base.{
  ℕ, ◌+◌, ◌*◌, ◌<◌, ◌≡◌, refl, sym, ◌∙◌, ap, Bool, true, false, Option, none, some, List, [], ◌∷◌,
  ◌++◌, ℤ, arith, if◌then◌else◌,
}
use mathlib.Core.Path.{subst}
use rougarou_os.Jobs.Schema.{Job, Db}
use rougarou_os.Jobs.Store.{second}
use rougarou_os.Jobs.Operation.{Operation}
use rougarou_os.Jobs.Run.{
  Watch, Sight, judge, press, collect, receive, reap, or_now, look, Round, seen, raised, beat_due,
  Report, run_rounds,
}
use rougarou_os.Jobs.Run.Turn.{seen_queue, lost, over, more, run_rounds-Turn}

-- When the process was first seen to have exited, through a round.
judge-exited :
    (job : Job) (d : ℕ) (r : Bool) (o : Sight) (w : Watch)
    → (judge job d r o w).exited_at ≡ w.exited_at
unfolding judge
judge-exited job d r o w = ground arith

press-exited : (o : Sight) (w : Watch) → (press o w).exited_at ≡ w.exited_at
unfolding press
press-exited o w = ground arith

collect-exited :
    (limit : ℕ) (chunk : List ℕ) (w : Watch) → (collect limit chunk w).exited_at ≡ w.exited_at
unfolding collect
collect-exited limit chunk w = ground arith

receive-exited :
    (limit : ℕ) (chunk : Option (List ℕ)) (w : Watch)
    → (receive limit chunk w).exited_at ≡ w.exited_at
unfolding receive
receive-exited limit none w = refl
receive-exited limit (some []) w = ground arith
receive-exited limit (some (b ∷ bs)) w = ground (arith, collect-exited limit (b ∷ bs) w)

reap-exited :
    (o : Sight) (c : ℤ) (w : Watch)
    → (reap o (some c) w).1 ≡ false
    → (reap o (some c) w).0.exited_at ≡ some (or_now w.exited_at o.exit_now)
unfolding reap
reap-exited o c w h = ground arith

reap-late :
    (o : Sight) (c : ℤ) (w : Watch)
    → or_now w.exited_at o.exit_now + second < o.late_now
    → (reap o (some c) w).1 ≡ true
unfolding reap
reap-late o c w h = ground arith

-- What a round whose process has exited does with that time, and that it ends the loop when more
-- than a second has passed.
module _ (limit : ℕ) (job : Job) (d : ℕ) (r : Bool) (o : Sight) (c : ℤ) (w : Watch)
    (exited : o.code ≡ some c) where
  abbrev before_reap : Watch
  before_reap = receive limit o.chunk (
      press o (
        judge job d r o
          (if beat_due o w then record w { beat_at = o.beat_after + 2 * second } else w)))

  before_reap-exited : before_reap.exited_at ≡ w.exited_at
  before_reap-exited =
      receive-exited limit o.chunk _ ∙ press-exited o _ ∙ judge-exited job d r o _ ∙ ground arith

  look-exited :
      (look limit job d r o w).1 ≡ false
      → (look limit job d r o w).0.exited_at ≡ some (or_now w.exited_at o.exit_now)
  unfolding look
  look-exited h =
      subst (λ y. (reap o y before_reap).0.exited_at ≡ some (or_now w.exited_at o.exit_now))
        (sym exited)
        (reap-exited o c before_reap (subst (λ y. (reap o y before_reap).1 ≡ false) exited h)
          ∙ ap (λ x. some (or_now x o.exit_now)) before_reap-exited)

  look-late :
      or_now w.exited_at o.exit_now + second < o.late_now → (look limit job d r o w).1 ≡ true
  unfolding look
  look-late h =
      subst (λ y. (reap o y before_reap).1 ≡ true) (sym exited)
        (reap-late o c before_reap
          (subst (λ x. or_now x o.exit_now + second < o.late_now) (sym before_reap-exited) h))

reap-running : (o : Sight) (w : Watch) → (reap o none w).0.exited_at ≡ w.exited_at
unfolding reap
reap-running o w = refl

-- A round that finds the process running leaves that time alone.
pub running-exited :
    (limit : ℕ) (job : Job) (d : ℕ) (r : Bool) (o : Sight) (w : Watch)
    → o.code ≡ none
    → (look limit job d r o w).0.exited_at ≡ w.exited_at
unfolding look
running-exited limit job d r o w running =
    let w1 = if beat_due o w then record w { beat_at = o.beat_after + 2 * second } else w in
    let w4 = receive limit o.chunk (press o (judge job d r o w1)) in
    subst (λ y. (reap o y w4).0.exited_at ≡ w.exited_at) (sym running)
      (reap-running o w4
        ∙ receive-exited limit o.chunk _
        ∙ press-exited o _
        ∙ judge-exited job d r o _
        ∙ ground arith)

-- In every round of the list that looks, the process has exited.
abbrev pub AllExited : List Round → Type 0
AllExited [] = Unit
AllExited (raised _ _ _ ∷ rounds) = AllExited rounds
AllExited (seen _ o ∷ rounds) = ((c : ℤ) × (o.code ≡ some c)) × AllExited rounds

abbrev pub Ends : Option Report × Db → Type 0
Ends x = (r : Report) × (t : Db) × (x ≡ (some r, t))

module _ (limit pid : ℕ) (job : Job) (d : ℕ) (before : List Operation) (o : Sight) (c : ℤ)
    (exited : o.code ≡ some c) where
  last-Ends :
      (w : Watch) (s : Db)
      → or_now w.exited_at o.exit_now + second < o.late_now
      → Ends (run_rounds limit pid job d (seen before o ∷ []) w s)
  last-Ends w s late = elim (run_rounds-Turn limit pid job d before o [] w s) [
    | lost f x ↦ (_, _, x)
    | over row f e x ↦ (_, _, x)
    | more row f e x ↦ let no = look-late limit job d row.cancel_requested o c w exited late in cc
  ]

  rest-Ends :
      (since : ℕ) (rounds : List Round) (w : Watch) (s : Db)
      → AllExited rounds
      → w.exited_at ≡ some since
      → since + second < o.late_now
      → Ends (run_rounds limit pid job d (rounds ++ seen before o ∷ []) w s)
  unfolding run_rounds
  rest-Ends since [] w s a e late = last-Ends w s (rw e late)
  rest-Ends since (raised b x y ∷ rounds) w s a e late = (_, _, refl)
  rest-Ends since (seen b p ∷ rounds) w s a e late =
      elim (run_rounds-Turn limit pid job d b p (rounds ++ seen before o ∷ []) w s) [
        | lost f x ↦ (_, _, x)
        | over row f g x ↦ (_, _, x)
        | more row f g x ↦
            let v = look limit job d row.cancel_requested p w in
            let s' = seen_queue limit pid job d b p rounds w s in
            let e' : v.0.exited_at ≡ some since =
              look-exited limit job d row.cancel_requested p a.0.0 w a.0.1 g
              ∙ ap (λ y. some (or_now y p.exit_now)) e in
            let (r, t, z) = rest-Ends since rounds v.0 s' a.1 e' late in (r, t, x ∙ z)
      ]

-- Once the process has exited the loop ends: when a round has seen it exited, and a later round
-- looks more than a second after that, the job has its report by then, whether or not the output
-- was closed, and whatever other processes do to the queue.
pub exit-Ends :
    (limit pid : ℕ) (job : Job) (d : ℕ) (b b' : List Operation) (p o : Sight) (rounds : List Round)
    (c c' : ℤ) (w : Watch) (s : Db)
    → w.exited_at ≡ none
    → p.code ≡ some c
    → AllExited rounds
    → o.code ≡ some c'
    → p.exit_now + second < o.late_now
    → Ends (run_rounds limit pid job d (seen b p ∷ (rounds ++ seen b' o ∷ [])) w s)
exit-Ends limit pid job d b b' p o rounds c c' w s start exited a exited' late =
    elim (run_rounds-Turn limit pid job d b p (rounds ++ seen b' o ∷ []) w s) [
      | lost f x ↦ (_, _, x)
      | over row f g x ↦ (_, _, x)
      | more row f g x ↦
          let v = look limit job d row.cancel_requested p w in
          let s' = seen_queue limit pid job d b p rounds w s in
          let e' : v.0.exited_at ≡ some p.exit_now =
            look-exited limit job d row.cancel_requested p c w exited g
            ∙ ap (λ y. some (or_now y p.exit_now)) start in
          let (r, t, z) =
            rest-Ends limit pid job d b' o c' exited' p.exit_now rounds v.0 s' a e' late in
          (r, t, x ∙ z)
    ]
