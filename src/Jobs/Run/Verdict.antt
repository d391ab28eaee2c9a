-- ===== src/Jobs/Run/Verdict.antt =====
-- The outcome that `execute` of rootfs/usr/lib/rougarou/jobs.py records, and what it says.
use rougarou_os.Base.{
  ℕ, ◌+◌, ◌*◌, ◌≡◌, refl, sym, ◌∙◌, ap, Bool, true, false, Option, none, some, List, [], ◌∷◌, ℤ,
  pos, negsuc, zero, suc, is_some, is_none, is_zero, leb, ltb, not, ◌||◌, ◌-◌, arith, ◌⊎◌, inl, inr,
  Bool-cases, All, if◌then◌else◌,
}
use mathlib.Core.Path.{subst}
use rougarou_os.Jobs.Store.{second}
use rougarou_os.Jobs.Schema.{
  State, queued, running, succeeded, failed, cancelled, timed_out, interrupted, Job, Db,
  is_terminal,
}
use rougarou_os.Jobs.Run.{
  Watch, at_start, Sight, judge, press, collect, receive, reap, by_status, or_now, overdue, signal,
  sigkill, look, Round, seen, raised, beat_due, Report, broken, ended, run_rounds,
}
use rougarou_os.Jobs.Run.Turn.{seen_queue, lost, over, more, run_rounds-Turn}

-- Some round of the list passes the test.
abbrev pub SomeRound : (Sight → Type 0) → List Round → Type 0
SomeRound P [] = ⊥
SomeRound P (raised _ _ _ ∷ rounds) = SomeRound P rounds
SomeRound P (seen _ o ∷ rounds) = P o ⊎ SomeRound P rounds

-- What an outcome says, where `A` is "the worker was told to stop" and `B` is "time was up".
abbrev pub Explained : Type 0 → Type 0 → State → Option ℤ → Type 0
Explained A B succeeded code = code ≡ some (pos 0)
Explained A B interrupted code = A
Explained A B timed_out code = B
Explained A B failed code = Unit
Explained A B cancelled code = Unit
Explained A B queued code = ⊥
Explained A B running code = ⊥

-- Why a process was told to end.
abbrev Why : Type 0 → Type 0 → State → Type 0
Why A B interrupted = A
Why A B timed_out = B
Why A B cancelled = Unit
Why A B _ = ⊥

module _ (A B : Type 0) (job : Job) (deadline : ℕ) where
  -- Once the process was told to end there was a reason; until then the outcome is open.
  abbrev Told : Watch → Type 0
  Told w = is_some w.term_at ≡ true → Why A B w.outcome

  -- A sight that gives the reasons.
  abbrev Shows : Sight → Type 0
  Shows o = (o.stopping ≡ true → A) × (leb deadline o.deadline_now ≡ true → B)

  judge-Told :
      (r : Bool) (o : Sight) (w : Watch) → Shows o → Told w → Told (judge job deadline r o w)
  unfolding judge
  judge-Told r o w sh h = elim (Bool-cases (is_none w.term_at)) [
    | inr n ↦ rw n h
    | inl n ↦ rw n (elim (Bool-cases r) [
      | inl a ↦ rw a (λ _. tt)
      | inr a ↦ rw a (elim (Bool-cases o.stopping) [
        | inl b ↦ rw b (λ _. sh.0 b)
        | inr b ↦ rw b (elim (Bool-cases (leb deadline o.deadline_now)) [
          | inl c ↦ rw c (λ _. sh.1 c)
          | inr c ↦ rw c (λ t. let no : is_some w.term_at ≡ false = ground arith in cc)
        ])
      ])
    ])
  ]

  -- The other parts of a round change neither the outcome nor the time of SIGTERM.
  press-Told : (o : Sight) (w : Watch) → Told w → Told (press o w)
  unfolding press
  press-Told o w h = elim (Bool-cases (overdue o.kill_now w.term_at)) [
    | inl e ↦ rw e h
    | inr e ↦ rw e h
  ]

  collect_keeps :
      (limit : ℕ) (chunk : List ℕ) (w : Watch)
      → ((collect limit chunk w).term_at ≡ w.term_at)
        × ((collect limit chunk w).outcome ≡ w.outcome)
  unfolding collect
  collect_keeps limit chunk w = ground arith

  receive_keeps :
      (limit : ℕ) (chunk : Option (List ℕ)) (w : Watch)
      → ((receive limit chunk w).term_at ≡ w.term_at)
        × ((receive limit chunk w).outcome ≡ w.outcome)
  unfolding receive
  receive_keeps limit none w = (refl, refl)
  receive_keeps limit (some []) w = ground arith
  receive_keeps limit (some (b ∷ bs)) w = ground (arith, collect_keeps limit (b ∷ bs) w)

  receive-Told :
      (limit : ℕ) (chunk : Option (List ℕ)) (w : Watch) → Told w → Told (receive limit chunk w)
  receive-Told limit chunk w h =
      rw (receive_keeps limit chunk w).0 (rw (receive_keeps limit chunk w).1 h)

  Why-Explained : (x : State) (c : Option ℤ) → Why A B x → Explained A B x c
  Why-Explained interrupted c y = y
  Why-Explained timed_out c y = y
  Why-Explained cancelled c y = tt
  Why-Explained queued c y = absurd y
  Why-Explained running c y = absurd y
  Why-Explained succeeded c y = absurd y
  Why-Explained failed c y = tt

  zero_status : (c : ℤ) → is_zero c ≡ true → c ≡ pos 0
  zero_status (pos zero) h = refl
  zero_status (pos (suc n)) h = cc
  zero_status (negsuc n) h = cc

  by_status-Explained :
      (c : ℤ) (w : Watch) → Told w → Explained A B (by_status c w).outcome (some c)
  by_status-Explained c w h = elim (Bool-cases (is_none w.term_at)) [
    | inl n ↦ rw n (elim (Bool-cases (is_zero c)) [
      | inl z ↦ rw z (ap some (zero_status c z))
      | inr z ↦ rw z tt
    ])
    | inr n ↦
        let y : is_some w.term_at ≡ true = ground arith in
        rw n (Why-Explained w.outcome (some c) (h y))
  ]

  abbrev leaves : Sight → Watch → Bool
  leaves o w = not w.registered || ltb second (o.late_now - or_now w.exited_at o.exit_now)

  -- Where the loop ends its outcome is explained, and where it goes on the reason is kept.
  reap-Explained :
      (o : Sight) (c : Option ℤ) (w : Watch)
      → Told w
      → (reap o c w).1 ≡ true
      → Explained A B (reap o c w).0.outcome c
  unfolding reap
  reap-Explained o none w h e = cc
  reap-Explained o (some c) w h e = elim (Bool-cases (leaves o w)) [
    | inl l ↦ rw l (
        by_status-Explained c
          (signal sigkill (record w { exited_at = some (or_now w.exited_at o.exit_now) })) h)
    | inr l ↦ let stays : false ≡ true = rw l at e in cc
  ]

  reap-Told :
      (o : Sight) (c : Option ℤ) (w : Watch) → Told w → (reap o c w).1 ≡ false → Told (reap o c w).0
  unfolding reap
  reap-Told o none w h e = h
  reap-Told o (some c) w h e = elim (Bool-cases (leaves o w)) [
    | inl l ↦ let stops : true ≡ false = rw l at e in cc
    | inr l ↦ rw l h
  ]

  beaten-Told :
      (b : Bool) (n : ℕ) (w : Watch) → Told w → Told (if b then record w { beat_at = n } else w)
  beaten-Told true n w h = h
  beaten-Told false n w h = h

  look-Told :
      (limit : ℕ) (r : Bool) (o : Sight) (w : Watch)
      → Shows o
      → Told w
      → ((look limit job deadline r o w).1 ≡ true
          → Explained A B (look limit job deadline r o w).0.outcome o.code)
        × ((look limit job deadline r o w).1 ≡ false → Told (look limit job deadline r o w).0)
  unfolding look
  look-Told limit r o w sh h =
      let w1 = if beat_due o w then record w { beat_at = o.beat_after + 2 * second } else w in
      let t1 = beaten-Told (beat_due o w) (o.beat_after + 2 * second) w h in
      let t2 = judge-Told r o w1 sh t1 in
      let t3 = press-Told o (judge job deadline r o w1) t2 in
      let w4 = receive limit o.chunk (press o (judge job deadline r o w1)) in
      let t4 = receive-Told limit o.chunk (press o (judge job deadline r o w1)) t3 in
      (reap-Explained o o.code w4 t4, reap-Told o o.code w4 t4)

  abbrev RoundShows : Round → Type 0
  RoundShows (seen _ o) = Shows o
  RoundShows (raised _ _ _) = Unit

  run_rounds-Explained :
      (limit pid : ℕ) (rounds : List Round) (w : Watch) (s t : Db) (r : Report)
      → All RoundShows rounds
      → Told w
      → run_rounds limit pid job deadline rounds w s ≡ (some r, t)
      → Explained A B r.outcome r.code
  unfolding run_rounds
  run_rounds-Explained limit pid [] w s t r sh h e = cc
  run_rounds-Explained limit pid (raised before x code ∷ rounds) w s t r sh h e =
      let q : broken x code w ≡ r = cc in subst (λ y. Explained A B y.outcome y.code) q tt
  run_rounds-Explained limit pid (seen before o ∷ rounds) w s t r sh h e =
      elim (run_rounds-Turn limit pid job deadline before o rounds w s) [
        | lost f x ↦
            let q : broken "OperatorError" o.wait_code w ≡ r = cc in
            subst (λ y. Explained A B y.outcome y.code) q tt
        | over row f d x ↦
            let v = look limit job deadline row.cancel_requested o w in
            let q : ended o.code v.0 ≡ r = cc in
            subst (λ y. Explained A B y.outcome y.code) q
              ((look-Told limit row.cancel_requested o w sh.0 h).0 d)
        | more row f d x ↦
            let v = look limit job deadline row.cancel_requested o w in
            let s' = seen_queue limit pid job deadline before o rounds w s in
            run_rounds-Explained limit pid rounds v.0 s' t r sh.1
              ((look-Told limit row.cancel_requested o w sh.0 h).1 d) (sym x ∙ e)
      ]

-- The worker was told to stop when a round looked; a round looked after the deadline.
abbrev pub WasStopped : List Round → Type 0
WasStopped rounds = SomeRound (λ o. o.stopping ≡ true) rounds

abbrev pub WasLate : ℕ → List Round → Type 0
WasLate deadline rounds = SomeRound (λ o. leb deadline o.deadline_now ≡ true) rounds

rounds_show :
    (A B : Type 0) (job : Job) (deadline : ℕ) (rounds : List Round)
    → (WasStopped rounds → A)
    → (WasLate deadline rounds → B)
    → All (RoundShows A B job deadline) rounds
rounds_show A B job deadline [] f g = tt
rounds_show A B job deadline (raised _ _ _ ∷ rounds) f g =
    (tt, rounds_show A B job deadline rounds f g)
rounds_show A B job deadline (seen _ o ∷ rounds) f g = (
  (λ e. f (inl e), λ e. g (inl e)),
  rounds_show A B job deadline rounds (λ x. f (inr x)) (λ x. g (inr x)),
)

-- The outcome of a job that was watched to its end: "succeeded" only with exit status 0,
-- "interrupted" only if the worker was told to stop while it watched, "timed out" only if a round
-- found the deadline passed, and otherwise "failed" or "cancelled"; never a state that is no outcome.
pub outcome_lem :
    (limit pid : ℕ) (job : Job) (deadline : ℕ) (rounds : List Round) (s t : Db) (r : Report)
    → run_rounds limit pid job deadline rounds at_start s ≡ (some r, t)
    → Explained (WasStopped rounds) (WasLate deadline rounds) r.outcome r.code
outcome_lem limit pid job deadline rounds s t r e =
    let A = WasStopped rounds in
    let B = WasLate deadline rounds in
    run_rounds-Explained A B job deadline limit pid rounds at_start s t r
      (rounds_show A B job deadline rounds (λ x. x) (λ x. x)) (λ x. cc) e

Explained-terminal :
    (A B : Type 0) (x : State) (c : Option ℤ) → Explained A B x c → is_terminal x ≡ true
Explained-terminal A B queued c h = absurd h
Explained-terminal A B running c h = absurd h
Explained-terminal A B succeeded c h = refl
Explained-terminal A B failed c h = refl
Explained-terminal A B cancelled c h = refl
Explained-terminal A B timed_out c h = refl
Explained-terminal A B interrupted c h = refl

pub report_terminal :
    (limit pid : ℕ) (job : Job) (deadline : ℕ) (rounds : List Round) (s t : Db) (r : Report)
    → run_rounds limit pid job deadline rounds at_start s ≡ (some r, t)
    → is_terminal r.outcome ≡ true
report_terminal limit pid job deadline rounds s t r e =
    Explained-terminal _ _ r.outcome r.code (outcome_lem limit pid job deadline rounds s t r e)
