-- ===== src/Jobs/Run/Log.antt =====
-- The log that `execute` of rootfs/usr/lib/rougarou/jobs.py writes, against the process's output.
use rougarou_os.Base.{
  ℕ, suc, zero, ◌+◌, ◌*◌, ◌-◌, ◌≤◌, ◌≡◌, refl, ap, sym, ◌∙◌, Bool, true, false, Option, none, some,
  List, [], ◌∷◌, ◌++◌, take, length, length-append, min, ltb, ◌&&◌, not, arith, if◌then◌else◌, inl,
  inr, Bool-cases, ℤ,
}
use mathlib.Core.List.{append-nil, append_assoc}
use mathlib.Core.Path.{subst}
use native.Mathlib.Nat.{zero-sub, sub-zero, suc-sub-suc}
use rougarou_os.Jobs.Schema.{Job, Db}
use rougarou_os.Jobs.Store.{second}
use rougarou_os.Jobs.Run.{
  marker, Watch, at_start, Sight, judge, press, collect, receive, reap, look, Round, seen, raised,
  beat_due, Report, broken, ended, run_rounds,
}
use rougarou_os.Jobs.Run.Turn.{seen_queue, lost, over, more, run_rounds-Turn}

-- What is kept of an output: its first bytes, and the marker where there were more.
unfoldable pub clip : ℕ → List ℕ → List ℕ
clip limit all = take limit all ++ (if ltb limit (length all) then marker else [])

-- The watch has seen the output `all`.
record HasSeen (limit : ℕ) (all : List ℕ) (w : Watch) : Type 0 where
  log : w.log ≡ clip limit all
  written : w.written ≡ min (length all) limit
  truncated : w.truncated ≡ ltb limit (length all)

take-append : (n : ℕ) (xs ys : List ℕ) → take n (xs ++ ys) ≡ take n xs ++ take (n - length xs) ys
take-append zero xs ys = rw zero-sub refl
take-append (suc n) [] ys = rw sub-zero refl
take-append (suc n) (x ∷ xs) ys = rw suc-sub-suc (ap (λ l. x ∷ l) (take-append n xs ys))

take-all : (n : ℕ) (xs : List ℕ) → length xs ≤ n → take n xs ≡ xs
take-all zero [] h = refl
take-all zero (x ∷ xs) h = absurd (omega arith)
take-all (suc n) [] h = refl
take-all (suc n) (x ∷ xs) h = ap (λ l. x ∷ l) (take-all n xs (omega arith))

collect-log :
    (limit : ℕ) (chunk : List ℕ) (w : Watch)
    → (collect limit chunk w).log
      ≡ (w.log ++ take (limit - w.written) chunk)
        ++ (if ltb (limit - w.written) (length chunk) && not w.truncated then marker else [])
unfolding collect
collect-log limit chunk w = elim (Bool-cases (ltb 0 (limit - w.written))) [
  | inl p ↦ rw p (elim (Bool-cases (ltb (limit - w.written) (length chunk) && not w.truncated)) [
    | inl q ↦ rw q refl
    | inr q ↦ rw q (rw append-nil refl)
  ])
  | inr p ↦
      let full : limit - w.written ≡ 0 = ground arith in
      rw (full) (elim (Bool-cases (ltb 0 (length chunk) && not w.truncated)) [
        | inl q ↦ rw q (rw append-nil refl)
        | inr q ↦ rw q (simp append-nil)
      ])
]

log_of_parts :
    (limit : ℕ) (all chunk : List ℕ)
    → ((take limit all ++ (if ltb limit (length all) then marker else []))
          ++ take (limit - length all) chunk)
        ++ (if ltb (limit - length all) (length chunk) && not (ltb limit (length all))
            then marker
            else [])
      ≡ take limit (all ++ chunk) ++ (if ltb limit (length (all ++ chunk)) then marker else [])
log_of_parts limit all chunk = elim (Bool-cases (ltb limit (length all))) [
  | inl p ↦
      let full : limit - length all ≡ 0 = ground arith in
      let over : ltb limit (length (all ++ chunk)) ≡ true =
        ground (arith, length-append all chunk) in
      let off : (ltb (limit - length all) (length chunk) && false) ≡ false = ground arith in
      rw (take-append limit all chunk, over, p, off, full) (simp append-nil)
  | inr p ↦
      let same_test : ltb limit (length (all ++ chunk)) ≡ ltb (limit - length all) (length chunk) =
        ground (arith, length-append all chunk) in
      rw (take-append limit all chunk, same_test, p)
        (elim (Bool-cases (ltb (limit - length all) (length chunk))) [
          | inl q ↦ rw q (simp append-nil)
          | inr q ↦ rw q (simp append-nil)
        ])
]

collect-HasSeen :
    (limit : ℕ) (all chunk : List ℕ) (w : Watch)
    → HasSeen limit all w
    → HasSeen limit (all ++ chunk) (collect limit chunk w)
unfolding collect clip
collect-HasSeen limit all chunk w h =
    let room : limit - w.written ≡ limit - length all = omega (arith, h.written) in
    record {
      log =
          collect-log limit chunk w ∙ rw (room, h.truncated, h.log) (log_of_parts limit all chunk);
      written = ground (arith, length-append all chunk, h.written, h.truncated);
      truncated = ground (arith, length-append all chunk, h.written, h.truncated);
    }

-- The output that rounds of the loop read, up to its end.
abbrev read_now : Option (List ℕ) → Bool → List ℕ
read_now none b = []
read_now (some bs) b = if b then bs else []

abbrev still : Option (List ℕ) → Bool → Bool
still (some []) b = false
still _ b = b

unfoldable pub output : Bool → List Round → List ℕ
output registered [] = []
output registered (raised _ _ _ ∷ rounds) = []
output registered (seen _ o ∷ rounds) =
    read_now o.chunk registered ++ output (still o.chunk registered) rounds

HasSeen-same :
    (limit : ℕ) (all : List ℕ) (v w : Watch)
    → w.log ≡ v.log
    → w.written ≡ v.written
    → w.truncated ≡ v.truncated
    → HasSeen limit all v
    → HasSeen limit all w
HasSeen-same limit all v w l n t h = record {
  log = l ∙ h.log;
  written = n ∙ h.written;
  truncated = t ∙ h.truncated;
}

collect-registered :
    (limit : ℕ) (chunk : List ℕ) (w : Watch) → (collect limit chunk w).registered ≡ w.registered
unfolding collect
collect-registered limit chunk w = ground arith

receive-HasSeen :
    (limit : ℕ) (all : List ℕ) (chunk : Option (List ℕ)) (w : Watch)
    → HasSeen limit all w
    → HasSeen limit (all ++ read_now chunk w.registered) (receive limit chunk w)
      × ((receive limit chunk w).registered ≡ still chunk w.registered)
unfolding receive
receive-HasSeen limit all none w h = (rw append-nil h, ground arith)
receive-HasSeen limit all (some []) w h = elim (Bool-cases w.registered) [
  | inl e ↦ simp (e, append-nil) (HasSeen-same limit all w _ refl refl refl h, refl)
  | inr e ↦ simp (e, append-nil) (h, refl)
]
receive-HasSeen limit all (some (b ∷ bs)) w h = elim (Bool-cases w.registered) [
  | inl e ↦ simp e (collect-HasSeen limit all (b ∷ bs) w h, collect-registered limit (b ∷ bs) w ∙ e)
  | inr e ↦ simp (e, append-nil) (h, refl)
]

-- The other parts of a round leave what was received alone.
record Untouched (v w : Watch) : Type 0 where
  log : w.log ≡ v.log
  written : w.written ≡ v.written
  truncated : w.truncated ≡ v.truncated
  registered : w.registered ≡ v.registered

judge-Untouched :
    (job : Job) (d : ℕ) (r : Bool) (o : Sight) (w : Watch) → Untouched w (judge job d r o w)
unfolding judge
judge-Untouched job d r o w = ground arith

press-Untouched : (o : Sight) (w : Watch) → Untouched w (press o w)
unfolding press
press-Untouched o w = ground arith

reap-Untouched : (o : Sight) (c : Option ℤ) (w : Watch) → Untouched w (reap o c w).0
unfolding reap
reap-Untouched o none w = ground arith
reap-Untouched o (some c) w = ground arith

look-HasSeen :
    (limit : ℕ) (all : List ℕ) (job : Job) (d : ℕ) (r : Bool) (o : Sight) (w : Watch)
    → HasSeen limit all w
    → HasSeen limit (all ++ read_now o.chunk w.registered) (look limit job d r o w).0
      × ((look limit job d r o w).0.registered ≡ still o.chunk w.registered)
unfolding look
look-HasSeen limit all job d r o w h =
    let w1 = if beat_due o w then record w { beat_at = o.beat_after + 2 * second } else w in
    let u1 : Untouched w w1 = ground arith in
    let w2 = judge job d r o w1 in
    let u2 = judge-Untouched job d r o w1 in
    let w3 = press o w2 in
    let u3 = press-Untouched o w2 in
    let w4 = receive limit o.chunk w3 in
    let u5 = reap-Untouched o o.code w4 in
    let h3 : HasSeen limit all w3 = record {
      log = u3.log ∙ u2.log ∙ u1.log ∙ h.log;
      written = u3.written ∙ u2.written ∙ u1.written ∙ h.written;
      truncated = u3.truncated ∙ u2.truncated ∙ u1.truncated ∙ h.truncated;
    } in
    let e3 : w3.registered ≡ w.registered = u3.registered ∙ u2.registered ∙ u1.registered in
    let (h4, e4) = receive-HasSeen limit all o.chunk w3 h3 in
    (
      HasSeen-same limit _ w4 _ u5.log u5.written u5.truncated
          (subst (λ b. HasSeen limit (all ++ read_now o.chunk b) w4) e3 h4),
      u5.registered ∙ subst (λ b. w4.registered ≡ still o.chunk b) e3 e4,
    )

HasSeen-at_start : (limit : ℕ) → HasSeen limit [] at_start
unfolding clip
HasSeen-at_start zero = record { log = refl; written = refl; truncated = refl }
HasSeen-at_start (suc n) =
    let z : ltb (suc n) 0 ≡ false = ground arith in
    record { log = rw z refl; written = omega arith; truncated = sym z }

run_rounds-log :
    (limit pid : ℕ) (job : Job) (deadline : ℕ) (all : List ℕ) (rounds : List Round) (w : Watch)
    (s t : Db) (r : Report)
    → HasSeen limit all w
    → run_rounds limit pid job deadline rounds w s ≡ (some r, t)
    → (k : ℕ) × (r.log ≡ clip limit (all ++ output w.registered (take k rounds)))
unfolding run_rounds output
run_rounds-log limit pid job deadline all [] w s t r h e = cc
run_rounds-log limit pid job deadline all (raised before error code ∷ rounds) w s t r h e =
    let q : broken error code w ≡ r = cc in
    (0, sym (ap (λ x. x.log) q) ∙ h.log ∙ ap (clip limit) (sym (append-nil all)))
run_rounds-log limit pid job deadline all (seen before o ∷ rounds) w s t r h e =
    elim (run_rounds-Turn limit pid job deadline before o rounds w s) [
      | lost f x ↦
          let q : broken "OperatorError" o.wait_code w ≡ r = cc in
          (0, sym (ap (λ y. y.log) q) ∙ h.log ∙ ap (clip limit) (sym (append-nil all)))
      | over row f d x ↦
          let v = look limit job deadline row.cancel_requested o w in
          let (h', still_open) = look-HasSeen limit all job deadline row.cancel_requested o w h in
          let q : ended o.code v.0 ≡ r = cc in
          (
            1,
            sym (ap (λ y. y.log) q)
                ∙ h'.log
                ∙ ap (λ l. clip limit (all ++ l))
                    (sym (append-nil (read_now o.chunk w.registered))),
          )
      | more row f d x ↦
          let v = look limit job deadline row.cancel_requested o w in
          let s' = seen_queue limit pid job deadline before o rounds w s in
          let (h', still_open) = look-HasSeen limit all job deadline row.cancel_requested o w h in
          let (k, l) = run_rounds-log limit pid job deadline _ rounds v.0 s' t r h' (sym x ∙ e) in
          (
            suc k,
            l
                ∙ ap (clip limit) (
                    append_assoc all (read_now o.chunk w.registered)
                      (output v.0.registered (take k rounds))
                    ∙ ap (λ b. all ++ (read_now o.chunk w.registered ++ output b (take k rounds)))
                        still_open),
          )
    ]

-- The log of a job that ended is its output up to the end of what the worker read, cut at the limit
-- and with the marker behind it exactly when there was more: for some number of rounds `k`, it is
-- `clip` of the bytes those rounds read, at any limit.
pub log_lem :
    (limit pid : ℕ) (job : Job) (deadline : ℕ) (rounds : List Round) (s t : Db) (r : Report)
    → run_rounds limit pid job deadline rounds at_start s ≡ (some r, t)
    → (k : ℕ) × (r.log ≡ clip limit (output true (take k rounds)))
log_lem limit pid job deadline rounds s t r e =
    run_rounds-log limit pid job deadline [] rounds at_start s t r (HasSeen-at_start limit) e

length-take : (n : ℕ) (xs : List ℕ) → length (take n xs) ≤ n
length-take zero xs = omega arith
length-take (suc n) [] = omega arith
length-take (suc n) (x ∷ xs) = omega (arith, length-take n xs)

-- A log file never holds more than the limit and the marker.
pub log-le-limit :
    (limit pid : ℕ) (job : Job) (deadline : ℕ) (rounds : List Round) (s t : Db) (r : Report)
    → run_rounds limit pid job deadline rounds at_start s ≡ (some r, t)
    → length r.log ≤ limit + length marker
unfolding clip
log-le-limit limit pid job deadline rounds s t r e =
    let (k, l) = log_lem limit pid job deadline rounds s t r e in
    let all = output true (take k rounds) in
    rw (l, length-append (take limit all) (if ltb limit (length all) then marker else []))
      (elim (Bool-cases (ltb limit (length all))) [
        | inl p ↦ rw p (omega (arith, length-take limit all))
        | inr p ↦ rw p (omega (arith, length-take limit all))
      ])
