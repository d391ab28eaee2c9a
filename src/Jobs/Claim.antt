-- ===== src/Jobs/Claim.antt =====
-- `claim` and `recover` of rootfs/usr/lib/rougarou/jobs.py: which job the worker takes, and what it
-- does with the jobs of a worker that died.
use rougarou_os.Base.{
  ℕ, ◌≡◌, refl, Bool, true, false, Option, none, some, List, arith, Result, ok, inl, inr,
  Bool-cases, Option-cases, All, All-map, All-select_inv, find-mem, find-update_self, fetch_one,
  fetch_one-order_by, fetch_one-order_by-none, fetch_one-Selected, order_by, select,
}
use mathlib.Core.List.{Memᴰ}
use rougarou_os.Jobs.Schema.{running, Job, Db, OperatorError, entered}
use rougarou_os.Jobs.Store.{transaction, job_key, get_job, update_job, event}
use rougarou_os.Jobs.Ops.{claim, claim_row, start, is_due, ready_then_created}
use rougarou_os.Jobs.Step.{with_event, with_job}
use rougarou_os.Jobs.Valid.{IsValid}

ready_total : (a b : Job) → ready_then_created a b ≡ false → ready_then_created b a ≡ true
ready_total a b h = ground arith

ready_trans :
    (a b c : Job)
    → ready_then_created a b ≡ true
    → ready_then_created b c ≡ true
    → ready_then_created a c ≡ true
ready_trans a b c h k = ground arith

-- What `claim` does when nothing is due, and when something is.
pub data Claimed (clock : ℕ → ℕ) (s : Db) (r : Result OperatorError (Option Job) × Db)
    : Type 0 where
  idle : All (λ k. is_due (clock 0) k ≡ false) s.jobs → r ≡ (ok none, s) → Claimed clock s r
  took :
      (j : Job)
      → Memᴰ j s.jobs
      → is_due (clock 0) j ≡ true
      → All (λ k. is_due (clock 0) k ≡ true → ready_then_created j k ≡ true) s.jobs
      → r ≡ (
        ok (some (start (clock 1) j)),
        with_event j.id (entered running) none (clock 2) (with_job j.id (start (clock 1)) s),
      )
      → Claimed clock s r

none_selected :
    (before : Job → Job → Bool) (p : Job → Bool) (xs : List Job)
    → ((x y : Job) → before x y ≡ false → before y x ≡ true)
    → ((x y z : Job) → before x y ≡ true → before y z ≡ true → before x z ≡ true)
    → fetch_one (order_by before (select p xs)) ≡ none
    → All (λ x. p x ≡ false) xs
none_selected before p xs total trans e =
    let nothing : All (λ _. ⊥) (select p xs) =
      rw (fetch_one-order_by-none before total trans (select p xs) e) tt in
    All-map _ _ xs (λ x h. elim (Bool-cases (p x)) [ inl t ↦ absurd (h t) | inr f ↦ f ])
      (All-select_inv (λ _. ⊥) p xs nothing)

first_in_order :
    (p : Job → Bool) (xs : List Job) (j : Job)
    → fetch_one (order_by ready_then_created (select p xs)) ≡ some j
    → All (λ k. p k ≡ true → ready_then_created j k ≡ true) xs
first_in_order p xs j e =
    All-select_inv (λ k. ready_then_created j k ≡ true) p xs
      (fetch_one-order_by ready_then_created ready_total ready_trans (select p xs) j e)

-- The worker takes the waiting job that has been ready longest, the earlier submission first where
-- two became ready together, marks it running with one event and returns its new row; when nothing
-- is due the queue is left as it was.
pub claim_lem :
    (clock : ℕ → ℕ) (s : Db)
    → s.in_transaction ≡ false
    → IsValid s
    → Claimed clock s (claim clock s)
unfolding claim transaction claim_row get_job update_job event
claim_lem clock s open_none v =
    elim (Option-cases
      (fetch_one (order_by ready_then_created (select (is_due (clock 0)) s.jobs)))) [
        | inl e ↦
            idle
              (none_selected ready_then_created (is_due (clock 0)) s.jobs ready_total ready_trans e)
              (ground arith)
        | inr (j, e) ↦
            let (m, p) = fetch_one-Selected ready_then_created (is_due (clock 0)) s.jobs j e in
            took j m p (first_in_order (is_due (clock 0)) s.jobs j e) (
              ground (
                arith,
                find-update_self job_key (start (clock 1)) (λ _. refl) j.id s.jobs j,
                find-mem job_key s.jobs v.keyed m,
              ))
      ]
