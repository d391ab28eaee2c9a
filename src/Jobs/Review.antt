-- ===== src/Jobs/Review.antt =====
-- `acknowledge` of rootfs/usr/lib/rougarou/jobs.py: what a review of unsuccessful jobs clears.
use rougarou_os.Base.{
  ℕ, String, ◌≡◌, refl, Bool, true, false, Option, none, some, List, map, find, first, Result, ok,
  err, is_some, is_none, same, All, ◌&&◌,
}
use rougarou_os.Jobs.Schema.{
  needs_attention, same_state, Job, Db, OperatorError, Acknowledgment, unknown_job, not_reviewable,
}
use rougarou_os.Jobs.Store.{job_key}
use rougarou_os.Jobs.Ops.{is_unreviewed, is_chosen, unreviewed_rows}

unfoldable pub concerns : Job → Acknowledgment → Bool
concerns j a = same a.job_id j.id && same_state a.state j.state

-- An acknowledgment of this job in this state is recorded.
abbrev pub IsReviewed : Db → Job → Type 0
IsReviewed s j = is_some (first (concerns j) s.job_acknowledgments) ≡ true

is_unreviewed_lem :
    (s : Db) (j : Job)
    → is_unreviewed s j
      ≡ (needs_attention j.state && is_none (first (concerns j) s.job_acknowledgments))
unfolding is_unreviewed concerns
is_unreviewed_lem s j = refl

abbrev note : ℕ → Job → Acknowledgment
note now j = record { job_id = j.id; state = j.state; acknowledged_at = now }

-- What the loop over the rows leaves behind.
record Reviewing (rows : List Job) (s : Db) (r : Result OperatorError (Unit {0}) × Db)
    : Type 0 where
  returns : r.0 ≡ ok tt
  jobs : r.1.jobs ≡ s.jobs
  stays : All (λ j. IsReviewed s j → IsReviewed r.1 j) s.jobs
  reaches : All (IsReviewed r.1) rows

-- What `acknowledge` returns and leaves behind where it does not raise.
pub record Acknowledging (chosen : Option String) (s : Db)
    (r : Result OperatorError (List String) × Db) : Type 0 where
  pub returns : r.0 ≡ ok (map job_key (unreviewed_rows chosen s))
  pub jobs : r.1.jobs ≡ s.jobs
  pub closes : r.1.in_transaction ≡ false
  pub stays : All (λ j. IsReviewed s j → IsReviewed r.1 j) s.jobs
  pub clears : All (λ j. is_chosen chosen j ≡ true → is_unreviewed r.1 j ≡ false) s.jobs

-- The jobs to review are all, or the named one, which is failed, timed out or interrupted.
abbrev pub IsReviewable : Option String → Db → Type 0
IsReviewable none s = Unit
IsReviewable (some id) s =
    (row : Job) × (find job_key id s.jobs ≡ some row) × (needs_attention row.state ≡ true)

pub data Acknowledged (clock : ℕ → ℕ) (s : Db)
    : Option String → Result OperatorError (List String) × Db → Type 0 where
  unknown :
      (id : String) (r : Result OperatorError (List String) × Db)
      → find job_key id s.jobs ≡ none
      → r ≡ (err (unknown_job id), s)
      → Acknowledged clock s (some id) r
  refused :
      (id : String) (row : Job) (r : Result OperatorError (List String) × Db)
      → find job_key id s.jobs ≡ some row
      → needs_attention row.state ≡ false
      → r ≡ (err not_reviewable, s)
      → Acknowledged clock s (some id) r
  done :
      (chosen : Option String) (r : Result OperatorError (List String) × Db)
      → IsReviewable chosen s
      → Acknowledging chosen s r
      → Acknowledged clock s chosen r
