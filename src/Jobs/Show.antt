-- ===== src/Jobs/Show.antt =====
-- `snapshot`, `safe_text`, `log_path` and the list, retry and logs commands of
-- rootfs/usr/lib/rougarou/jobs.py.
mod Tests
use Prim.Native.Nat.{◌/◌, ◌%◌}
use rougarou_os.Base.{
  zero, suc, ℕ, ℤ, pos, ◌+◌, ◌-◌, Bool, true, false, not, ◌&&◌, ◌||◌, Option, none, some, List, [],
  ◌∷◌, ◌++◌, ◌==◌, ltb, leb, length, take, all, codes, String, select, first, order_by, is_some,
  same, Result, ok, err, gets, require, ◌>>=◌, ◌>>◌, Text, if◌then◌else◌, in_range,
}
use rougarou_os.Jobs.Schema.{
  State, is_terminal, needs_attention, same_state, succeeded, Job, Heartbeat, Acknowledgment, Db,
  OperatorError, invalid_job_id, not_retryable, bad_limit, bad_tail, invalid_json,
}
use rougarou_os.Jobs.Store.{Op, get_job, or_raise}
use rougarou_os.Jobs.Ops.{Paths, Request, submit, is_unreviewed}

-- `SELECT state,COUNT(*) ... GROUP BY state`, where a state without a row has 0.
unfoldable pub count : State → List Job → ℕ
count s [] = 0
count s (j ∷ js) = let rest = count s js in if same_state j.state s then 1 + rest else rest

-- The age is in the clock's unit, before it is rounded for a reader.
pub record Report : Type 0 where
  pub counts : State → ℕ
  pub attention_counts : State → ℕ
  pub worker : Option (Heartbeat × ℕ)

abbrev aged : ℕ → Option Heartbeat → Option (Heartbeat × ℕ)
aged now none = none
aged now (some h) = some (h, now - h.heartbeat)

-- An old queue has no table of acknowledgments, and is read as it is.
abbrev pub attention : Bool → Db → State → ℕ
attention has_acknowledgments db s =
    if has_acknowledgments
    then count s (select (is_unreviewed db) db.jobs)
    else if needs_attention s
    then count s db.jobs
    else 0

unfoldable pub snapshot : ℕ → Bool → Option Db → Report
snapshot now has_acknowledgments none = record {
  counts = λ s. 0;
  attention_counts = λ s. 0;
  worker = none;
}
snapshot now has_acknowledgments (some db) = record {
  counts = λ s. count s db.jobs;
  attention_counts = attention has_acknowledgments db;
  worker = aged now db.worker;
}

abbrev hex_digit : ℕ → ℕ
hex_digit n = if ltb n 10 then 48 + n else 87 + n

-- A number in hexadecimal, of at most so many digits and at least two; a code point has six at most.
unfoldable pub hex_text : ℕ → ℕ → Text
hex_text zero n = []
hex_text (suc k) n =
    let higher = hex_text k (n / 16) in if n == 0 then [] else higher ++ hex_digit (n % 16) ∷ []

abbrev pub two_digits : ℕ → Text
two_digits n = if ltb n 16 then 48 ∷ hex_digit n ∷ [] else hex_text 6 n

abbrev pub is_shown : (ℕ → Bool) → ℕ → Bool
is_shown is_printable c = (c == 10) || (c == 9) || (is_printable c && not (c == 127))

-- `is_printable` is `str.isprintable`.
unfoldable pub safe_text : (ℕ → Bool) → Text → Text
safe_text is_printable [] = []
safe_text is_printable (c ∷ t) =
    let rest = safe_text is_printable t in
    if is_shown is_printable c then c ∷ rest else codes "\\x" ++ two_digits c ++ rest

abbrev is_hex : ℕ → Bool
is_hex c = (leb 48 c && leb c 57) || (leb 97 c && leb c 102)

-- The name in the directory of logs.
unfoldable pub log_name : Text → Result OperatorError Text
log_name id =
    if length id == 16 && all is_hex id then ok (id ++ codes ".log") else err invalid_job_id

-- `deque(lines, maxlen=count)`
unfoldable pub last_lines : ℕ → List Text → List Text
last_lines n [] = []
last_lines n (l ∷ ls) = let rest = last_lines n ls in if ltb (length ls) n then l ∷ ls else rest

unfoldable pub tail_of : ℤ → Text → Option (List Text) → Result OperatorError (List Text)
tail_of n id lines = within (in_range 1 10000 n) (log_name id) lines
  where
    within :
        Option ℕ → Result OperatorError Text → Option (List Text) → Result OperatorError (List Text)
    within none path lines = err bad_tail
    within (some n) (err e) lines = err e
    within (some n) (ok path) none = ok []
    within (some n) (ok path) (some ls) = ok (last_lines n ls)

abbrev pub newest_first : Job → Job → Bool
newest_first j k = leb k.created j.created

abbrev is_at : Job → Acknowledgment → Bool
is_at j a = same a.job_id j.id && same_state a.state j.state

-- The jobs, each with whether its state is acknowledged.
abbrev marked : Db → List Job → List (Job × Bool)
marked db [] = []
marked db (j ∷ js) = (j, is_some (first (is_at j) db.job_acknowledgments)) ∷ marked db js

unfoldable pub list_jobs : ℤ → Db → Result OperatorError (List (Job × Bool))
list_jobs limit db = within (in_range 1 10000 limit)
  where
    within : Option ℕ → Result OperatorError (List (Job × Bool))
    within none = err bad_limit
    within (some n) = ok (marked db (take n (order_by newest_first db.jobs)))

-- `TERMINAL - {"succeeded"}`
abbrev pub is_retryable : State → Bool
is_retryable s = is_terminal s && not (same_state s succeeded)

-- `loads` is `json.dumps` of `json.loads`.
unfoldable pub retry : Paths → (String → Option String) → String → String → (ℕ → ℕ) → Op String
retry paths loads id new_id clock = do
  job ← get_job id
  require (is_retryable job.state) not_retryable
  spec ← or_raise invalid_json (loads job.spec)
  submit paths
      (record {
        job_id = new_id;
        kind = job.kind;
        spec = spec;
        workspace = job.workspace;
        timeout = pos job.timeout;
        delay = pos 0;
        parent = some job.id;
      })
      clock
