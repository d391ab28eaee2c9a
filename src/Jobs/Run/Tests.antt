-- ===== src/Jobs/Run/Tests.antt =====
-- Runs of the loop of `execute` in rootfs/usr/lib/rougarou/jobs.py, and its theorems at an input.
use rougarou_os.Base.{
  all, ℕ, ◌+◌, ◌≤◌, ◌≡◌, refl, true, false, Option, none, some, List, [], ◌∷◌, ◌++◌, ℤ, pos, find,
  length, Result, select, first, update, order_by, arith,
}
use rougarou_os.Jobs.Schema.{
  succeeded, cancelled, cancelled_by_operator, OperatorError, Job, Db, command, running,
}
use rougarou_os.Jobs.Store.{
  job_key, transaction, event, get_job, insert_job, update_job, next_seq, nested,
}
use rougarou_os.Jobs.Ops.{
  submit, insert_block, finish, cancel, acknowledge, acknowledge_block, acknowledge_rows,
  check_reviewable, put_acknowledgment, unreviewed_rows, is_unreviewed, claim, claim_row, recover,
  finish_vanished, heartbeat,
}
use rougarou_os.Jobs.Operation.{cancelling, perform, perform_all}
use rougarou_os.Jobs.Tests.{shop, shop-IsValid, shop_idle, from}
use rougarou_os.Jobs.Run.{
  Sight, Round, seen, Report, at_start, judge, press, collect, receive, reap, look, run_rounds,
  execute, is_log_name, marker, started,
}
use rougarou_os.Jobs.Run.Verdict.{Explained, WasStopped, WasLate, outcome_lem}
use rougarou_os.Jobs.Run.Log.{log-le-limit}
use rougarou_os.Jobs.Run.Settle.{Settled, until_exit, execute_lem}

-- "bbbbbbbbbbbbbbbb" of the scenario, which is running.
abbrev job_b : Job
job_b = record {
  id = "bbbbbbbbbbbbbbbb";
  kind = command;
  spec = "[\"true\"]";
  workspace = "/srv";
  timeout = 60;
  state = running;
  created = 20;
  ready = 20;
  started = some 51;
  finished = none;
  exit_code = none;
  reason = none;
  cancel_requested = false;
  parent = none;
}

abbrev pub look_at : ℕ → Option (List ℕ) → Option ℤ → Sight
look_at t chunk code = record {
  beat_now = t;
  beat_after = t;
  beat_clock = t;
  stopping = false;
  deadline_now = t;
  term_now = t;
  kill_now = t;
  chunk = chunk;
  code = code;
  exit_now = t;
  late_now = t;
  wait_code = pos 0;
}

-- The process writes five bytes, exits, and leaves its output open.
abbrev three_rounds : List Round
three_rounds =
    until_exit (seen [] (look_at 100 (some (104 ∷ 101 ∷ 121 ∷ [])) none) ∷ []) []
      (look_at 200 (some (104 ∷ 111 ∷ [])) (some (pos 0))) [] [] (look_at 1300 none (some (pos 0)))

abbrev expected : Report
expected = record {
  outcome = succeeded;
  reason = none;
  code = some (pos 0);
  log = 104 ∷ 101 ∷ 121 ∷ 104 ∷ [] ++ marker;
}

-- The same with a request to cancel in between.
abbrev asked_rounds : List Round
asked_rounds =
    seen (cancelling "bbbbbbbbbbbbbbbb" (from 80) ∷ []) (look_at 100 none none)
    ∷ seen [] (look_at 3100 (some []) (some (pos 15)))
    ∷ []

rounds_report : List Round → Option Report
unfolding run_rounds look judge press collect receive reap perform_all perform submit insert_block
    nested finish claim claim_row cancel acknowledge acknowledge_block acknowledge_rows
    check_reviewable put_acknowledgment unreviewed_rows is_unreviewed recover finish_vanished
    heartbeat transaction event get_job insert_job update_job next_seq select first find update
    order_by
rounds_report rounds = (run_rounds 4 7 job_b 60000 rounds at_start shop).0

three_rounds_report : rounds_report three_rounds ≡ some expected
unfolding rounds_report
three_rounds_report = refl

-- The queue after all the rounds; `execute` records the outcome in it next.
abbrev after_rounds : List Round → Db
after_rounds rounds = (run_rounds 4 7 job_b 60000 rounds at_start shop).1

three_rounds_run :
    run_rounds 4 7 job_b 60000 three_rounds at_start shop
    ≡ (some expected, after_rounds three_rounds)
unfolding rounds_report
three_rounds_run = refl

asked_report :
    rounds_report asked_rounds
    ≡ some (record {
      outcome = cancelled;
      reason = some cancelled_by_operator;
      code = some (pos 15);
      log = [];
    })
unfolding rounds_report
asked_report = refl

found_b : find job_key "bbbbbbbbbbbbbbbb" shop.jobs ≡ some job_b
unfolding rounds_report
found_b = refl

named_b : is_log_name "bbbbbbbbbbbbbbbb" ≡ true
unfolding is_log_name all
named_b = refl

outcome_lem_example :
    Explained (WasStopped three_rounds) (WasLate 60000 three_rounds) succeeded (some (pos 0))
outcome_lem_example =
    outcome_lem 4 7 job_b 60000 three_rounds shop (after_rounds three_rounds) expected
      three_rounds_run

log-le-limit_example : length expected.log ≤ 4 + length marker
log-le-limit_example =
    log-le-limit 4 7 job_b 60000 three_rounds shop (after_rounds three_rounds) expected
      three_rounds_run

execute_lem_example :
    (x : Result OperatorError (Unit {0})) × (t : Db) × (execute 4 7 job_b
        (started 0)
        three_rounds
        (from 1400)
        shop
      ≡ (some x, t))
    × Settled "bbbbbbbbbbbbbbbb" x t
execute_lem_example =
    execute_lem 4 7 job_b job_b (started 0)
      (seen [] (look_at 100 (some (104 ∷ 101 ∷ 121 ∷ [])) none) ∷ []) [] []
      (look_at 200 (some (104 ∷ 111 ∷ [])) (some (pos 0))) (look_at 1300 none (some (pos 0))) []
      (pos 0) (pos 0) (from 1400) shop shop_idle shop-IsValid named_b tt found_b
      (tt, (tt, (tt, tt))) (refl, tt) refl tt refl (omega arith)
