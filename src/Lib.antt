-- ===== src/Lib.antt =====
-- rougarou_os: a verification library for the operator's services of Rougarou OS, the Python
-- programs under rootfs/usr/lib/rougarou/, and for the tool of its package repository,
-- scripts/repo.py.
--
-- The parts. The job queue (rootfs/usr/lib/rougarou/jobs.py) is one SQLite file per operator, in
-- which `submit`, `cancel`, `acknowledge` and the worker's `claim`, `finish` and `heartbeat` each
-- are one transaction, `submit` also within a caller's; `recover` is one for each job. The worker claims one job at a time and
-- watches its process in `execute` until it can report an outcome to `finish`; while it watches,
-- other processes change the same tables. Scheduled tasks (rootfs/usr/lib/rougarou/tasks.py) add
-- three tables to that file: a systemd timer fires a task, which submits a job; a task may be
-- switched on only after a run of its present revision has succeeded. Notifications
-- (rootfs/usr/lib/rougarou/notifications.py) read the queue's event log from a stored cursor and
-- send a message for each unsuccessful job. The operator's configuration
-- (rootfs/usr/lib/rougarou/cli.py) names a provider, from which `ai_command` builds the command and
-- the environment of an AI's process, for the operator and for the queue's jobs. Backups
-- (rootfs/usr/lib/rougarou/backup.py) keep a copy of the queue, and a restore checks the snapshot's
-- list of files before it writes and makes the copy inert. Updates
-- (rootfs/usr/lib/rougarou/updates.py) plan an upgrade from signed metadata and carry it out when
-- the reviewed plan still holds. The repository that they come from is made by scripts/repo.py: a
-- signed snapshot is put into a channel by one exchange of a link, behind stores that only grow.
--
-- The files.
--   Base            what all share: tests, rows under a key, ORDER BY, operations that change a
--                   state and may raise, and what such an operation guarantees (Contract); texts as
--                   code points (Texts, Lines, Dicts), `PurePosixPath` (Paths), JSON (Json), and code that
--                   raises and keeps no state (Results)
--   Jobs/Schema     the tables of jobs.py:49-71 and tasks.py:25-40, and the errors and messages
--   Jobs/Store      transaction, event, get_job and the SQL statements (jobs.py:77-98)
--   Jobs/Ops        submit to heartbeat, under their names (jobs.py:101-189)
--   Jobs/Step       the abstract view of the queue: a relation of steps
--   Jobs/Refine     the operations against that relation
--   Jobs/Valid      the queue's invariant; Jobs/Life what becomes of one job
--   Jobs/Operation  any sequence of operations; Jobs/Total, Claim, Outcome and Review one by one
--   Jobs/Run        `execute` (jobs.py:224-305): `look` is one round of its loop, in the order
--                   judge, press, receive, reap; `run_rounds` is the loop; Turn, Log, Verdict, End
--                   and Settle prove what it does
--   Jobs/Worker     `worker` (jobs.py:308-341), turn by turn, with other processes at the queue before
--                   each turn and each round; Running, Alone and Work prove what it does
--   Jobs/Show       `snapshot`, `safe_text`, `log_path` and the list, retry and logs commands
--                   (jobs.py:192-197, 363-392, 451-456, 486-500)
--   Tasks/Store     the tasks' state and what they ask of other programs (tasks.py:63-90, 205-236)
--   Tasks/Ops       save, ready, enqueue (tasks.py:145-202); Tasks/Units unit_files, enable, pause
--                   and main (tasks.py:217-274, 308-320)
--   Tasks/Tables    the tables' invariant; Keep, Queue, Frame, Switch and Commands follow the
--                   commands through it
--   Notifications   Check is `check` (notifications.py:189-228) with `validate_state`,
--                   `queue_position` and the outcome of `send`; Loss and Cursor follow its cursor;
--                   Message is `validate_url`, `load_config`, the request of `send` and
--                   `health_events` (30-60, 107-129, 143-170), with Endpoint
--   Backup          Queue is `prepare_queue` (backup.py:399-421) and Quarantine what the copy is then;
--                   Tree is `validate_tree` (backup.py:349-396), with Line for one line of the list
--                   and Contained for the whole; Config is `validate_config` with `absolute` and
--                   `components` (backup.py:50-63, 127-153), and Apart what it keeps apart;
--                   Snapshots is `excluded` to `read_manifest` (backup.py:205-211, 314-346); Restore
--                   `restore_parents`, `recovery_note` and `restore` (66-75, 424-481), with Reviewed,
--                   Excluded and Staged; Create the password file, `copy_private`, `initialize` and the calls
--                   of `create` (83-96, 183-238, 265-311)
--   Cli             Provider is `clean_text` to `load_config` (cli.py:119-188), with Accepted and
--                   Checked for which providers pass; Launch is `codex_arguments` and `ai_command`
--                   (cli.py:564-612) and `command_for` (jobs.py:200-216), with Secret for the key;
--                   Software is `installer_software` and `provider_default` (cli.py:405-440)
--   Updates         Operations is `operations` (updates.py:281-294); Release is `paragraphs`,
--                   `release_check` and `signed_hashes` (updates.py:93-107, 222-252); Planning the
--                   packages of `plan` (updates.py:444-465), with Sorted and Signed; Apply is `apply` and `assert_before`
--                   (updates.py:475-576), in two parts: `review` up to the installation, `carry_out`
--                   from it on; Reviewed, Report and
--                   Complete (with Inventories) prove what it does
--   Repository      scripts/repo.py: Records is `records` and `encode_records` (lines 68-94), with the
--                   lines of a text (Layout) and their reading (Encoded); Packages `package_path` to
--                   `check_signer` (97-142); Verify `verify` (188-227), with Listed and Signed; Sign
--                   `signing_password` and `sign_flat` (29-47, 145-185), with Failed; Publish the
--                   repository's state, `snapshot` and `add_immutable` (230-265); Gate what `promote`
--                   checks and Promote what it writes (268-320), with Tested, Kept and Linked
--   the modules named Tests run the definitions on scenarios
--
-- How the code is read. A table is the list of its rows in the order of insertion; a key that
-- SQLite checks is checked. `BEGIN IMMEDIATE` serialises writers, so an operation is a function on
-- the whole database and an interleaving is a sequence of operations; an error in a transaction
-- gives back the database it began with. SQLite's own errors (a full disk, a database that stays
-- locked) are not modelled, so only the errors that the code itself raises end an operation. A time is a natural number of milliseconds where the
-- source has a float of seconds. Every reading of a clock is an argument: no reading is assumed to
-- follow another. Texts that the code builds for a reader are data (`Message`, `TaskDetail`) that
-- keep their parts. Random identifiers are arguments; one that is taken is refused by the key.
--
-- What is outside. Answers of the operating system, of the service manager, of `json`, of `which`
-- and of the webhook are arguments (`Paths`, `Sight`, `Launch`, `Outside`, `Webhook`).
-- `execute` first asks `log_path`, which raises for an identifier that is not 16 hexadecimal digits
-- (a test of the model) or for a private log directory (an answer, `Launch`); it then runs on a list
-- of rounds, one for each turn of `while True`, and its theorem says which rounds are enough. The limit of the log is an argument of it, so that the theorems hold at
-- `LOG_LIMIT` and at any other. In `tasks.py` the lock of `operation` is why commands do not
-- interleave with each other; they do interleave with the queue.
--
-- `restore`, `create` and `initialize` keep a list of what they asked of restic and of the disk, in
-- order; each answer is a field of `Machine` or `Answers`, and what restic lists is read already.
--
-- In Repository a folder is what Python says of each path below it (`Node`); gpg, gpgv, gzip, SHA-256,
-- UTF-8, JSON and dates are fields of `Reads`, `Checks`, `Signer` and `Run`. Writing a file or
-- renaming a finished folder into an unused place succeeds.
--
-- `Answers` in Updates/Apply has one field for each call of another program, in the order of the
-- calls; a file of its own that it writes (`Write`) may be written, not written, or in place when the
-- call raises. `urlsplit` with the port, `ipaddress`, `isdigit`, `int` of
-- digits and the parsing of mail dates are parameters (`Net`, `Digits`), as are Restic's answers. A
-- date of signed metadata is a number of seconds from 1970 on.
--
-- Not modelled: parsing of arguments, printing, the layout of files on disk; of backup.py the copy
-- of the queue and the making of the capsule, which are one answer; of updates.py the sources of
-- APT, the refresh and the verification of cached files; of cli.py the prompts and the
-- credentials' file; and health.py, menu.py, the installation of agents and the scripts that build
-- images and drive virtual machines, which ask for models of their own; of scripts/repo.py the
-- lock and the command line.
pub mod Base
pub mod Jobs
pub mod Tasks
pub mod Notifications
pub mod Backup
pub mod Cli
pub mod Repository
pub mod Updates
