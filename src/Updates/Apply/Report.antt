-- ===== src/Updates/Apply/Report.antt =====
-- What `apply` of rootfs/usr/lib/rougarou/updates.py reports, and when.
use rougarou_os.Base.{◌≡◌, ◌≢◌, some, Result, ok, err, ◌⊎◌}
use rougarou_os.Updates.Operations.{UpdateError}
use rougarou_os.Updates.Apply.{
  Answers, Machine, Act, written, ResultFile, started, complete, status_of,
}

abbrev Agrees : Result UpdateError ResultFile → ResultFile → Type 0
Agrees (ok g) f = (g ≡ f) × (f.status ≡ complete)
Agrees (err e) f = f.status ≡ status_of e

-- The report of a transaction stands in both files, and says how the operation ended.
pub record IsReported (x : Result UpdateError ResultFile × Machine) : Type 0 where
  pub file : ResultFile
  pub result : x.1.result ≡ some file
  pub status : x.1.status ≡ some file
  pub agrees : Agrees x.0 file

abbrev Raises : Result UpdateError ResultFile → Type 0
Raises r = (e : UpdateError) × (r ≡ err e)

-- The call raises before its `try`: nothing was run, and there is no result; the transaction has at
-- most its directory and `before.json`, and the state's report at most says that it has started.
pub record IsUntried (m : Machine) (x : Result UpdateError ResultFile × Machine) : Type 0 where
  pub raises : Raises x.0
  pub commands : x.1.commands ≡ m.commands
  pub after : x.1.after ≡ m.after
  pub result : x.1.result ≡ m.result
  pub status :
      (x.1.status ≡ m.status) ⊎ ((f : ResultFile) × (x.1.status ≡ some f) × (f.status ≡ started))

-- The call raises because one of the two last files was not written to its end.
pub record IsUnwritten (a : Answers) (x : Result UpdateError ResultFile × Machine) : Type 0 where
  pub raises : Raises x.0
  pub not_written : (a.result_stored ≢ written) ⊎ (a.status_stored ≢ written)

abbrev Ends : Answers → Machine → Result UpdateError ResultFile × Machine → Type 0
Ends a m x = IsUntried m x ⊎ IsUnwritten a x ⊎ IsReported x

-- A machine on which nothing was tried yet.
record IsFresh (m t : Machine) : Type 0 where
  commands : t.commands ≡ m.commands
  after : t.after ≡ m.after
  result : t.result ≡ m.result
  status : (t.status ≡ m.status) ⊎ ((f : ResultFile) × (t.status ≡ some f) × (f.status ≡ started))

-- An operation that ends in one of these ways, from a machine on which nothing was tried.
record Reports (a : Answers) (m : Machine) (n : Act ResultFile) (t : Machine) : Type 0 where
  ends : Ends a m (n t)
