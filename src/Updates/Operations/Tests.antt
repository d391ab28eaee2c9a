-- ===== src/Updates/Operations/Tests.antt =====
-- Outputs of APT for `operations` of rootfs/usr/lib/rougarou/updates.py, and its theorem at one.
use rougarou_os.Base.{
  ◌≡◌, refl, [], ◌∷◌, ◌++◌, Result, ok, err, Text, codes, all, begins, same_text,
}
use rougarou_os.Base.Dicts.{Table, span, value_at}
use rougarou_os.Base.Lines.{split_lines, words}
use rougarou_os.Updates.Operations.{
  UpdateError, removal, duplicate_operation, after_prefix, inst_match, read_lines, operations,
}
use rougarou_os.Updates.Operations.Plan.{IsUpgrade, operations_lem}

abbrev output : Text
output =
    codes
      "Reading package lists...\nInst libc6 [2.41-1] (2.41-2 Rougarou [amd64])\nInst g++ (4:14 x)\nConf libc6 (2.41-2 Rougarou [amd64])\n"

read : Text → Result UpdateError Table
unfolding operations read_lines inst_match span after_prefix value_at split_lines words all begins
    same_text
read t = operations t

abbrev upgrade : Table
upgrade = (codes "g++", codes "4:14") ∷ (codes "libc6", codes "2.41-2") ∷ []

read_lem : read output ≡ ok upgrade
unfolding read
read_lem = refl

removal_lem : read (output ++ codes "Remv g++ [4:14]\n") ≡ err removal
unfolding read
removal_lem = refl

twice_lem : read (output ++ codes "Inst g++ (4:14 x)\r\n") ≡ err duplicate_operation
unfolding read
twice_lem = refl

operations_lem_example : IsUpgrade (split_lines output) upgrade
unfolding read
operations_lem_example = operations_lem output upgrade read_lem
