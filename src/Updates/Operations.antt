-- ===== src/Updates/Operations.antt =====
-- `operations` of rootfs/usr/lib/rougarou/updates.py: what APT says that it would do.
pub mod Plan
mod Tests
use rougarou_os.Base.{
  ℕ, Bool, true, false, not, ◌&&◌, ◌||◌, Option, none, some, List, [], ◌∷◌, ◌==◌, leb, codes,
  Result, ok, err, Text, same_text, begins, is_empty, all, is_some, is_none, if◌then◌else◌,
}
use rougarou_os.Base.Dicts.{Table, span, value_at}
use rougarou_os.Base.Lines.{split_lines, words}
use rougarou_os.Base.Results.{◌>>=◌, ◌>>◌, demand}

-- The errors, by what they say; `other` is an error of a call that is not modelled here.
pub data UpdateError : Type 0 where
  removal unsupported_line duplicate_operation unrelated_configuration no_second_word : UpdateError
  unconfirmed bad_plan_id bad_recovery_point plan_changed no_updates simulation_differs :
      UpdateError
  not_downloaded bytes_differ unreviewed_archive changed_during_download local_simulation_differs :
      UpdateError
  bad_transaction state_changed marks_changed plan_expired policy_changed : UpdateError
  marks_differ inventory_differs incomplete interrupted other : UpdateError

abbrev is_name_start : ℕ → Bool
is_name_start c = (leb 97 c && leb c 122) || (leb 48 c && leb c 57)

abbrev is_name_code : ℕ → Bool
is_name_code c = is_name_start c || (c == 43) || (c == 46) || (c == 45)

unfoldable pub after_prefix : Text → Text → Option Text
after_prefix [] t = some t
after_prefix (c ∷ p) [] = none
after_prefix (c ∷ p) (x ∷ t) = if c == x then after_prefix p t else none

-- `(?: \[[^]]+\])?`
abbrev skip_old : Text → Text
unfolding span after_prefix
skip_old t = closed t (after_prefix (codes " [") t)
  where
    ended : Text → Text × Text → Text
    ended t (inside, []) = t
    ended t (inside, c ∷ rest) = if is_empty inside then t else rest

    closed : Text → Option Text → Text
    closed t none = t
    closed t (some rest) = ended t (span (λ c. not (c == 93)) rest)

abbrev versioned : Text → Option Text → Option (Text × Text)
versioned name none = none
versioned name (some rest) =
    let (version, _) = span (λ c. not (c == 32)) rest in
    if is_empty version then none else some (name, version)

abbrev named : Text × Text → Option (Text × Text)
named ([], rest) = none
named (c ∷ name, rest) =
    if is_name_start c
    then versioned (c ∷ name) (after_prefix (codes " (") (skip_old rest))
    else none

-- What `^Inst ([a-z0-9][a-z0-9+.-]*)(?: \[[^]]+\])? \(([^ ]+)` finds: the package and its version.
unfoldable pub inst_match : Text → Option (Text × Text)
unfolding span after_prefix
inst_match line = from (after_prefix (codes "Inst ") line)
  where
    from : Option Text → Option (Text × Text)
    from none = none
    from (some rest) = named (span is_name_code rest)

abbrev pub is_removal : Text → Bool
is_removal line = begins (codes "Remv ") line || begins (codes "Purg ") line

abbrev pub second_word : List Text → Result UpdateError Text
second_word (a ∷ b ∷ ws) = ok b
second_word _ = err no_second_word

-- What has been read: the operations so far, in the order of their lines, and what is configured.
pub record Read : Type 0 where
  pub result : Table
  pub configured : List Text

abbrev pub add_inst : Option (Text × Text) → Read → Result UpdateError Read
add_inst none r = err unsupported_line
add_inst (some (name, version)) r = do
  demand (is_none (value_at name r.result)) duplicate_operation
  ok (record r { result = (name, version) ∷ r.result })

abbrev pub add_conf : Text → Read → Result UpdateError Read
add_conf line r = do
  name ← second_word (words line)
  ok (record r { configured = name ∷ r.configured })

abbrev pub read_line : Text → Read → Result UpdateError Read
read_line line r = do
  demand (not (is_removal line)) removal
  if begins (codes "Inst ") line
      then add_inst (inst_match line) r
      else if begins (codes "Conf ") line
      then add_conf line r
      else ok r

unfoldable pub read_lines : List Text → Read → Result UpdateError Read
read_lines [] r = ok r
read_lines (line ∷ lines) r = do r' ← read_line line r; read_lines lines r'

abbrev pub nothing_read : Read
nothing_read = record { result = []; configured = [] }

unfoldable pub operations : Text → Result UpdateError Table
operations output = do
  r ← read_lines (split_lines output) nothing_read
  demand (all (λ name. is_some (value_at name r.result)) r.configured) unrelated_configuration
  ok r.result

-- `a == b`, for two dictionaries
abbrev holds_in : Table → Text × Text → Bool
holds_in b (k, v) = is_value v (value_at k b)
  where
    is_value : Text → Option Text → Bool
    is_value v none = false
    is_value v (some w) = same_text v w

abbrev pub same_table : Table → Table → Bool
same_table a b = all (holds_in b) a && all (holds_in a) b
