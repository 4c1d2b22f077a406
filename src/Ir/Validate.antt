-- ===== src/Ir/Validate.antt =====
-- The validators of rules/ir.rs. `validate` follows `validate_and_approximate_bytes` without the sum
-- that it returns: the checks, their order and the string and script budgets.
use bash_lume.Base.{
  ℕ, ◌-◌, Bool, true, false, ◌||◌, Option, none, some, List, [], ◌∷◌, Bytes, Result, ok, err, ◌==◌,
  ltb, if◌then◌else◌, length, any, bytes_eq, saturating_add,
}
use bash_lume.Base.Outcome.{◌>>=◌, ◌>>◌, reject, require}
use bash_lume.Base.Utf8.{chars, is_control, is_whitespace}
use bash_lume.Ir.Types.{
  IrError, invalid, limit, PredicateOp, op_not, op_and, op_or, current_word_equals,
  current_word_starts_with, previous_word_equals, any_word_equals, word_not_present,
  command_path_equals, environment_set, environment_equals, CandidateTemplate,
}
use bash_lume.Ir.Limits.{max_predicates_per_rule, max_string_bytes}

abbrev Check : Type 0
Check = Result IrError (Unit {0})

abbrev pub is_empty {ℓ} : {A : Type ℓ} → List A → Bool
is_empty [] = true
is_empty (x ∷ xs) = false

-- `value.contains('\0')`, byte by byte: no other UTF-8 sequence holds a zero byte.
abbrev pub contains : ℕ → Bytes → Bool
contains b = any (λ x. x == b)

unfoldable pub validate_string : Bytes → Check
validate_string s = do
  reject (ltb max_string_bytes (length s)) (limit "individual string")
  reject (contains 0 s) (invalid "string contains NUL")

unfoldable pub validate_optional : Option Bytes → Check
validate_optional none = ok tt
validate_optional (some s) = validate_string s

-- `values.iter().try_for_each(check)`
unfoldable pub try_for_each {ℓ} : {A : Type ℓ} → (A → Check) → List A → Check
try_for_each check [] = ok tt
try_for_each check (x ∷ xs) = do check x; try_for_each check xs

unfoldable pub validate_predicate_strings : PredicateOp → Check
validate_predicate_strings (current_word_equals s) = validate_string s
validate_predicate_strings (current_word_starts_with s) = validate_string s
validate_predicate_strings (previous_word_equals s) = validate_string s
validate_predicate_strings (any_word_equals s) = validate_string s
validate_predicate_strings (word_not_present s) = validate_string s
validate_predicate_strings (environment_set s) = validate_string s
validate_predicate_strings (command_path_equals values) = do
  reject (ltb 256 (length values)) (limit "command path")
  try_for_each validate_string values
validate_predicate_strings (environment_equals name s) = do validate_string name; validate_string s
validate_predicate_strings _ = ok tt

-- The depth of the evaluation stack after an instruction.
unfoldable pub stack_effect : PredicateOp → ℕ → Result IrError ℕ
stack_effect op_not depth =
    if ltb depth 1 then err (invalid "predicate stack underflow") else ok depth
stack_effect op_and depth =
    if ltb depth 2 then err (invalid "predicate stack underflow") else ok (depth - 1)
stack_effect op_or depth =
    if ltb depth 2 then err (invalid "predicate stack underflow") else ok (depth - 1)
stack_effect _ depth = ok (saturating_add depth 1)

-- The loop of `validate_predicates`, from a given depth.
unfoldable pub check_stack : List PredicateOp → ℕ → Result IrError ℕ
check_stack [] depth = ok depth
check_stack (op ∷ ops) depth = do
  after ← stack_effect op depth
  reject (ltb 256 after) (limit "predicate stack")
  validate_predicate_strings op
  check_stack ops after

unfoldable pub validate_predicates : List PredicateOp → Check
validate_predicates program = do
  reject (is_empty program || ltb max_predicates_per_rule (length program))
      (limit "predicate program")
  depth ← check_stack program 0
  require (depth == 1) (invalid "predicate program must leave one value")

abbrev some_control : Bytes → Bool
some_control s = any is_control (chars s)

abbrev some_control_in : Option Bytes → Bool
some_control_in none = false
some_control_in (some s) = some_control s

unfoldable pub validate_candidate : CandidateTemplate → Check
validate_candidate c = do
  validate_string c.value
  validate_string c.display
  validate_optional c.description
  reject (is_empty c.value) (invalid "candidate insertion value is empty")
  reject (some_control c.value || some_control c.display || some_control_in c.description)
      (invalid "candidate contains a control character")

abbrev shells : List Bytes
shells =
    (b's' ∷ b'h' ∷ [])
    ∷ (b'b' ∷ b'a' ∷ b's' ∷ b'h' ∷ [])
    ∷ (b'd' ∷ b'a' ∷ b's' ∷ b'h' ∷ [])
    ∷ (b'z' ∷ b's' ∷ b'h' ∷ [])
    ∷ (b'f' ∷ b'i' ∷ b's' ∷ b'h' ∷ [])
    ∷ []

-- `value.ends_with(suffix)`
ends_with : Bytes → Bytes → Bool
ends_with suffix [] = bytes_eq [] suffix
ends_with suffix (b ∷ bs) = bytes_eq (b ∷ bs) suffix || ends_with suffix bs

unfoldable pub validate_executable : Bytes → Check
unfolding ends_with
validate_executable s = do
  validate_string s
  reject
      (is_empty s
        || (contains b'/' s || contains 0 s)
        || any is_whitespace (chars s)
        || any (bytes_eq s) shells
        || any (λ shell. ends_with (b'/' ∷ shell) s) shells)
      (invalid "probe executable is forbidden")

-- The bytes that an instruction, a description or a list of texts adds to the string budget.
unfoldable pub saturating_sum : List Bytes → ℕ → ℕ
saturating_sum [] n = n
saturating_sum (s ∷ ss) n = saturating_sum ss (saturating_add n (length s))

unfoldable pub instruction_string_bytes : PredicateOp → ℕ
unfolding saturating_sum
instruction_string_bytes (current_word_equals s) = length s
instruction_string_bytes (current_word_starts_with s) = length s
instruction_string_bytes (previous_word_equals s) = length s
instruction_string_bytes (any_word_equals s) = length s
instruction_string_bytes (word_not_present s) = length s
instruction_string_bytes (environment_set s) = length s
instruction_string_bytes (command_path_equals values) = saturating_sum values 0
instruction_string_bytes (environment_equals name s) = saturating_add (length name) (length s)
instruction_string_bytes _ = 0

unfoldable pub fold_string_bytes : List PredicateOp → ℕ → ℕ
fold_string_bytes [] n = n
fold_string_bytes (op ∷ ops) n =
    fold_string_bytes ops (saturating_add n (instruction_string_bytes op))

unfoldable pub predicate_string_bytes : List PredicateOp → ℕ
unfolding fold_string_bytes
predicate_string_bytes program = fold_string_bytes program 0

abbrev pub optional_length : Option Bytes → ℕ
optional_length none = 0
optional_length (some s) = length s
