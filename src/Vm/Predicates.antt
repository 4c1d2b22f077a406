-- ===== src/Vm/Predicates.antt =====
-- `evaluate_predicates` of rules/vm.rs: a stack machine over the words of a command line. The stack is a
-- list, its top first; the environment is a lookup function.
use bash_lume.Base.{
  ℕ, zero, suc, String, Bool, true, false, not, ◌&&◌, ◌||◌, Option, none, some, List, [], ◌∷◌,
  Bytes, Result, ok, err, ◌==◌, ltb, leb, length, any, all, bytes_eq,
}
use bash_lume.Base.Outcome.{◌>>=◌, ◌>>◌, reject}
use bash_lume.Ir.Types.{
  IrError, PredicateOp, op_true, op_false, op_not, op_and, op_or, current_word_equals,
  current_word_starts_with, previous_word_equals, any_word_equals, word_not_present,
  word_index_equals, word_index_at_least, command_path_equals, environment_set, environment_equals,
}
use bash_lume.Ir.Validate.{is_empty}

pub data VmError : Type 0 where
  invalid_program : IrError → VmError
  stack_underflow invalid_result_stack : VmError
  invalid_template : String → VmError
  limit : String → VmError

-- The fields that the predicates read.
pub record EvaluationContext : Type 0 where
  pub current_word : Bytes
  pub words : List Bytes
  pub word_index : ℕ
  pub command_path : List Bytes
  pub environment : Bytes → Option Bytes

-- `text.starts_with(prefix)`
unfoldable pub starts_with : Bytes → Bytes → Bool
starts_with text [] = true
starts_with [] (p ∷ ps) = false
starts_with (b ∷ bs) (p ∷ ps) = b == p && starts_with bs ps

-- `words.get(index) == Some(value)`
unfoldable pub word_is : List Bytes → ℕ → Bytes → Bool
word_is [] index value = false
word_is (w ∷ ws) zero value = bytes_eq w value
word_is (w ∷ ws) (suc index) value = word_is ws index value

-- `word_index.checked_sub(1).and_then(|index| words.get(index)) == Some(value)`
unfoldable pub previous_is : List Bytes → ℕ → Bytes → Bool
unfolding word_is
previous_is words zero value = false
previous_is words (suc index) value = word_is words index value

unfoldable pub paths_eq : List Bytes → List Bytes → Bool
paths_eq [] [] = true
paths_eq (x ∷ xs) (y ∷ ys) = bytes_eq x y && paths_eq xs ys
paths_eq [] (y ∷ ys) = false
paths_eq (x ∷ xs) [] = false

abbrev is_set : Option Bytes → Bool
is_set none = false
is_set (some v) = true

abbrev is_value : Option Bytes → Bytes → Bool
is_value none value = false
is_value (some v) value = bytes_eq v value

abbrev pub Stack : Type 0
Stack = List Bool

abbrev negate_top : Stack → Result VmError Stack
negate_top [] = err stack_underflow
negate_top (x ∷ stack) = ok (not x ∷ stack)

-- The top is the right operand.
abbrev combine_top : (Bool → Bool → Bool) → Stack → Result VmError Stack
combine_top f [] = err stack_underflow
combine_top f (right ∷ []) = err stack_underflow
combine_top f (right ∷ left ∷ stack) = ok (f left right ∷ stack)

unfoldable pub step : EvaluationContext → PredicateOp → Stack → Result VmError Stack
unfolding starts_with previous_is paths_eq
step c op_true stack = ok (true ∷ stack)
step c op_false stack = ok (false ∷ stack)
step c op_not stack = negate_top stack
step c op_and stack = combine_top (λ left right. left && right) stack
step c op_or stack = combine_top (λ left right. left || right) stack
step c (current_word_equals value) stack = ok (bytes_eq c.current_word value ∷ stack)
step c (current_word_starts_with value) stack = ok (starts_with c.current_word value ∷ stack)
step c (previous_word_equals value) stack = ok (previous_is c.words c.word_index value ∷ stack)
step c (any_word_equals value) stack = ok (any (λ w. bytes_eq w value) c.words ∷ stack)
step c (word_not_present value) stack = ok (all (λ w. not (bytes_eq w value)) c.words ∷ stack)
step c (word_index_equals value) stack = ok ((c.word_index == value) ∷ stack)
step c (word_index_at_least value) stack = ok (leb value c.word_index ∷ stack)
step c (command_path_equals value) stack = ok (paths_eq c.command_path value ∷ stack)
step c (environment_set name) stack = ok (is_set (c.environment name) ∷ stack)
step c (environment_equals name value) stack = ok (is_value (c.environment name) value ∷ stack)

-- The loop over the instructions.
unfoldable pub run : EvaluationContext → List PredicateOp → Stack → Result VmError Stack
run c [] stack = ok stack
run c (op ∷ ops) stack = do
  after ← step c op stack
  reject (ltb 256 (length after)) (limit "predicate stack")
  run c ops after

abbrev only_result : Stack → Result VmError Bool
only_result (result ∷ []) = ok result
only_result _ = err invalid_result_stack

unfoldable pub evaluate_predicates : EvaluationContext → List PredicateOp → Result VmError Bool
evaluate_predicates c program = do
  reject (is_empty program || ltb 4096 (length program)) (limit "predicate instructions")
  stack ← run c program []
  only_result stack
