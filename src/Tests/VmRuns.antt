-- ===== src/Tests/VmRuns.antt =====
-- A checked predicate program runs.
use bash_lume.Base.{◌≡◌, refl, Bool, none, [], ◌∷◌, ok}
use bash_lume.Ir.Validate.{
  validate_predicates, check_stack, validate_predicate_strings, stack_effect, validate_string,
}
use bash_lume.Base.{saturating_add}
use bash_lume.Vm.Predicates.{EvaluationContext, evaluate_predicates}
use bash_lume.Vm.Safety.{evaluate_predicates-validate_predicates}
use bash_lume.Tests.IrData.{condition}

abbrev context : EvaluationContext
context = record {
  current_word = b'-' ∷ b'v' ∷ [];
  words = (b'g' ∷ []) ∷ (b'-' ∷ b'v' ∷ []) ∷ [];
  word_index = 1;
  command_path = (b'g' ∷ []) ∷ [];
  environment = λ name. none;
}

condition_checked : validate_predicates condition ≡ ok tt
unfolding validate_predicates check_stack validate_predicate_strings stack_effect validate_string
    saturating_add
condition_checked = refl

evaluate_predicates-validate_predicates_example :
    (b : Bool) × (evaluate_predicates context condition ≡ ok b)
evaluate_predicates-validate_predicates_example =
    evaluate_predicates-validate_predicates context condition condition_checked
