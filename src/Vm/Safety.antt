-- ===== src/Vm/Safety.antt =====
-- The stack check of rules/ir.rs against the evaluator of rules/vm.rs.
use mathlib.Core.Path.{subst}
use bash_lume.Base.{
  ℕ, ◌≤◌, ◌≡◌, refl, sym, ◌∙◌, Bool, ◌||◌, List, [], ◌∷◌, ok, arith, length, ltb, ◌==◌, ==→eq,
  ltb→le, le→ltb, saturating_add,
}
use bash_lume.Base.Outcome.{>>=-eq-ok, >>-eq-ok, reject->>-eq-ok, require-eq-ok, ok-injective}
use bash_lume.Ir.Types.{PredicateOp, op_true, op_not, op_and, op_or}
use bash_lume.Ir.Validate.{
  is_empty, stack_effect, check_stack, validate_predicate_strings, validate_predicates,
}
use bash_lume.Vm.Predicates.{EvaluationContext, Stack, step, run, evaluate_predicates}

-- One instruction: where the check passes at the depth of the stack, the step succeeds, and the check's
-- depth is the depth of the new stack.
step-stack_effect :
    (c : EvaluationContext) (op : PredicateOp) (stack : Stack) {depth : ℕ}
    → length stack ≤ 256
    → stack_effect op (length stack) ≡ ok depth
    → (after : Stack) × (step c op stack ≡ ok after) × (length after ≡ depth)
unfolding step stack_effect saturating_add
step-stack_effect c op_not [] le h = cc
step-stack_effect c op_not (x ∷ stack) le h = (_, refl, ground arith)
step-stack_effect c op_and [] le h = cc
step-stack_effect c op_and (x ∷ []) le h = cc
step-stack_effect c op_and (x ∷ y ∷ stack) le h = (_, refl, ground arith)
step-stack_effect c op_or [] le h = cc
step-stack_effect c op_or (x ∷ []) le h = cc
step-stack_effect c op_or (x ∷ y ∷ stack) le h = (_, refl, ground arith)
step-stack_effect c op_true stack le h = (_, refl, ground arith)
step-stack_effect c _ stack le h = (_, refl, ground arith)

-- The loop: where the check runs from the depth of the stack to `depth`, the evaluator runs to a stack of
-- that depth.
run-check_stack :
    (c : EvaluationContext) (ops : List PredicateOp) (stack : Stack) {depth : ℕ}
    → length stack ≤ 256
    → check_stack ops (length stack) ≡ ok depth
    → (after : Stack) × (run c ops stack ≡ ok after) × (length after ≡ depth)
unfolding run check_stack
run-check_stack c [] stack le h = (stack, refl, ok-injective h)
run-check_stack c (op ∷ ops) stack {depth} le h =
    let (d, effect, h₁) = >>=-eq-ok (stack_effect op (length stack)) _ h in
    let (shallow, h₂) = reject->>-eq-ok (ltb 256 d) _ _ h₁ in
    let (_, rest) = >>-eq-ok (validate_predicate_strings op) _ h₂ in
    let (after, stepped, deep) = step-stack_effect c op stack le effect in
    let within : length after ≤ 256 = omega (arith, deep, ltb→le d 256 shallow) in
    let (final, ran, size) =
      run-check_stack c ops after within
        (subst (λ n. check_stack ops n ≡ ok depth) (sym deep) rest) in
    (final, rw stepped (rw (le→ltb (length after) 256 within) ran), size)

single : (stack : Stack) → length stack ≡ 1 → (b : Bool) × (stack ≡ b ∷ [])
single [] h = absurd (omega (arith, h))
single (b ∷ []) h = (b, refl)
single (b ∷ b' ∷ stack) h = absurd (omega (arith, h))

-- A predicate program that passes `validate_predicates` evaluates to a Boolean in every context: no
-- instruction underflows, the stack stays within its limit, and exactly one value is left.
pub evaluate_predicates-validate_predicates :
    (c : EvaluationContext) (program : List PredicateOp)
    → validate_predicates program ≡ ok tt
    → (b : Bool) × (evaluate_predicates c program ≡ ok b)
unfolding validate_predicates evaluate_predicates
evaluate_predicates-validate_predicates c program h =
    let (sized, h₁) = reject->>-eq-ok (is_empty program || ltb 4096 (length program)) _ _ h in
    let (depth, checked, h₂) = >>=-eq-ok (check_stack program 0) _ h₁ in
    let one : depth ≡ 1 = ==→eq depth 1 (require-eq-ok (depth == 1) _ h₂) in
    let (final, ran, size) = run-check_stack c program [] (omega arith) checked in
    let (b, alone) = single final (size ∙ one) in (b, rw sized (rw ran (rw alone)))
