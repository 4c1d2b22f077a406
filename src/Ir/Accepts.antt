-- ===== src/Ir/Accepts.antt =====
-- From the validators of rules/ir.rs to what the encoder takes: texts, predicates, candidates and rules.
use bash_lume.Base.{
  ℕ, ◌≤◌, ◌≡◌, ◌||◌, Option, none, some, List, [], ◌∷◌, Bytes, ok, arith, length, All, usize_max,
  saturating_add, ltb, ltb→le, or-eq-false, ◌∙◌,
}
use bash_lume.Base.Outcome.{>>=-eq-ok, >>-eq-ok, reject->>-eq-ok}
use bash_lume.Ir.Budget.{capped, capped-capped, add_predicates, add_candidate_lem}
use mathlib.Core.Path.{subst}
use bash_lume.Ir.Limits.{max_rules}
use bash_lume.Ir.Types.{
  PredicateOp, current_word_equals, current_word_starts_with, previous_word_equals, any_word_equals,
  word_not_present, word_index_equals, word_index_at_least, command_path_equals, environment_set,
  environment_equals, CandidateTemplate, StaticRule,
}
use bash_lume.Ir.Validate.{
  validate_string, validate_optional, try_for_each, validate_predicate_strings, stack_effect,
  is_empty, check_stack, validate_predicates, validate_candidate,
}
use bash_lume.Ir.ValidateProgram.{
  validate_registrations, validate_candidates, validate_rule, validate_rules,
}
use bash_lume.Ir.Wire.{sum_of, predicates_text, candidate_text, rule_text}
use bash_lume.Ir.Typed.{
  IsText, IsOptionalText, IsTypedPredicate, IsTypedCandidate, IsTypedRule, IsGoodString,
  IsGoodOptional, IsGoodPredicate, IsGoodProgram, IsGoodCandidate, IsGoodRule,
}

pub good_strings :
    (ss : List Bytes)
    → try_for_each validate_string ss ≡ ok tt
    → All IsText ss
    → All IsGoodString ss
unfolding try_for_each
good_strings [] h t = tt
good_strings (s ∷ ss) h t =
    let (_, first, rest) = >>=-eq-ok (validate_string s) _ h in
    ((first, t.0), good_strings ss rest t.1)

pub good_optional :
    (s : Option Bytes) → validate_optional s ≡ ok tt → IsOptionalText s → IsGoodOptional s
unfolding validate_optional
good_optional none h t = tt
good_optional (some s) h t = (h, t)

good_predicate :
    (op : PredicateOp)
    → validate_predicate_strings op ≡ ok tt
    → IsTypedPredicate op
    → IsGoodPredicate op
unfolding validate_predicate_strings
good_predicate (command_path_equals ss) h t =
    let (few, each) = reject->>-eq-ok (ltb 256 (length ss)) _ (try_for_each validate_string ss) h in
    (ltb→le (length ss) 256 few, good_strings ss each t)
good_predicate (environment_equals name s) h t =
    let (_, first, rest) = >>=-eq-ok (validate_string name) _ h in ((first, t.0), (rest, t.1))
good_predicate (current_word_equals s) h t = (h, t)
good_predicate (current_word_starts_with s) h t = (h, t)
good_predicate (previous_word_equals s) h t = (h, t)
good_predicate (any_word_equals s) h t = (h, t)
good_predicate (word_not_present s) h t = (h, t)
good_predicate (environment_set s) h t = (h, t)
good_predicate (word_index_equals n) h t = t
good_predicate (word_index_at_least n) h t = t
good_predicate _ h t = tt

-- The instructions of a program that passes the stack check.
good_instructions :
    (ops : List PredicateOp) (depth : ℕ) {d : ℕ}
    → check_stack ops depth ≡ ok d
    → All IsTypedPredicate ops
    → All IsGoodPredicate ops
unfolding check_stack
good_instructions [] depth h t = tt
good_instructions (op ∷ ops) depth h t =
    let (after, _, h₁) = >>=-eq-ok (stack_effect op depth) _ h in
    let (_, h₂) = reject->>-eq-ok (ltb 256 after) _ _ h₁ in
    let (good, h₃) = >>-eq-ok (validate_predicate_strings op) _ h₂ in
    (good_predicate op good t.0, good_instructions ops after h₃ t.1)

pub good_program :
    (ops : List PredicateOp)
    → validate_predicates ops ≡ ok tt
    → All IsTypedPredicate ops
    → IsGoodProgram ops
unfolding validate_predicates
good_program ops h t =
    let (sized, h₁) = reject->>-eq-ok (is_empty ops || ltb 4096 (length ops)) _ _ h in
    let (depth, checked, _) = >>=-eq-ok (check_stack ops 0) _ h₁ in
    record {
      checked = h;
      short = ltb→le (length ops) 4096 (or-eq-false (is_empty ops) _ sized).1;
      each_good = good_instructions ops 0 checked t;
    }

good_candidate :
    (c : CandidateTemplate) → validate_candidate c ≡ ok tt → IsTypedCandidate c → IsGoodCandidate c
unfolding validate_candidate
good_candidate c h t =
    let (value, h₁) = >>-eq-ok (validate_string c.value) _ h in
    let (display, h₂) = >>-eq-ok (validate_string c.display) _ h₁ in
    let (description, _) = >>-eq-ok (validate_optional c.description) _ h₂ in
    record {
      checked = h;
      value = (value, t.value);
      display = (display, t.display);
      description = good_optional c.description description t.description;
    }

-- The loops below return the budget that they were given and the text of what they checked.
good_candidates :
    (cs : List CandidateTemplate) (n : ℕ) {r : ℕ}
    → validate_candidates cs n ≡ ok r
    → n ≤ usize_max
    → All IsTypedCandidate cs
    → All IsGoodCandidate cs × (r ≡ capped n (sum_of candidate_text cs))
unfolding validate_candidates sum_of
good_candidates [] n h le t = (tt, ground arith)
good_candidates (c ∷ cs) n {r} h le t =
    let (checked, h₁) = >>-eq-ok (validate_candidate c) _ h in
    let h₂ = subst (λ m. validate_candidates cs m ≡ ok r) (add_candidate_lem c n) h₁ in
    let (good, used) = good_candidates cs (capped n (candidate_text c)) h₂ (omega arith) t.1 in
    (
      (good_candidate c checked t.0, good),
      used ∙ capped-capped n (candidate_text c) (sum_of candidate_text cs),
    )

good_rule :
    (rule : StaticRule) (n : ℕ) {r : ℕ}
    → validate_rule rule n ≡ ok r
    → IsTypedRule rule
    → IsGoodRule rule × (r ≡ capped n (rule_text rule))
unfolding validate_rule rule_text
good_rule rule n {r} h t =
    let (checked, h₁) = >>-eq-ok (validate_predicates rule.when) _ h in
    let (few, h₂) = reject->>-eq-ok (ltb max_rules (length rule.candidates)) _ _ h₁ in
    let h₃ =
      subst (λ m. validate_candidates rule.candidates m ≡ ok r) (add_predicates rule.when n) h₂ in
    let (good, used) =
      good_candidates rule.candidates (capped n (predicates_text rule.when)) h₃ (omega arith)
        t.candidates in
    (
      record {
        when = good_program rule.when checked t.when;
        few = ltb→le (length rule.candidates) max_rules few;
        candidates = good;
      },
      omega (arith, used),
    )

pub good_rules :
    (rules : List StaticRule) (n : ℕ) {r : ℕ}
    → validate_rules rules n ≡ ok r
    → n ≤ usize_max
    → All IsTypedRule rules
    → All IsGoodRule rules × (r ≡ capped n (sum_of rule_text rules))
unfolding validate_rules sum_of
good_rules [] n h le t = (tt, ground arith)
good_rules (rule ∷ rules) n {r} h le t =
    let (m, first, rest) = >>=-eq-ok (validate_rule rule n) _ h in
    let (good, e) = good_rule rule n first t.0 in
    let (goods, used) = good_rules rules m rest (omega (arith, e)) t.1 in
    ((good, goods), omega (arith, e, used))

pub good_registrations :
    (ss : List Bytes) (n : ℕ) {r : ℕ}
    → validate_registrations ss n ≡ ok r
    → n ≤ usize_max
    → All IsText ss
    → All IsGoodString ss × (r ≡ capped n (sum_of length ss))
unfolding validate_registrations sum_of saturating_add
good_registrations [] n h le t = (tt, ground arith)
good_registrations (s ∷ ss) n h le t =
    let (checked, h₁) = >>-eq-ok (validate_string s) _ h in
    let (good, used) = good_registrations ss (capped n (length s)) h₁ (omega arith) t.1 in
    (((checked, t.0), good), used ∙ capped-capped n (length s) (sum_of length ss))
