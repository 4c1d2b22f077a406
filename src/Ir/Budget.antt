-- ===== src/Ir/Budget.antt =====
-- The saturating string budget of the validators of rules/ir.rs as a number of text bytes.
use bash_lume.Base.{
  ℕ, ◌+◌, ◌≤◌, ◌≡◌, refl, ap, ◌∙◌, List, [], ◌∷◌, Bytes, arith, length, usize_max, min,
  saturating_add,
}
use bash_lume.Ir.Types.{
  PredicateOp, command_path_equals, environment_equals, CandidateTemplate, ProbeSpec,
}
use bash_lume.Ir.Validate.{
  saturating_sum, instruction_string_bytes, fold_string_bytes, predicate_string_bytes,
}
use bash_lume.Ir.ValidateProgram.{add_candidate, add_probe, text_sum, pair_sum}
use bash_lume.Ir.Wire.{
  sum_of, predicate_text, predicates_text, candidate_text, variable_text, probe_text,
}

-- A budget `n` after `t` more bytes.
abbrev pub capped : ℕ → ℕ → ℕ
capped n t = min (n + t) usize_max

pub saturating_add-capped : (n s t : ℕ) → saturating_add (capped n s) t ≡ capped n (s + t)
unfolding saturating_add
saturating_add-capped n s t = omega arith

pub capped-capped : (n s t : ℕ) → capped (capped n s) t ≡ capped n (s + t)
capped-capped n s t = omega arith

saturating_sum_lem :
    (ss : List Bytes) (n : ℕ) → n ≤ usize_max → saturating_sum ss n ≡ capped n (sum_of length ss)
unfolding saturating_sum sum_of saturating_add
saturating_sum_lem [] n h = omega arith
saturating_sum_lem (s ∷ ss) n h =
    saturating_sum_lem ss (min (n + length s) usize_max) (omega arith)
    ∙ capped-capped n (length s) (sum_of length ss)

-- One instruction, added to a budget.
add_instruction :
    (op : PredicateOp) (n : ℕ)
    → saturating_add n (instruction_string_bytes op) ≡ capped n (predicate_text op)
unfolding instruction_string_bytes predicate_text saturating_add
add_instruction (command_path_equals ss) n = omega (arith, saturating_sum_lem ss 0 (omega arith))
add_instruction (environment_equals name s) n = omega arith
add_instruction _ n = omega arith

fold_string_bytes_lem :
    (ops : List PredicateOp) (n : ℕ)
    → n ≤ usize_max
    → fold_string_bytes ops n ≡ capped n (predicates_text ops)
unfolding fold_string_bytes predicates_text sum_of
fold_string_bytes_lem [] n h = omega arith
fold_string_bytes_lem (op ∷ ops) n h =
    ap (fold_string_bytes ops) (add_instruction op n)
    ∙ (fold_string_bytes_lem ops (capped n (predicate_text op)) (omega arith)
        ∙ capped-capped n (predicate_text op) (sum_of predicate_text ops))

pub add_predicates :
    (ops : List PredicateOp) (n : ℕ)
    → saturating_add n (predicate_string_bytes ops) ≡ capped n (predicates_text ops)
unfolding predicate_string_bytes saturating_add
add_predicates ops n = omega (arith, fold_string_bytes_lem ops 0 (omega arith))

pub add_candidate_lem :
    (c : CandidateTemplate) (n : ℕ) → add_candidate c n ≡ capped n (candidate_text c)
unfolding candidate_text saturating_add
add_candidate_lem c n = omega arith

pub text_sum_lem : (ss : List Bytes) → text_sum ss ≡ sum_of length ss
unfolding text_sum sum_of
text_sum_lem [] = refl
text_sum_lem (s ∷ ss) = ap (λ n. length s + n) (text_sum_lem ss)

-- The fields of a probe, added to a budget that holds its condition.
pub add_probe_lem :
    (p : ProbeSpec) (n : ℕ)
    → pair_sum p.environment ≡ sum_of variable_text p.environment
    → add_probe p (capped n (predicates_text p.when)) ≡ capped n (probe_text p)
unfolding probe_text saturating_add
add_probe_lem p n h = omega (arith, h, text_sum_lem p.arguments)
