-- ===== src/Ir/WritesData.antt =====
-- The encoders of texts, predicates, rules and probes in rules/ir.rs against the layout.
use bash_lume.Base.{
  ℕ, ◌≤◌, ◌<◌, ◌≡◌, Option, none, some, List, Bytes, ok, arith, length, All, le→leb, u32_end,
}
use bash_lume.Ir.Types.{
  PredicateOp, op_true, op_false, op_not, op_and, op_or, current_word_equals,
  current_word_starts_with, previous_word_equals, any_word_equals, word_not_present,
  word_index_equals, word_index_at_least, command_path_equals, environment_set, environment_equals,
  CandidateTemplate, StaticRule, ProbeSpec,
}
use bash_lume.Ir.Validate.{validate_string}
use bash_lume.Ir.Encoder.{
  put_string, put_blob, put_optional_string, put_strings, encode_predicate, encode_predicates,
  encode_candidate,
}
use bash_lume.Ir.EncodeProgram.{encode_rule, encode_variable, encode_probe}
use bash_lume.Ir.Wire.{
  string_wire, optional_wire, strings_wire, predicate_wire, predicates_wire, candidate_wire,
  rule_wire, variable_wire, probe_wire,
}
use bash_lume.Ir.Writes.{
  Writes, Writes-extend, Writes->>, Writes-last, Writes-ensure, Writes-u8, Writes-u32, Writes-count,
  Writes-each,
}
use bash_lume.Ir.Typed.{
  IsGoodString, IsGoodOptional, IsGoodPredicate, IsGoodProgram, IsGoodCandidate, IsGoodRule,
  IsGoodVariable, IsGoodProbe,
}

pub length-validate_string : (s : Bytes) → validate_string s ≡ ok tt → length s ≤ 1048576
unfolding validate_string
length-validate_string s h = ground arith

pub Writes-string : (s : Bytes) → IsGoodString s → Writes (put_string s) (string_wire s)
unfolding put_string string_wire
Writes-string s h = Writes-ensure h.0 (
    Writes->> (Writes-count _ (omega (arith, length-validate_string s h.0)))
      (Writes-last (Writes-extend s)))

pub Writes-blob : (s : Bytes) → length s < u32_end → Writes (put_blob s) (string_wire s)
unfolding put_blob string_wire
Writes-blob s h = Writes->> (Writes-count _ h) (Writes-last (Writes-extend s))

pub Writes-optional :
    (s : Option Bytes) → IsGoodOptional s → Writes (put_optional_string s) (optional_wire s)
unfolding put_optional_string optional_wire
Writes-optional none h = Writes-last (Writes-u8 0)
Writes-optional (some s) h = Writes->> (Writes-u8 1) (Writes-last (Writes-string s h))

pub Writes-strings :
    (ss : List Bytes)
    → length ss < u32_end
    → All IsGoodString ss
    → Writes (put_strings ss) (strings_wire ss)
unfolding put_strings strings_wire
Writes-strings ss few good =
    Writes->> (Writes-count _ few) (Writes-last (Writes-each Writes-string ss good))

pub Writes-predicate :
    (op : PredicateOp) → IsGoodPredicate op → Writes (encode_predicate op) (predicate_wire op)
unfolding encode_predicate predicate_wire
Writes-predicate op_true h = Writes-last (Writes-u8 0)
Writes-predicate op_false h = Writes-last (Writes-u8 1)
Writes-predicate op_not h = Writes-last (Writes-u8 2)
Writes-predicate op_and h = Writes-last (Writes-u8 3)
Writes-predicate op_or h = Writes-last (Writes-u8 4)
Writes-predicate (current_word_equals s) h =
    Writes->> (Writes-u8 5) (Writes-last (Writes-string s h))
Writes-predicate (current_word_starts_with s) h =
    Writes->> (Writes-u8 6) (Writes-last (Writes-string s h))
Writes-predicate (previous_word_equals s) h =
    Writes->> (Writes-u8 7) (Writes-last (Writes-string s h))
Writes-predicate (any_word_equals s) h = Writes->> (Writes-u8 8) (Writes-last (Writes-string s h))
Writes-predicate (word_not_present s) h = Writes->> (Writes-u8 9) (Writes-last (Writes-string s h))
Writes-predicate (word_index_equals n) h = Writes->> (Writes-u8 10) (Writes-last (Writes-u32 n))
Writes-predicate (word_index_at_least n) h = Writes->> (Writes-u8 11) (Writes-last (Writes-u32 n))
Writes-predicate (command_path_equals ss) h =
    Writes->> (Writes-u8 12) (Writes-last (Writes-strings ss (omega arith) h.1))
Writes-predicate (environment_set s) h = Writes->> (Writes-u8 13) (Writes-last (Writes-string s h))
Writes-predicate (environment_equals name s) h =
    Writes->> (Writes-u8 14)
      (Writes->> (Writes-string name h.0) (Writes-last (Writes-string s h.1)))

pub Writes-predicates :
    (ops : List PredicateOp)
    → IsGoodProgram ops
    → Writes (encode_predicates ops) (predicates_wire ops)
unfolding encode_predicates predicates_wire
Writes-predicates ops h = Writes-ensure h.checked (
    Writes->> (Writes-count _ (omega (arith, h.short)))
      (Writes-last (Writes-each Writes-predicate ops h.each_good)))

pub Writes-candidate :
    (c : CandidateTemplate) → IsGoodCandidate c → Writes (encode_candidate c) (candidate_wire c)
unfolding encode_candidate candidate_wire
Writes-candidate c h = Writes-ensure h.checked (
    Writes->> (Writes-string c.value h.value) (
      Writes->> (Writes-string c.display h.display) (
        Writes->> (Writes-optional c.description h.description) (
          Writes->> (Writes-u8 _)
            (Writes->> (Writes-u8 _) (Writes->> (Writes-u8 _) (Writes-last (Writes-u8 0))))))))

pub Writes-rule :
    (version : ℕ)
    → 2 ≤ version
    → (rule : StaticRule) → IsGoodRule rule
    → Writes (encode_rule version rule) (rule_wire rule)
unfolding encode_rule rule_wire
Writes-rule version v rule h = rw (le→leb 2 version v) (
    Writes->> (Writes-predicates rule.when h.when) (
      Writes->> (Writes-u8 _) (
        Writes->> (Writes-count _ (omega (arith, h.few)))
          (Writes-last (Writes-each Writes-candidate rule.candidates h.candidates)))))

pub Writes-variable :
    (v : Bytes × Bytes) → IsGoodVariable v → Writes (encode_variable v) (variable_wire v)
unfolding encode_variable variable_wire
Writes-variable (name, value) h =
    Writes->> (Writes-string name h.0) (Writes-last (Writes-string value h.1))

pub Writes-probe : (p : ProbeSpec) → IsGoodProbe p → Writes (encode_probe p) (probe_wire p)
unfolding encode_probe probe_wire
Writes-probe p h = Writes->> (Writes-string p.id h.id) (
    Writes->> (Writes-predicates p.when h.when) (
      Writes->> (Writes-string p.executable h.executable) (
        Writes->> (Writes-strings p.arguments (omega (arith, h.few_arguments)) h.arguments) (
          Writes->> (Writes-count _ (omega (arith, h.few_variables))) (
            Writes->> (Writes-each Writes-variable p.environment h.environment) (
              Writes->> (Writes-u8 _) (
                Writes->> (Writes-u8 _) (
                  Writes->> (Writes-u8 _) (
                    Writes->> (Writes-u8 0) (
                      Writes->> (Writes-u32 p.timeout_ms) (
                        Writes->> (Writes-u32 p.output_limit) (
                          Writes->> (Writes-u32 p.cache_ttl_ms)
                            (Writes-last (Writes-optional p.description h.description))))))))))))))
