-- ===== src/Ir/ReadsRules.antt =====
-- The decoders of rules and probes of rules/ir.rs against the layout.
use bash_lume.Base.{ℕ, ◌≤◌, [], ◌∷◌, Bytes, arith, length, le→leb}
use bash_lume.Ir.Types.{PathCompletion, path_completion_encode, StaticRule, ProbeSpec}
use bash_lume.Ir.Limits.{max_rules, Sizes}
use bash_lume.Ir.DecodeProgram.{decode_path_completion, decode_variable, decode_rule, decode_probe}
use bash_lume.Ir.Wire.{
  rule_wire, variable_wire, probe_wire, rule_text, variable_text, probe_text, rule_cost, probe_cost,
}
use bash_lume.Ir.Codes.{
  kind_decode-encode, append_decode-encode, path_completion_decode-encode, parser_decode-encode,
}
use bash_lume.Ir.Reads.{
  Reads, Reads-bind, Reads-free, Reads-lift, Reads-pure, Reads-checked, Reads-end,
  Reads-charge_array->>, Reads-each,
}
use bash_lume.Ir.ReadsData.{
  Reads-u8, Reads-u32, Reads-count, Reads-string, Reads-optional, Reads-strings, Reads-predicates,
  Reads-candidate, zero_flag_zero,
}
use bash_lume.Ir.Typed.{IsGoodRule, IsGoodVariable, IsGoodProbe}

Reads-path_completion :
    (version : ℕ)
    → 2 ≤ version
    → (c : PathCompletion)
    → Reads (decode_path_completion version) (path_completion_encode c ∷ []) c 0 0
unfolding decode_path_completion
Reads-path_completion version v c =
    rw (le→leb 2 version v)
      (Reads-free _ (Reads-u8 _) (Reads-checked (path_completion_decode-encode c)))

pub Reads-variable :
    (v : Bytes × Bytes)
    → IsGoodVariable v
    → Reads decode_variable (variable_wire v) v (variable_text v) (variable_text v)
unfolding decode_variable variable_wire variable_text
Reads-variable (name, value) h =
    Reads-bind _ (Reads-string name h.0) (Reads-end (λ x. (name, x)) (Reads-string value h.1))

module _ (Z : Sizes) where
  pub Reads-rule :
      (version : ℕ)
      → 2 ≤ version
      → (rule : StaticRule) → IsGoodRule rule
      → Reads (decode_rule Z version) (rule_wire rule) rule (rule_text rule) (rule_cost Z rule)
  unfolding decode_rule rule_wire rule_text rule_cost
  Reads-rule version v rule h = Reads-bind _ (Reads-predicates Z rule.when h.when) (
      Reads-free _ (Reads-path_completion version v rule.path_completion) (
        Reads-free _ (Reads-count max_rules (length rule.candidates) h.few (omega (arith, h.few))) (
          Reads-charge_array->> Z.of_candidate (length rule.candidates) _ (
            Reads-bind _ (Reads-each Reads-candidate rule.candidates h.candidates)
              (Reads-pure rule)))))

  pub Reads-probe :
      (p : ProbeSpec)
      → IsGoodProbe p
      → Reads (decode_probe Z) (probe_wire p) p (probe_text p) (probe_cost Z p)
  unfolding decode_probe probe_wire probe_text probe_cost
  Reads-probe p h = Reads-bind _ (Reads-string p.id h.id) (
      Reads-bind _ (Reads-predicates Z p.when h.when) (
        Reads-bind _ (Reads-string p.executable h.executable) (
          Reads-bind _
            (Reads-strings Z 1024 p.arguments h.few_arguments (omega (arith, h.few_arguments))
              h.arguments)
            (Reads-free _
              (Reads-count 256 (length p.environment) h.few_variables
                (omega (arith, h.few_variables)))
              (Reads-charge_array->> Z.of_pair (length p.environment) _ (
                Reads-bind _ (Reads-each Reads-variable p.environment h.environment) (
                  Reads-free _ (Reads-u8 _) (
                    Reads-lift _ (parser_decode-encode p.parser) (
                      Reads-free _ (Reads-u8 _) (
                        Reads-lift _ (kind_decode-encode p.candidate_kind) (
                          Reads-free _ (Reads-u8 _) (
                            Reads-lift _ (append_decode-encode p.append) (
                              Reads-free _ (Reads-u8 0) (
                                Reads-lift _ (zero_flag_zero _) (
                                  Reads-free _ (Reads-u32 p.timeout_ms h.timeout_ms) (
                                    Reads-free _ (Reads-u32 p.output_limit h.output_limit) (
                                      Reads-free _ (Reads-u32 p.cache_ttl_ms h.cache_ttl_ms) (
                                        Reads-bind _ (Reads-optional p.description h.description)
                                          (Reads-pure p)))))))))))))))))))
