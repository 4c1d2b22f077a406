-- ===== src/Ir/AcceptsProbes.antt =====
-- From the validators of rules/ir.rs to what the encoder takes: the probes.
use bash_lume.Base.{
  ℕ, ◌≤◌, ◌≡◌, refl, sym, ap, ◌∙◌, ◌||◌, List, [], ◌∷◌, Bytes, ok, arith, length, All, usize_max,
  saturating_add, ltb, ltb→le, or-eq-false, any, bytes_eq,
}
use bash_lume.Base.Utf8.{in_range}
use bash_lume.Base.Outcome.{>>=-eq-ok, >>-eq-ok, reject->>-eq-ok, require->>-eq-ok, ok-injective}
use bash_lume.Ir.Types.{ProbeSpec}
use bash_lume.Ir.Validate.{
  validate_string, validate_optional, try_for_each, validate_predicates, validate_executable,
}
use bash_lume.Ir.ValidateProgram.{
  validate_variable, pair_sum, add_probe, validate_probe, validate_probes,
}
use bash_lume.Ir.Wire.{sum_of, variable_text, probe_text}
use bash_lume.Ir.Budget.{capped, add_predicates, add_probe_lem}
use bash_lume.Ir.Typed.{IsTypedVariable, IsTypedProbe, IsGoodVariable, IsGoodProbe}
use bash_lume.Ir.Accepts.{good_strings, good_optional, good_program}
use bash_lume.Ir.WritesData.{length-validate_string}

good_variable :
    (v : Bytes × Bytes) → validate_variable v ≡ ok tt → IsTypedVariable v → IsGoodVariable v
unfolding validate_variable
good_variable (name, value) h t =
    let (first, h₁) = >>-eq-ok (validate_string name) _ h in
    let (second, _) = >>-eq-ok (validate_string value) _ h₁ in ((first, t.0), (second, t.1))

good_environment :
    (vs : List (Bytes × Bytes))
    → try_for_each validate_variable vs ≡ ok tt
    → All IsTypedVariable vs
    → All IsGoodVariable vs
unfolding try_for_each
good_environment [] h t = tt
good_environment (v ∷ vs) h t =
    let (first, rest) = >>-eq-ok (validate_variable v) _ h in
    (good_variable v first t.0, good_environment vs rest t.1)

-- No sum over validated names and values saturates.
pair_sum_lem :
    (vs : List (Bytes × Bytes)) → All IsGoodVariable vs → pair_sum vs ≡ sum_of variable_text vs
unfolding pair_sum sum_of variable_text saturating_add
pair_sum_lem [] g = refl
pair_sum_lem ((name, value) ∷ vs) g = omega (
  arith,
  pair_sum_lem vs g.1,
  length-validate_string name g.0.0.0,
  length-validate_string value g.0.1.0,
)

good_executable : (s : Bytes) → validate_executable s ≡ ok tt → validate_string s ≡ ok tt
unfolding validate_executable
good_executable s h = (>>-eq-ok (validate_string s) _ h).0

good_probe :
    (p : ProbeSpec) (n : ℕ) {r : ℕ}
    → validate_probe p n ≡ ok r
    → IsTypedProbe p
    → IsGoodProbe p × (r ≡ capped n (probe_text p))
unfolding validate_probe
good_probe p n {r} h t =
    let (when, h₁) = >>-eq-ok (validate_predicates p.when) _ h in
    let (id, h₂) = >>-eq-ok (validate_string p.id) _ h₁ in
    let (executable, h₃) = >>-eq-ok (validate_executable p.executable) _ h₂ in
    let (few, h₄) =
      reject->>-eq-ok (ltb 1024 (length p.arguments) || ltb 256 (length p.environment)) _ _ h₃ in
    let (arguments, h₅) = >>-eq-ok (try_for_each validate_string p.arguments) _ h₄ in
    let (variables, h₆) = >>-eq-ok (try_for_each validate_variable p.environment) _ h₅ in
    let (description, h₇) = >>-eq-ok (validate_optional p.description) _ h₆ in
    let (_, h₈) = require->>-eq-ok (in_range 10 30000 p.timeout_ms) _ _ h₇ in
    let (_, h₉) = require->>-eq-ok (in_range 1024 8388608 p.output_limit) _ _ h₈ in
    let (_, used) = reject->>-eq-ok (ltb 3600000 p.cache_ttl_ms) _ _ h₉ in
    let (few_arguments, few_variables) = or-eq-false (ltb 1024 (length p.arguments)) _ few in
    let environment = good_environment p.environment variables t.environment in
    (
      record {
        id = (id, t.id);
        when = good_program p.when when t.when;
        executable = (good_executable p.executable executable, t.executable);
        few_arguments = ltb→le (length p.arguments) 1024 few_arguments;
        arguments = good_strings p.arguments arguments t.arguments;
        few_variables = ltb→le (length p.environment) 256 few_variables;
        environment = environment;
        timeout_ms = t.timeout_ms;
        output_limit = t.output_limit;
        cache_ttl_ms = t.cache_ttl_ms;
        description = good_optional p.description description t.description;
      },
      ok-injective (sym used)
          ∙ (ap (add_probe p) (add_predicates p.when n)
              ∙ add_probe_lem p n (pair_sum_lem p.environment environment)),
    )

pub good_probes :
    (seen : List Bytes) (ps : List ProbeSpec) (n : ℕ) {r : ℕ}
    → validate_probes seen ps n ≡ ok r
    → n ≤ usize_max
    → All IsTypedProbe ps
    → All IsGoodProbe ps × (r ≡ capped n (sum_of probe_text ps))
unfolding validate_probes sum_of
good_probes seen [] n h le t = (tt, ground arith)
good_probes seen (p ∷ ps) n h le t =
    let (_, h₁) = reject->>-eq-ok (any (bytes_eq p.id) seen) _ _ h in
    let (m, first, rest) = >>=-eq-ok (validate_probe p n) _ h₁ in
    let (good, e) = good_probe p n first t.0 in
    let (goods, used) = good_probes (p.id ∷ seen) ps m rest (omega (arith, e)) t.1 in
    ((good, goods), omega (arith, e, used))
