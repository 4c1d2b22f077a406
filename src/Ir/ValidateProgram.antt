-- ===== src/Ir/ValidateProgram.antt =====
-- `CommandProgram::validate` of rules/ir.rs: the loops over registrations, rules, probes and scripts, with
-- the string budget as an accumulator. The sum of allocated bytes that the function returns is left out.
use bash_lume.Base.{
  ℕ, ◌+◌, ◌-◌, Bool, false, not, ◌||◌, Option, none, some, List, [], ◌∷◌, Bytes, Result, ok, err,
  ◌==◌, ltb, length, any, all, bytes_eq, saturating_add, saturating_mul,
}
use bash_lume.Base.Outcome.{◌>>=◌, ◌>>◌, reject, require}
use bash_lume.Base.Utf8.{in_range}
use bash_lume.Ir.Types.{
  IrError, invalid, limit, CandidateTemplate, StaticRule, ProbeSpec, CommandProgram,
}
use bash_lume.Ir.Limits.{
  max_registrations, max_rules, max_probes, max_strings_bytes, max_script_modules,
  max_script_aggregate_bytes, Sizes, ScriptIr,
}
use bash_lume.Ir.Validate.{
  is_empty, validate_string, validate_optional, try_for_each, validate_predicates,
  validate_candidate, validate_executable, predicate_string_bytes, optional_length,
}

-- Each loop returns the string budget used so far.
abbrev Budget : Type 0
Budget = Result IrError ℕ

unfoldable pub validate_registrations : List Bytes → ℕ → Budget
validate_registrations [] n = ok n
validate_registrations (r ∷ rs) n = do
  validate_string r
  validate_registrations rs (saturating_add n (length r))

abbrev pub add_candidate : CandidateTemplate → ℕ → ℕ
add_candidate c n =
    saturating_add (saturating_add (saturating_add n (length c.value)) (length c.display))
      (optional_length c.description)

unfoldable pub validate_candidates : List CandidateTemplate → ℕ → Budget
validate_candidates [] n = ok n
validate_candidates (c ∷ cs) n = do validate_candidate c; validate_candidates cs (add_candidate c n)

unfoldable pub validate_rule : StaticRule → ℕ → Budget
validate_rule rule n = do
  validate_predicates rule.when
  reject (ltb max_rules (length rule.candidates)) (limit "candidates per static rule")
  validate_candidates rule.candidates (saturating_add n (predicate_string_bytes rule.when))

unfoldable pub validate_rules : List StaticRule → ℕ → Budget
validate_rules [] n = ok n
validate_rules (rule ∷ rules) n = do used ← validate_rule rule n; validate_rules rules used

abbrev is_alphabetic : ℕ → Bool
is_alphabetic b = in_range b'a' b'z' b || in_range b'A' b'Z' b

abbrev is_name_byte : ℕ → Bool
is_name_byte b = b == b'_' || (is_alphabetic b || in_range b'0' b'9' b)

abbrev is_name_start : Bytes → Bool
is_name_start [] = false
is_name_start (b ∷ bs) = b == b'_' || is_alphabetic b

unfoldable pub validate_variable : Bytes × Bytes → Result IrError (Unit {0})
validate_variable (name, value) = do
  validate_string name
  validate_string value
  reject (is_empty name || not (all is_name_byte name) || not (is_name_start name))
      (invalid "invalid probe environment name")

-- `iter().map(..).sum()` over the argument and environment texts
unfoldable pub text_sum : List Bytes → ℕ
text_sum [] = 0
text_sum (s ∷ ss) = length s + text_sum ss

unfoldable pub pair_sum : List (Bytes × Bytes) → ℕ
pair_sum [] = 0
pair_sum ((name, value) ∷ rest) = saturating_add (length name) (length value) + pair_sum rest

abbrev pub add_probe : ProbeSpec → ℕ → ℕ
add_probe p n =
    saturating_add
      (saturating_add
        (saturating_add (saturating_add (saturating_add n (length p.id)) (length p.executable))
          (text_sum p.arguments))
        (pair_sum p.environment))
      (optional_length p.description)

-- The body of the loop over the probes, after the test for a duplicate id.
unfoldable pub validate_probe : ProbeSpec → ℕ → Budget
validate_probe p n = do
  validate_predicates p.when
  validate_string p.id
  validate_executable p.executable
  reject (ltb 1024 (length p.arguments) || ltb 256 (length p.environment))
      (limit "probe arguments or environment")
  try_for_each validate_string p.arguments
  try_for_each validate_variable p.environment
  validate_optional p.description
  require (in_range 10 30000 p.timeout_ms) (invalid "probe timeout is outside policy bounds")
  require (in_range 1024 8388608 p.output_limit)
      (invalid "probe output limit is outside policy bounds")
  reject (ltb 3600000 p.cache_ttl_ms) (invalid "probe cache TTL is outside policy bounds")
  ok (add_probe p (saturating_add n (predicate_string_bytes p.when)))

-- `seen` holds the ids of the probes before, `probe_ids`.
unfoldable pub validate_probes : List Bytes → List ProbeSpec → ℕ → Budget
validate_probes seen [] n = ok n
validate_probes seen (p ∷ ps) n = do
  reject (any (bytes_eq p.id) seen) (invalid "duplicate probe id")
  used ← validate_probe p n
  validate_probes (p.id ∷ seen) ps used

module _ (Z : Sizes) (S : ScriptIr) where
  open S use {ScriptModule, approximate_bytes, vec_capacity}

  abbrev module_budget : Option ℕ → Budget
  module_budget none = err (invalid "invalid shell script IR")
  module_budget (some n) = ok n

  -- The loop over the scripts, with `script_bytes` as the accumulator.
  unfoldable pub validate_scripts : List ScriptModule → ℕ → Budget
  validate_scripts [] n = ok n
  validate_scripts (m ∷ ms) n = do
    retained ← module_budget (approximate_bytes m)
    let used = saturating_add n (retained - Z.of_module)
    reject (ltb max_script_aggregate_bytes used) (limit "aggregate shell script IR")
    validate_scripts ms used

  abbrev pub header_bytes : CommandProgram ScriptModule → ℕ
  header_bytes p =
      saturating_add
        (saturating_add (saturating_add (length p.canonical_name) (length p.source_path))
          (length p.source_commit))
        (length p.license)

  -- The loops that fill `string_bytes`, in turn.
  unfoldable pub string_budget : CommandProgram ScriptModule → Budget
  string_budget p = do
    after_registrations ← validate_registrations p.registrations (header_bytes p)
    after_rules ← validate_rules p.static_rules after_registrations
    validate_probes [] p.probes after_rules

  unfoldable pub validate : CommandProgram ScriptModule → Result IrError (Unit {0})
  validate p = do
    reject (is_empty p.canonical_name) (invalid "canonical command name is empty")
    reject (is_empty p.registrations || ltb max_registrations (length p.registrations))
        (limit "command registrations")
    reject (ltb max_rules (length p.static_rules)) (limit "static rules")
    reject (ltb max_probes (length p.probes)) (limit "dynamic probes")
    reject (ltb max_script_modules (length p.scripts)) (limit "script modules")
    _ ← validate_scripts p.scripts (saturating_mul (vec_capacity p.scripts) Z.of_module)
    string_bytes ← string_budget p
    reject (ltb max_strings_bytes string_bytes) (limit "command string table")
    validate_string p.canonical_name
    validate_string p.source_path
    validate_string p.source_commit
    validate_string p.license
