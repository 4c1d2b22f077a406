-- ===== src/Ir/Typed.antt =====
-- What Rust's types guarantee of the data (`str` is well-formed UTF-8, a `u32` is below 2^32), and the
-- data that the encoder accepts: typed data that passes its validators.
use bash_lume.Base.{◌≤◌, ◌<◌, ◌≡◌, true, Option, none, some, List, Bytes, ok, length, All, u32_end}
use bash_lume.Base.Utf8.{valid_utf8}
use bash_lume.Ir.Types.{
  PredicateOp, current_word_equals, current_word_starts_with, previous_word_equals, any_word_equals,
  word_not_present, word_index_equals, word_index_at_least, command_path_equals, environment_set,
  environment_equals, CandidateTemplate, StaticRule, ProbeSpec, CommandProgram,
}
use bash_lume.Ir.Limits.{max_rules}
use bash_lume.Ir.Validate.{validate_string, validate_predicates, validate_candidate}

abbrev pub IsText : Bytes → Type 0
IsText s = valid_utf8 s ≡ true

abbrev pub IsOptionalText : Option Bytes → Type 0
IsOptionalText none = Unit
IsOptionalText (some s) = IsText s

abbrev pub IsTypedPredicate : PredicateOp → Type 0
IsTypedPredicate (current_word_equals s) = IsText s
IsTypedPredicate (current_word_starts_with s) = IsText s
IsTypedPredicate (previous_word_equals s) = IsText s
IsTypedPredicate (any_word_equals s) = IsText s
IsTypedPredicate (word_not_present s) = IsText s
IsTypedPredicate (word_index_equals n) = n < u32_end
IsTypedPredicate (word_index_at_least n) = n < u32_end
IsTypedPredicate (command_path_equals ss) = All IsText ss
IsTypedPredicate (environment_set s) = IsText s
IsTypedPredicate (environment_equals name s) = IsText name × IsText s
IsTypedPredicate _ = Unit

pub record IsTypedCandidate (c : CandidateTemplate) : Type 0 where
  pub value : IsText c.value
  pub display : IsText c.display
  pub description : IsOptionalText c.description

pub record IsTypedRule (rule : StaticRule) : Type 0 where
  pub when : All IsTypedPredicate rule.when
  pub candidates : All IsTypedCandidate rule.candidates

abbrev pub IsTypedVariable : Bytes × Bytes → Type 0
IsTypedVariable (name, value) = IsText name × IsText value

pub record IsTypedProbe (p : ProbeSpec) : Type 0 where
  pub id : IsText p.id
  pub when : All IsTypedPredicate p.when
  pub executable : IsText p.executable
  pub arguments : All IsText p.arguments
  pub environment : All IsTypedVariable p.environment
  pub timeout_ms : p.timeout_ms < u32_end
  pub output_limit : p.output_limit < u32_end
  pub cache_ttl_ms : p.cache_ttl_ms < u32_end
  pub description : IsOptionalText p.description

pub record IsTypedProgram {M : Type 0} (p : CommandProgram M) : Type 0 where
  pub canonical_name : IsText p.canonical_name
  pub registrations : All IsText p.registrations
  pub source_path : IsText p.source_path
  pub source_commit : IsText p.source_commit
  pub license : IsText p.license
  pub static_rules : All IsTypedRule p.static_rules
  pub probes : All IsTypedProbe p.probes

-- Accepted data: typed, and passed by its validator.
abbrev pub IsGoodString : Bytes → Type 0
IsGoodString s = (validate_string s ≡ ok tt) × IsText s

abbrev pub IsGoodOptional : Option Bytes → Type 0
IsGoodOptional none = Unit
IsGoodOptional (some s) = IsGoodString s

abbrev pub IsGoodPredicate : PredicateOp → Type 0
IsGoodPredicate (current_word_equals s) = IsGoodString s
IsGoodPredicate (current_word_starts_with s) = IsGoodString s
IsGoodPredicate (previous_word_equals s) = IsGoodString s
IsGoodPredicate (any_word_equals s) = IsGoodString s
IsGoodPredicate (word_not_present s) = IsGoodString s
IsGoodPredicate (word_index_equals n) = n < u32_end
IsGoodPredicate (word_index_at_least n) = n < u32_end
IsGoodPredicate (command_path_equals ss) = (length ss ≤ 256) × All IsGoodString ss
IsGoodPredicate (environment_set s) = IsGoodString s
IsGoodPredicate (environment_equals name s) = IsGoodString name × IsGoodString s
IsGoodPredicate _ = Unit

pub record IsGoodProgram (ops : List PredicateOp) : Type 0 where
  pub checked : validate_predicates ops ≡ ok tt
  pub short : length ops ≤ 4096
  pub each_good : All IsGoodPredicate ops

pub record IsGoodCandidate (c : CandidateTemplate) : Type 0 where
  pub checked : validate_candidate c ≡ ok tt
  pub value : IsGoodString c.value
  pub display : IsGoodString c.display
  pub description : IsGoodOptional c.description

pub record IsGoodRule (rule : StaticRule) : Type 0 where
  pub when : IsGoodProgram rule.when
  pub few : length rule.candidates ≤ max_rules
  pub candidates : All IsGoodCandidate rule.candidates

abbrev pub IsGoodVariable : Bytes × Bytes → Type 0
IsGoodVariable (name, value) = IsGoodString name × IsGoodString value

pub record IsGoodProbe (p : ProbeSpec) : Type 0 where
  pub id : IsGoodString p.id
  pub when : IsGoodProgram p.when
  pub executable : IsGoodString p.executable
  pub few_arguments : length p.arguments ≤ 1024
  pub arguments : All IsGoodString p.arguments
  pub few_variables : length p.environment ≤ 256
  pub environment : All IsGoodVariable p.environment
  pub timeout_ms : p.timeout_ms < u32_end
  pub output_limit : p.output_limit < u32_end
  pub cache_ttl_ms : p.cache_ttl_ms < u32_end
  pub description : IsGoodOptional p.description
