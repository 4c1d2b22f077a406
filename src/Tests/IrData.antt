-- ===== src/Tests/IrData.antt =====
-- A small command program, and a script IR whose JSON text is an array of digits.
use bash_lume.Base.{
  false, refl, ℕ, ◌+◌, ◌-◌, saturating_add, ◌≡◌, true, none, some, List, [], ◌∷◌, Bytes, ok, length,
  ◌==◌, if◌then◌else◌,
}
use bash_lume.Ir.Types.{
  PredicateOp, op_and, current_word_starts_with, word_index_at_least, StaticRule, CandidateTemplate,
  RuleCandidateKind, AppendPolicy, PathCompletion, ProbeParser, ProbeSpec, CommandProgram,
}
use bash_lume.Ir.Limits.{Sizes, ScriptIr}
use bash_lume.Ir.Preflight.{preflight_script_encoding_with_limit}
use bash_lume.Base.Codes.{codes}
use bash_lume.Base.Utf8.{valid_utf8, in_range}
use bash_lume.Ir.JsonLaws.{json_text, JsonLaws}

abbrev pub sizes : Sizes
sizes = record {
  of_string = 24;
  of_predicate = 56;
  of_rule = 56;
  of_candidate = 80;
  of_probe = 192;
  of_pair = 48;
  of_module = 96;
  of_vec = 24;
  of_statement = 72;
  of_str = 16;
}

-- The JSON text of a module is its number.
abbrev module_chunks : List ℕ → List Bytes
module_chunks [] = codes "]" ∷ []
module_chunks (m ∷ []) = ((b'0' + m) ∷ []) ∷ codes "]" ∷ []
module_chunks (m ∷ scripts) = ((b'0' + m) ∷ codes ",") ∷ module_chunks scripts

-- The digits of a text.
abbrev module_numbers : Bytes → List ℕ
module_numbers [] = []
module_numbers (b ∷ text) =
    let later = module_numbers text in if in_range b'0' b'9' b then (b - b'0') ∷ later else later

abbrev pub script_ir : ScriptIr
script_ir = record {
  ScriptModule = ℕ;
  approximate_bytes = λ m. some 128;
  requires_block_v4 = λ m. m == 4;
  vec_capacity = λ scripts. length scripts;
  json_writes = λ scripts. (codes "[" ∷ module_chunks scripts, true);
  from_json = λ text. some (module_numbers text);
}

abbrev pub condition : List PredicateOp
condition = current_word_starts_with (b'-' ∷ []) ∷ word_index_at_least 1 ∷ op_and ∷ []

abbrev candidate : CandidateTemplate
candidate = record {
  value = b'-' ∷ b'v' ∷ [];
  display = b'-' ∷ b'v' ∷ [];
  description = some (b'v' ∷ 0xc3 ∷ 0xa9 ∷ []);
  kind = RuleCandidateKind.option;
  append = AppendPolicy.space;
  preserve_order = true;
}

abbrev rule : StaticRule
rule = record {
  when = condition;
  path_completion = PathCompletion.suppress;
  candidates = candidate ∷ [];
}

abbrev probe : ProbeSpec
probe = record {
  id = b'p' ∷ [];
  when = condition;
  executable = b'g' ∷ b'i' ∷ b't' ∷ [];
  arguments = (b'l' ∷ b's' ∷ []) ∷ [];
  environment = ((b'A' ∷ []), (b'1' ∷ [])) ∷ [];
  parser = ProbeParser.lines;
  candidate_kind = RuleCandidateKind.value;
  append = AppendPolicy.no_space;
  timeout_ms = 2000;
  output_limit = 1048576;
  cache_ttl_ms = 1000;
  description = none;
}

abbrev pub program : CommandProgram ℕ
program = record {
  canonical_name = b'g' ∷ b'i' ∷ b't' ∷ [];
  registrations = (b'g' ∷ b'i' ∷ b't' ∷ []) ∷ [];
  source_path = b'x' ∷ [];
  source_commit = b'0' ∷ [];
  license = b'M' ∷ [];
  static_rules = rule ∷ [];
  probes = probe ∷ [];
  scripts = 4 ∷ 7 ∷ [];
}

-- A value of 16 bytes for each module, and the vector.
pub program_preflight :
    preflight_script_encoding_with_limit sizes (json_text script_ir program.scripts) 80 false
    ≡ ok 80
unfolding preflight_script_encoding_with_limit valid_utf8 saturating_add
program_preflight = refl

abbrev pub script_laws : JsonLaws script_ir sizes program.scripts
script_laws = record {
  preflight_cost = 80;
  parses_back = refl;
  passes_preflight = program_preflight;
}
