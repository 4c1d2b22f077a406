-- ===== src/Ir/Wire.antt =====
-- The layout of a command block, written as an equation for each kind of data and independently of the
-- code of the encoder and the decoder, and what each kind takes from the decoder's two budgets.
use bash_lume.Base.{
  ℕ, ◌+◌, ◌*◌, ◌++◌, Option, none, some, List, [], ◌∷◌, Bytes, length, join, total, le16, le32,
}
use bash_lume.Ir.Types.{
  PredicateOp, op_true, op_false, op_not, op_and, op_or, current_word_equals,
  current_word_starts_with, previous_word_equals, any_word_equals, word_not_present,
  word_index_equals, word_index_at_least, command_path_equals, environment_set, environment_equals,
  CandidateTemplate, StaticRule, ProbeSpec, CommandProgram, kind_encode, append_encode,
  path_completion_encode, parser_encode,
}
use bash_lume.Ir.Limits.{command_block_magic, probe_id_validation_scratch_bytes, Sizes}
use bash_lume.Ir.Encoder.{flag_byte}
use bash_lume.Ir.Validate.{optional_length}

-- The items one after the other, and a sum over them.
unfoldable pub each {ℓ} : {A : Type ℓ} → (A → Bytes) → List A → Bytes
each item [] = []
each item (x ∷ xs) = item x ++ each item xs

unfoldable pub sum_of {ℓ} : {A : Type ℓ} → (A → ℕ) → List A → ℕ
sum_of item [] = 0
sum_of item (x ∷ xs) = item x + sum_of item xs

-- A sequence: its count as a u32, then its items.
abbrev pub sequence {ℓ} : {A : Type ℓ} → (A → Bytes) → List A → Bytes
sequence item xs = join (le32 (length xs) ∷ each item xs ∷ [])

unfoldable pub string_wire : Bytes → Bytes
string_wire s = join (le32 (length s) ∷ s ∷ [])

unfoldable pub optional_wire : Option Bytes → Bytes
optional_wire none = join ((0 ∷ []) ∷ [])
optional_wire (some s) = join ((1 ∷ []) ∷ string_wire s ∷ [])

unfoldable pub strings_wire : List Bytes → Bytes
strings_wire ss = sequence string_wire ss

unfoldable pub predicate_wire : PredicateOp → Bytes
predicate_wire op_true = join ((0 ∷ []) ∷ [])
predicate_wire op_false = join ((1 ∷ []) ∷ [])
predicate_wire op_not = join ((2 ∷ []) ∷ [])
predicate_wire op_and = join ((3 ∷ []) ∷ [])
predicate_wire op_or = join ((4 ∷ []) ∷ [])
predicate_wire (current_word_equals s) = join ((5 ∷ []) ∷ string_wire s ∷ [])
predicate_wire (current_word_starts_with s) = join ((6 ∷ []) ∷ string_wire s ∷ [])
predicate_wire (previous_word_equals s) = join ((7 ∷ []) ∷ string_wire s ∷ [])
predicate_wire (any_word_equals s) = join ((8 ∷ []) ∷ string_wire s ∷ [])
predicate_wire (word_not_present s) = join ((9 ∷ []) ∷ string_wire s ∷ [])
predicate_wire (word_index_equals n) = join ((10 ∷ []) ∷ le32 n ∷ [])
predicate_wire (word_index_at_least n) = join ((11 ∷ []) ∷ le32 n ∷ [])
predicate_wire (command_path_equals ss) = join ((12 ∷ []) ∷ strings_wire ss ∷ [])
predicate_wire (environment_set s) = join ((13 ∷ []) ∷ string_wire s ∷ [])
predicate_wire (environment_equals name s) =
    join ((14 ∷ []) ∷ string_wire name ∷ string_wire s ∷ [])

unfoldable pub predicates_wire : List PredicateOp → Bytes
predicates_wire ops = sequence predicate_wire ops

unfoldable pub candidate_wire : CandidateTemplate → Bytes
candidate_wire c = join (
    string_wire c.value
    ∷ string_wire c.display
    ∷ optional_wire c.description
    ∷ (kind_encode c.kind ∷ [])
    ∷ (append_encode c.append ∷ [])
    ∷ (flag_byte c.preserve_order ∷ [])
    ∷ (0 ∷ [])
    ∷ [])

-- The layout since version 2, which added the path completion.
unfoldable pub rule_wire : StaticRule → Bytes
rule_wire rule = join (
    predicates_wire rule.when
    ∷ (path_completion_encode rule.path_completion ∷ [])
    ∷ le32 (length rule.candidates)
    ∷ each candidate_wire rule.candidates
    ∷ [])

unfoldable pub variable_wire : Bytes × Bytes → Bytes
variable_wire (name, value) = join (string_wire name ∷ string_wire value ∷ [])

unfoldable pub probe_wire : ProbeSpec → Bytes
probe_wire p = join (
    string_wire p.id
    ∷ predicates_wire p.when
    ∷ string_wire p.executable
    ∷ strings_wire p.arguments
    ∷ le32 (length p.environment)
    ∷ each variable_wire p.environment
    ∷ (parser_encode p.parser ∷ [])
    ∷ (kind_encode p.candidate_kind ∷ [])
    ∷ (append_encode p.append ∷ [])
    ∷ (0 ∷ [])
    ∷ le32 p.timeout_ms
    ∷ le32 p.output_limit
    ∷ le32 p.cache_ttl_ms
    ∷ optional_wire p.description
    ∷ [])

-- The whole block since version 3, which added the scripts, given as their JSON text.
unfoldable pub block_wire : {M : Type 0} → CommandProgram M → ℕ → Bytes → Bytes
block_wire p version json = join (
    command_block_magic
    ∷ le16 version
    ∷ le16 0
    ∷ string_wire p.canonical_name
    ∷ strings_wire p.registrations
    ∷ string_wire p.source_path
    ∷ string_wire p.source_commit
    ∷ string_wire p.license
    ∷ le32 (length p.static_rules)
    ∷ each rule_wire p.static_rules
    ∷ le32 (length p.probes)
    ∷ each probe_wire p.probes
    ∷ string_wire json
    ∷ [])

-- The text bytes of each kind of data: what the string budgets count.
unfoldable pub predicate_text : PredicateOp → ℕ
predicate_text (current_word_equals s) = length s
predicate_text (current_word_starts_with s) = length s
predicate_text (previous_word_equals s) = length s
predicate_text (any_word_equals s) = length s
predicate_text (word_not_present s) = length s
predicate_text (command_path_equals ss) = sum_of length ss
predicate_text (environment_set s) = length s
predicate_text (environment_equals name s) = total (length name ∷ length s ∷ [])
predicate_text _ = 0

unfoldable pub predicates_text : List PredicateOp → ℕ
predicates_text = sum_of predicate_text

unfoldable pub candidate_text : CandidateTemplate → ℕ
candidate_text c = total (length c.value ∷ length c.display ∷ optional_length c.description ∷ [])

unfoldable pub rule_text : StaticRule → ℕ
rule_text rule = total (predicates_text rule.when ∷ sum_of candidate_text rule.candidates ∷ [])

unfoldable pub variable_text : Bytes × Bytes → ℕ
variable_text (name, value) = total (length name ∷ length value ∷ [])

unfoldable pub probe_text : ProbeSpec → ℕ
probe_text p = total (
    length p.id
    ∷ predicates_text p.when
    ∷ length p.executable
    ∷ sum_of length p.arguments
    ∷ sum_of variable_text p.environment
    ∷ optional_length p.description
    ∷ [])

unfoldable pub program_text : {M : Type 0} → CommandProgram M → ℕ
program_text p = total (
    length p.canonical_name
    ∷ sum_of length p.registrations
    ∷ length p.source_path
    ∷ length p.source_commit
    ∷ length p.license
    ∷ sum_of rule_text p.static_rules
    ∷ sum_of probe_text p.probes
    ∷ [])

-- What decoding charges to the allocation budget, with the element sizes of the compiler.
module _ (Z : Sizes) where
  unfoldable pub strings_cost : List Bytes → ℕ
  strings_cost ss = total (length ss * Z.of_string ∷ sum_of length ss ∷ [])

  unfoldable pub predicate_cost : PredicateOp → ℕ
  predicate_cost (command_path_equals ss) = strings_cost ss
  predicate_cost op = predicate_text op

  unfoldable pub predicates_cost : List PredicateOp → ℕ
  predicates_cost ops = total (length ops * Z.of_predicate ∷ sum_of predicate_cost ops ∷ [])

  unfoldable pub rule_cost : StaticRule → ℕ
  rule_cost rule = total (
      predicates_cost rule.when
      ∷ length rule.candidates * Z.of_candidate
      ∷ sum_of candidate_text rule.candidates
      ∷ [])

  unfoldable pub probe_cost : ProbeSpec → ℕ
  probe_cost p = total (
      length p.id
      ∷ predicates_cost p.when
      ∷ length p.executable
      ∷ strings_cost p.arguments
      ∷ length p.environment * Z.of_pair
      ∷ sum_of variable_text p.environment
      ∷ optional_length p.description
      ∷ [])

  unfoldable pub program_cost : {M : Type 0} → CommandProgram M → ℕ → ℕ
  program_cost p script_cost = total (
      length p.canonical_name
      ∷ strings_cost p.registrations
      ∷ length p.source_path
      ∷ length p.source_commit
      ∷ length p.license
      ∷ length p.static_rules * Z.of_rule
      ∷ sum_of rule_cost p.static_rules
      ∷ length p.probes * Z.of_probe
      ∷ length p.probes * probe_id_validation_scratch_bytes
      ∷ sum_of probe_cost p.probes
      ∷ script_cost
      ∷ [])
