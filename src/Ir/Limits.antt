-- ===== src/Ir/Limits.antt =====
-- The limits of rules/ir.rs, and what the byte accounting takes from elsewhere: the sizes that the
-- compiler gives the element types, and the operations on the script IR and its JSON encoding.
use bash_lume.Base.{ℕ, Bool, Option, List, [], ◌∷◌, Bytes}

abbrev pub command_block_magic : Bytes
command_block_magic = b'B' ∷ b'L' ∷ b'I' ∷ b'R' ∷ []

abbrev pub command_block_version : ℕ
command_block_version = 4

abbrev pub legacy_command_block_version : ℕ
legacy_command_block_version = 1

abbrev pub max_command_block_bytes : ℕ
max_command_block_bytes = 16777216

abbrev pub max_registrations : ℕ
max_registrations = 4096

abbrev pub max_rules : ℕ
max_rules = 65536

abbrev pub max_predicates_per_rule : ℕ
max_predicates_per_rule = 4096

abbrev pub max_probes : ℕ
max_probes = 4096

abbrev pub probe_id_validation_scratch_bytes : ℕ
probe_id_validation_scratch_bytes = 64

abbrev pub max_strings_bytes : ℕ
max_strings_bytes = 8388608

abbrev pub max_string_bytes : ℕ
max_string_bytes = 1048576

abbrev pub max_script_modules : ℕ
max_script_modules = 4096

abbrev pub max_script_aggregate_bytes : ℕ
max_script_aggregate_bytes = 67108864

abbrev pub max_script_tag_deferred_fields : ℕ
max_script_tag_deferred_fields = 524288

abbrev pub max_script_tag_deferred_name_bytes : ℕ
max_script_tag_deferred_name_bytes = 16777216

abbrev pub max_command_decode_allocation_bytes : ℕ
max_command_decode_allocation_bytes = 83886080

-- `std::mem::size_of`
pub record Sizes : Type 0 where
  pub of_string : ℕ
  pub of_predicate : ℕ
  pub of_rule : ℕ
  pub of_candidate : ℕ
  pub of_probe : ℕ
  pub of_pair : ℕ
  pub of_module : ℕ
  pub of_vec : ℕ
  pub of_statement : ℕ
  pub of_str : ℕ

-- The script IR: its validation, and its JSON encoding by serde. `json_writes` lists the chunks that
-- the serializer writes in turn, and says whether it finishes by itself.
pub record ScriptIr : Type 1 where
  pub ScriptModule : Type 0
  pub approximate_bytes : ScriptModule → Option ℕ
  pub requires_block_v4 : ScriptModule → Bool
  pub vec_capacity : List ScriptModule → ℕ
  pub json_writes : List ScriptModule → List Bytes × Bool
  pub from_json : Bytes → Option (List ScriptModule)
