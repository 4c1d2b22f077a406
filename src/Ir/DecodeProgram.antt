-- ===== src/Ir/DecodeProgram.antt =====
-- `CommandProgram::decode_with_allocation_limit` of rules/ir.rs.
use bash_lume.Base.{
  false, ℕ, ◌&&◌, ◌||◌, Option, none, some, List, [], Bytes, Result, ok, err, ltb, leb, length, any,
  bytes_eq, saturating_mul, if◌then◌else◌,
}
use bash_lume.Base.Outcome as Outcome
use bash_lume.Base.Outcome.{reject, require}
use bash_lume.Base.Utf8.{in_range}
use bash_lume.Ir.Types.{
  IrError, invalid, limit, PathCompletion, path_completion_decode, parser_decode, kind_decode,
  append_decode, StaticRule, ProbeSpec, CommandProgram,
}
use bash_lume.Ir.Limits.{
  command_block_magic, command_block_version, legacy_command_block_version, max_command_block_bytes,
  max_registrations, max_rules, max_probes, probe_id_validation_scratch_bytes,
  max_command_decode_allocation_bytes, Sizes, ScriptIr,
}
use bash_lume.Ir.Validate.{is_empty}
use bash_lume.Ir.ValidateProgram.{validate}
use bash_lume.Ir.Preflight.{preflight_script_encoding_with_limit}
use bash_lume.Ir.Decoder.{
  Decoder, Decode, new_decoder, ◌>>=◌, ◌>>◌, pure, lift, charge, charge_array, remaining_allocation,
  remaining, take_bytes, u8, u16, u32, count, blob, string, optional_string, decode_each, strings,
  decode_predicates, zero_flag, decode_candidate,
}

unfoldable pub decode_path_completion : ℕ → Decode PathCompletion
decode_path_completion version =
    if leb 2 version
    then (do path_byte ← u8; lift (path_completion_decode path_byte))
    else pure PathCompletion.inherit

unfoldable pub decode_variable : Decode (Bytes × Bytes)
decode_variable = do name ← string; value ← string; pure (name, value)

-- The state as a value: `remaining` and `remaining_allocation` read it.
unfoldable pub observe {ℓ} : {A : Type ℓ} → (Decoder → A) → Decode A
observe f d = ok (f d, d)

module _ (Z : Sizes) where
  unfoldable pub decode_rule : ℕ → Decode StaticRule
  decode_rule version = do
    when ← decode_predicates Z
    path_completion ← decode_path_completion version
    candidate_count ← count max_rules
    charge_array Z.of_candidate candidate_count
    candidates ← decode_each decode_candidate candidate_count
    pure (record { when = when; path_completion = path_completion; candidates = candidates })

  unfoldable pub decode_probe : Decode ProbeSpec
  decode_probe = do
    id ← string
    when ← decode_predicates Z
    executable ← string
    arguments ← strings Z 1024
    environment_count ← count 256
    charge_array Z.of_pair environment_count
    environment ← decode_each decode_variable environment_count
    parser_byte ← u8
    parser ← lift (parser_decode parser_byte)
    kind_byte ← u8
    candidate_kind ← lift (kind_decode kind_byte)
    append_byte ← u8
    append ← lift (append_decode append_byte)
    flags ← u8
    lift (zero_flag (invalid "nonzero probe flags") flags)
    timeout_ms ← u32
    output_limit ← u32
    cache_ttl_ms ← u32
    description ← optional_string
    pure (record {
      id = id;
      when = when;
      executable = executable;
      arguments = arguments;
      environment = environment;
      parser = parser;
      candidate_kind = candidate_kind;
      append = append;
      timeout_ms = timeout_ms;
      output_limit = output_limit;
      cache_ttl_ms = cache_ttl_ms;
      description = description;
    })

module _ (Z : Sizes) (S : ScriptIr) where
  open S use {ScriptModule, requires_block_v4, from_json}

  abbrev parsed : Option (List ScriptModule) → Result IrError (List ScriptModule)
  parsed none = err (invalid "invalid script encoding")
  parsed (some scripts) = ok scripts

  unfoldable pub decode_scripts : ℕ → Decode (List ScriptModule)
  decode_scripts version = do
    json ← blob max_command_block_bytes
    script_allocation_limit ← observe remaining_allocation
    script_allocation ←
        lift (preflight_script_encoding_with_limit Z json script_allocation_limit false)
    charge script_allocation
    scripts ← lift (parsed (from_json json))
    lift (
        reject (ltb version 4 && any requires_block_v4 scripts)
          (invalid "script feature requires command block version 4"))
    pure scripts

  -- The fields in turn, up to the test for trailing bytes.
  unfoldable pub decode_fields : Decode (CommandProgram ScriptModule)
  decode_fields = do
    magic ← take_bytes 4
    lift (require (bytes_eq magic command_block_magic) (invalid "invalid command block magic"))
    version ← u16
    lift (
        require (in_range legacy_command_block_version command_block_version version)
          (invalid "unsupported command block version"))
    flags ← u16
    lift (zero_flag (invalid "nonzero command block flags") flags)
    canonical_name ← string
    registrations ← strings Z max_registrations
    source_path ← string
    source_commit ← string
    license ← string
    rule_count ← count max_rules
    charge_array Z.of_rule rule_count
    static_rules ← decode_each (decode_rule Z version) rule_count
    probe_count ← count max_probes
    charge_array Z.of_probe probe_count
    charge (saturating_mul probe_count probe_id_validation_scratch_bytes)
    probes ← decode_each (decode_probe Z) probe_count
    scripts ← (if leb 3 version then decode_scripts version else pure [])
    pure (record {
      canonical_name = canonical_name;
      registrations = registrations;
      source_path = source_path;
      source_commit = source_commit;
      license = license;
      static_rules = static_rules;
      probes = probes;
      scripts = scripts;
    })

  unfoldable pub decode_body : Decode (CommandProgram ScriptModule)
  decode_body = do
    program ← decode_fields
    rest ← observe remaining
    lift (require (is_empty rest) (invalid "trailing command block bytes"))
    pure program

  unfoldable pub decode_with_allocation_limit :
      Bytes → ℕ → Result IrError (CommandProgram ScriptModule)
  decode_with_allocation_limit bytes allocation_limit =
      Outcome.◌>>=◌
        (reject (ltb max_command_block_bytes (length bytes) || ltb allocation_limit (length bytes))
          (limit "encoded command block"))
        λ _.
          Outcome.◌>>=◌ (decode_body (new_decoder bytes allocation_limit))
            λ r. Outcome.◌>>=◌ (validate Z S r.0) λ _. ok r.0

  unfoldable pub decode : Bytes → Result IrError (CommandProgram ScriptModule)
  unfolding decode_with_allocation_limit
  decode bytes = decode_with_allocation_limit bytes max_command_decode_allocation_bytes
