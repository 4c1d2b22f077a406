-- ===== src/Tests/IrRoundTrip.antt =====
-- The round trip of the small program.
use bash_lume.Base.{
  ◌≤◌, ◌≡◌, refl, length, Bytes, ok, arith, saturating_add, saturating_mul, le16, le32,
}
use bash_lume.Base.Utf8.{valid_utf8, chars, is_control, is_whitespace}
use bash_lume.Ir.Types.{kind_encode, append_encode, path_completion_encode, parser_encode}
use bash_lume.Ir.Limits.{max_command_block_bytes, max_command_decode_allocation_bytes}
use bash_lume.Ir.Validate.{
  validate_string, validate_optional, try_for_each, validate_predicate_strings, stack_effect,
  check_stack, validate_predicates, validate_candidate, validate_executable, saturating_sum,
  instruction_string_bytes, fold_string_bytes, predicate_string_bytes,
}
use bash_lume.Ir.ValidateProgram.{
  validate_registrations, validate_candidates, validate_rule, validate_rules, validate_variable,
  text_sum, pair_sum, validate_probe, validate_probes, validate_scripts, string_budget, validate,
}
use bash_lume.Ir.Encoder.{
  ◌>>◌, ensure, extend, skip, encode_each, put_u8, put_u16, put_u32, put_count, put_blob,
  put_string, put_optional_string, put_strings, encode_predicate, encode_predicates,
  encode_candidate,
}
use bash_lume.Ir.EncodeProgram.{
  write, to_writer, put_json, encode_rule, encode_variable, encode_probe, encode_scripts,
  encode_body, encode_version,
}
use bash_lume.Ir.Decoder.{Decoder, new_decoder}
use bash_lume.Ir.DecodeProgram.{decode_body, decode_with_allocation_limit}
use bash_lume.Ir.Safety.{IsSpent, decode_with_allocation_limit-IsSpent}
use bash_lume.Ir.JsonLaws.{json_text}
use bash_lume.Ir.Wire.{
  each, sum_of, string_wire, optional_wire, strings_wire, predicate_wire, predicates_wire,
  candidate_wire, rule_wire, variable_wire, probe_wire, block_wire, predicate_text, candidate_text,
  variable_text, strings_cost, predicate_cost, predicates_cost, rule_cost, probe_cost, program_cost,
}
use bash_lume.Ir.Typed.{IsTypedProgram}
use bash_lume.Ir.Encodes.{encode_version-eq-wire}
use bash_lume.Ir.RoundTrip.{decode-encode_version}
use bash_lume.Tests.IrData.{sizes, script_ir, script_laws, program}

abbrev pub block : Bytes
block = block_wire program 4 (json_text script_ir program.scripts)

pub program_validates : validate sizes script_ir program ≡ ok tt
unfolding validate string_budget validate_scripts validate_registrations validate_candidates
    validate_rule validate_rules validate_variable text_sum pair_sum validate_probe validate_probes
    validate_string validate_optional try_for_each validate_predicate_strings stack_effect
    check_stack validate_predicates validate_candidate validate_executable saturating_sum
    instruction_string_bytes fold_string_bytes predicate_string_bytes saturating_add saturating_mul
    chars is_control is_whitespace
program_validates = refl

pub program_encodes : encode_version sizes script_ir program 4 ≡ ok block
unfolding encode_version encode_body encode_scripts put_json to_writer write encode_rule
    encode_variable encode_probe ◌>>◌ ensure extend skip encode_each put_u8 put_u16 put_u32
    put_count put_blob put_string put_optional_string put_strings encode_predicate encode_predicates
    encode_candidate le16 le32 kind_encode append_encode path_completion_encode parser_encode
    block_wire each string_wire optional_wire strings_wire predicate_wire predicates_wire
    candidate_wire rule_wire variable_wire probe_wire saturating_add validate_predicates check_stack
    stack_effect validate_predicate_strings validate_string validate_candidate validate_optional
    chars is_control
program_encodes = rw program_validates refl

pub program_typed : IsTypedProgram program
unfolding valid_utf8
program_typed = record {
  canonical_name = refl;
  registrations = (refl, tt);
  source_path = refl;
  source_commit = refl;
  license = refl;
  static_rules = (
    record {
      when = (refl, (omega arith, (tt, tt)));
      candidates = (record { value = refl; display = refl; description = refl }, tt);
    },
    tt,
  );
  probes = (
    record {
      id = refl;
      when = (refl, (omega arith, (tt, tt)));
      executable = refl;
      arguments = (refl, tt);
      environment = ((refl, refl), tt);
      timeout_ms = omega arith;
      output_limit = omega arith;
      cache_ttl_ms = omega arith;
      description = tt;
    },
    tt,
  );
}

pub block_decodes :
    decode_with_allocation_limit sizes script_ir block max_command_decode_allocation_bytes
    ≡ ok program
unfolding block_wire each string_wire optional_wire strings_wire predicate_wire predicates_wire
    candidate_wire rule_wire variable_wire probe_wire le16 le32 program_cost sum_of strings_cost
    predicate_cost predicates_cost rule_cost probe_cost predicate_text candidate_text variable_text
    kind_encode
block_decodes =
    decode-encode_version sizes script_ir program script_laws 4 max_command_decode_allocation_bytes
      block program_typed (omega arith) program_encodes (omega arith) (omega arith)

decode-encode_version_example :
    decode_with_allocation_limit sizes script_ir block max_command_decode_allocation_bytes
    ≡ ok program
unfolding block_wire each string_wire optional_wire strings_wire predicate_wire predicates_wire
    candidate_wire rule_wire variable_wire probe_wire le16 le32 program_cost sum_of strings_cost
    predicate_cost predicates_cost rule_cost probe_cost predicate_text candidate_text variable_text
    kind_encode
decode-encode_version_example =
    decode-encode_version sizes script_ir program script_laws 4 max_command_decode_allocation_bytes
      block program_typed (omega arith) program_encodes (omega arith) (omega arith)

decode_with_allocation_limit-IsSpent_example :
    (length block ≤ max_command_block_bytes)
    × (validate sizes script_ir program ≡ ok tt)
    × (e : Decoder) × (decode_body sizes script_ir
          (new_decoder block max_command_decode_allocation_bytes)
        ≡ ok (program, e))
    × IsSpent sizes script_ir block max_command_decode_allocation_bytes e
decode_with_allocation_limit-IsSpent_example =
    decode_with_allocation_limit-IsSpent sizes script_ir block max_command_decode_allocation_bytes
      program (omega arith) block_decodes

encode_version-eq-wire_example : encode_version sizes script_ir program 4 ≡ ok block
unfolding block_wire each string_wire optional_wire strings_wire predicate_wire predicates_wire
    candidate_wire rule_wire variable_wire probe_wire le16 le32
encode_version-eq-wire_example =
    encode_version-eq-wire script_ir sizes program 4 program_typed program_validates (omega arith)
      (omega arith) refl refl (omega arith)
