-- ===== src/Tests/PackRuns.antt =====
-- The small pack, opened and loaded.
use bash_lume.Base.{
  inr, ℕ, ◌≡◌, refl, ap, arith, none, some, [], ◌∷◌, Bytes, Result, ok, le16, le32, saturating_add,
  saturating_mul,
}
use bash_lume.Base.Codes.{codes}
use bash_lume.Base.Utf8.{valid_utf8}
use bash_lume.Base.Order.{compare_bytes}
use bash_lume.Ir.Types.{
  IrError, CommandProgram, kind_encode, append_encode, path_completion_encode, parser_encode,
}
use bash_lume.Base.Outcome.{◌>>=◌, ◌>>◌, reject}
use bash_lume.Pack.Load.{decoded, asks_undeclared}
use bash_lume.Ir.Limits.{max_command_decode_allocation_bytes}
use bash_lume.Ir.Wire.{
  each, sum_of, string_wire, optional_wire, strings_wire, predicate_wire, predicates_wire,
  candidate_wire, rule_wire, variable_wire, probe_wire, block_wire, program_cost, strings_cost,
  predicate_cost, predicates_cost, rule_cost, probe_cost, predicate_text, candidate_text,
  variable_text,
}
use bash_lume.Pack.Types.{
  PackError, TrustStatus, source_kind_encode, source_kind_decode, validate_text, validate_manifest,
}
use bash_lume.Pack.Words.{
  le64, slice, copy_at, align_eight, read_u16, read_u32, read_u64, section, write_u16, write_u32,
  write_u64,
}
use bash_lume.Pack.Index as Index
use bash_lume.Pack.Index.{
  encode_name, encode_names, encode_block, encode_blocks, encode_index, pure, lift, remaining,
  take_bytes, u32, u64, count, string, new_index_decoder, parse_names, parse_block, parse_blocks,
  index_entries, is_dangling, parse_index,
}
use bash_lume.Pack.Mapping.{json_byte, json_bytes, json_string_allocation_upper_bound}
use bash_lume.Pack.Header.{signature_message, read_layout, check_layout, check_format, read_header}
use bash_lume.Pack.Open.{
  get_key, verify_with, verify_signature, read_manifest, finish_open, retained_preflight,
  open_mapping,
}
use bash_lume.Pack.Load.{find_block, load_block_bounded, load_command}
use bash_lume.Ir.EncodeProgram as EncodeProgram
use bash_lume.Pack.Build.{
  build, add_commands, add_command, insert_names, insert_name, write_start, write_layout, sign_pack,
  assemble,
}
use bash_lume.Pack.IndexRoundTrip.{IsListed, parse_index-encode_index}
use bash_lume.Pack.NameOrder.{IsChain, lookup_block, find_block-eq-lookup_block}
use bash_lume.Pack.IndexSafety.{IsIndex, parse_index-IsIndex}
use bash_lume.Pack.OpenSafety.{IsOpened, open_mapping-IsOpened}
use bash_lume.Pack.AssembleTrust.{Trusts}
use bash_lume.Pack.RoundTrip.{IsTypedSpec, IsReopened, open_mapping-build}
use bash_lume.Pack.LoadBuilt.{load_command-build}
use bash_lume.Pack.LoadSafety.{IsLoaded, load_block_bounded-IsLoaded}
use bash_lume.Tests.IrData.{script_laws, sizes, script_ir, program}
use bash_lume.Tests.IrRoundTrip.{
  block, block_decodes, program_validates, program_encodes, program_typed,
}
use bash_lume.Tests.PackData.{
  spec, laws, codec, pack_sizes, hash, names, blocks, index, pack_bytes, opened, keys,
}

abbrev chunk : Bytes
chunk = 1 ∷ 2 ∷ 3 ∷ []

names-IsListed : IsListed none names
unfolding valid_utf8 compare_bytes
names-IsListed = (refl, refl, omega arith, (refl, refl, omega arith, tt))

index_encodes : encode_index names (blocks chunk) ≡ ok (index names chunk)
unfolding encode_index encode_names encode_name encode_blocks encode_block le64 le32
index_encodes = refl

index_parses : parse_index (index names chunk) 2 1 3 ≡ ok (names, blocks chunk)
unfolding encode_index encode_names encode_name encode_blocks encode_block le64 le32
index_parses =
    parse_index-encode_index names (blocks chunk) 3 (index names chunk) names-IsListed (omega arith)
      (omega arith) refl
      (
        record {
          compressed = omega arith;
          uncompressed = omega arith;
          inside = omega arith;
          hashed = refl;
        },
        tt,
      )
      (omega arith) (omega arith) index_encodes

parse_index-encode_index_example : parse_index (index names chunk) 2 1 3 ≡ ok (names, blocks chunk)
unfolding encode_index encode_names encode_name encode_blocks encode_block le64 le32
parse_index-encode_index_example =
    parse_index-encode_index names (blocks chunk) 3 (index names chunk) names-IsListed (omega arith)
      (omega arith) refl
      (
        record {
          compressed = omega arith;
          uncompressed = omega arith;
          inside = omega arith;
          hashed = refl;
        },
        tt,
      )
      (omega arith) (omega arith) index_encodes

parse_index-IsIndex_example : IsIndex 2 1 3 (names, blocks chunk)
parse_index-IsIndex_example =
    parse_index-IsIndex (index names chunk) 2 1 3 (names, blocks chunk) index_parses

names-IsChain : IsChain none names
unfolding compare_bytes
names-IsChain = (refl, (refl, tt))

find_block-eq-lookup_block_example :
    find_block names (codes "hub") ≡ lookup_block names (codes "hub")
find_block-eq-lookup_block_example = find_block-eq-lookup_block names (codes "hub") names-IsChain

pack_opens :
    open_mapping codec pack_sizes (codes "x.blp") (pack_bytes chunk) keys 100000 ≡ ok (opened chunk)
unfolding assemble write_start write_layout sign_pack copy_at align_eight write_u16 write_u32
    write_u64 signature_message le16 le32 le64 slice source_kind_encode saturating_add encode_index
    encode_names encode_name encode_blocks encode_block read_u16 read_u32 read_u64 section
    read_layout check_layout check_format read_header source_kind_decode get_key verify_with
    verify_signature read_manifest finish_open retained_preflight open_mapping json_byte json_bytes
    json_string_allocation_upper_bound saturating_mul validate_text validate_manifest Index.◌>>=◌
    pure lift remaining take_bytes u32 u64 count string new_index_decoder parse_names parse_block
    parse_blocks index_entries parse_index valid_utf8 compare_bytes
pack_opens = refl

open_mapping-IsOpened_example : IsOpened codec (pack_bytes chunk) keys 100000 (opened chunk)
unfolding assemble write_start write_layout sign_pack copy_at align_eight write_u16 write_u32
    write_u64 signature_message le16 le32 le64 slice source_kind_encode saturating_add encode_index
    encode_names encode_name encode_blocks encode_block
open_mapping-IsOpened_example =
    open_mapping-IsOpened codec pack_sizes (codes "x.blp") (pack_bytes chunk) keys 100000
      (opened chunk) (omega arith) pack_opens

load_loads :
    load_block_bounded codec sizes script_ir
      (λ m. [])
      (opened block)
      0
      max_command_decode_allocation_bytes
    ≡ ok program
unfolding assemble write_start write_layout sign_pack copy_at align_eight write_u16 write_u32
    write_u64 signature_message le16 le32 le64 slice source_kind_encode saturating_add encode_index
    encode_names encode_name encode_blocks encode_block section load_block_bounded block_wire each
    string_wire optional_wire strings_wire predicate_wire predicates_wire candidate_wire rule_wire
    variable_wire probe_wire kind_encode append_encode path_completion_encode parser_encode
load_loads =
    ap
      (λ (r : Result IrError (CommandProgram ℕ)). decoded r >>= λ p.
        (reject (asks_undeclared codec sizes script_ir (λ m. []) (codes "git" ∷ []) p)
            (PackError.invalid "command block requests an undeclared probe capability")
          >> ok p))
      block_decodes

load_block_bounded-IsLoaded_example :
    IsLoaded codec sizes script_ir
      (λ m. [])
      (opened block)
      0
      max_command_decode_allocation_bytes
      program
load_block_bounded-IsLoaded_example =
    load_block_bounded-IsLoaded codec sizes script_ir (λ m. []) (opened block) 0
      max_command_decode_allocation_bytes program (omega arith) load_loads

block_encodes : EncodeProgram.encode sizes script_ir program ≡ ok block
unfolding EncodeProgram.encode
block_encodes = program_encodes

pack_builds : build codec sizes script_ir 3 spec (some 7) ≡ ok (pack_bytes block)
unfolding assemble write_start write_layout sign_pack copy_at align_eight write_u16 write_u32
    write_u64 signature_message le16 le32 le64 slice source_kind_encode saturating_add encode_index
    encode_names encode_name encode_blocks encode_block validate_text validate_manifest build
    add_commands add_command insert_names insert_name block_wire each string_wire optional_wire
    strings_wire predicate_wire predicates_wire candidate_wire rule_wire variable_wire probe_wire
    kind_encode append_encode path_completion_encode parser_encode compare_bytes
pack_builds = rw (program_validates, block_encodes) refl

spec_typed : IsTypedSpec codec sizes script_ir laws spec
unfolding valid_utf8
spec_typed = record {
  engine_major = omega arith;
  engine_minor = omega arith;
  engine_patch = omega arith;
  opcodes = omega arith;
  features = omega arith;
  texts = ((refl, tt), tt);
}

seven_trusted :
    Trusts codec sizes script_ir laws keys (some 7) (TrustStatus.verified (hash (7 ∷ [])))
unfolding get_key
seven_trusted = inr (refl, refl)

open_mapping-build_example :
    IsReopened codec sizes script_ir laws pack_sizes
      (codes "x.blp")
      3
      spec
      (some 7)
      keys
      (TrustStatus.verified (hash (7 ∷ [])))
      100000
      (pack_bytes block)
open_mapping-build_example =
    open_mapping-build codec sizes script_ir laws pack_sizes (codes "x.blp") 3 spec (some 7) keys
      (TrustStatus.verified (hash (7 ∷ []))) 100000 (pack_bytes block) spec_typed
      (λ json written. refl) seven_trusted pack_builds

block_opens :
    open_mapping codec pack_sizes (codes "x.blp") (pack_bytes block) keys 100000 ≡ ok (opened block)
unfolding assemble write_start write_layout sign_pack copy_at align_eight write_u16 write_u32
    write_u64 signature_message le16 le32 le64 slice source_kind_encode saturating_add encode_index
    encode_names encode_name encode_blocks encode_block read_u16 read_u32 read_u64 section
    read_layout check_layout check_format read_header source_kind_decode get_key verify_with
    verify_signature read_manifest finish_open retained_preflight open_mapping json_byte json_bytes
    json_string_allocation_upper_bound saturating_mul validate_text validate_manifest Index.◌>>=◌
    pure lift remaining take_bytes u32 u64 count string new_index_decoder parse_names parse_block
    parse_blocks index_entries parse_index valid_utf8 compare_bytes block_wire each string_wire
    optional_wire strings_wire predicate_wire predicates_wire candidate_wire rule_wire variable_wire
    probe_wire kind_encode append_encode path_completion_encode parser_encode
block_opens = refl

load_command-build_example :
    load_command codec sizes script_ir (λ m. []) (opened block) (codes "git") ≡ ok (some program)
unfolding program_cost sum_of strings_cost predicate_cost predicates_cost rule_cost probe_cost
    predicate_text candidate_text variable_text
load_command-build_example =
    load_command-build codec sizes script_ir (λ m. []) laws pack_sizes (codes "x.blp") 3 spec
      (some 7) keys (TrustStatus.verified (hash (7 ∷ []))) 100000 (pack_bytes block) (opened block)
      0 0 program (codes "git") script_laws spec_typed (λ json written. refl) seven_trusted refl
      refl program_typed (omega arith) refl pack_builds block_opens
