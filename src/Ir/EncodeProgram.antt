-- ===== src/Ir/EncodeProgram.antt =====
-- `CommandProgram::encode_version` of rules/ir.rs and the bounded buffer that takes the scripts' JSON.
use bash_lume.Base.{
  ℕ, ◌-◌, Bool, true, false, ◌&&◌, List, [], ◌∷◌, ◌++◌, Bytes, Result, ok, err, ltb, leb, length,
  any, saturating_add, if◌then◌else◌,
}
use bash_lume.Base.Outcome as Outcome
use bash_lume.Base.Outcome.{reject, require}
use bash_lume.Base.Utf8.{in_range}
use bash_lume.Ir.Types.{
  IrError, invalid, limit, path_completion_encode, parser_encode, kind_encode, append_encode,
  StaticRule, ProbeSpec, CommandProgram,
}
use bash_lume.Ir.Limits.{
  command_block_magic, command_block_version, legacy_command_block_version, max_command_block_bytes,
  Sizes, ScriptIr,
}
use bash_lume.Ir.ValidateProgram.{validate}
use bash_lume.Ir.Encoder.{
  Encode, ◌>>◌, ensure, extend, skip, encode_each, put_u8, put_u16, put_u32, put_count, put_blob,
  put_string, put_optional_string, put_strings, encode_predicates, encode_candidate,
}

-- `BoundedJsonBuffer`: a write that would pass the limit is refused and remembered.
pub record BoundedJsonBuffer : Type 0 where
  pub written : Bytes
  pub limit_bytes : ℕ
  pub exceeded : Bool

unfoldable pub write : BoundedJsonBuffer → Bytes → BoundedJsonBuffer × Bool
write b chunk =
    if ltb b.limit_bytes (saturating_add (length b.written) (length chunk))
    then (record b { exceeded = true }, false)
    else (record b { written = b.written ++ chunk }, true)

-- `serde_json::to_writer`: the chunks in turn, up to the first refused one. The flag says whether the
-- serializer ends without an error of its own.
unfoldable pub to_writer : BoundedJsonBuffer → List Bytes → Bool → BoundedJsonBuffer × Bool
to_writer b [] finishes = (b, finishes)
to_writer b (chunk ∷ chunks) finishes =
    let rest = to_writer (write b chunk).0 chunks finishes in
    if (write b chunk).1 then rest else ((write b chunk).0, false)

unfoldable pub encode_rule : ℕ → StaticRule → Encode
encode_rule version rule = do
  encode_predicates rule.when
  (if leb 2 version then put_u8 (path_completion_encode rule.path_completion) else skip)
  put_count (length rule.candidates)
  encode_each encode_candidate rule.candidates

unfoldable pub encode_variable : Bytes × Bytes → Encode
encode_variable (name, value) = do put_string name; put_string value

unfoldable pub encode_probe : ProbeSpec → Encode
encode_probe p = do
  put_string p.id
  encode_predicates p.when
  put_string p.executable
  put_strings p.arguments
  put_count (length p.environment)
  encode_each encode_variable p.environment
  put_u8 (parser_encode p.parser)
  put_u8 (kind_encode p.candidate_kind)
  put_u8 (append_encode p.append)
  put_u8 0
  put_u32 p.timeout_ms
  put_u32 p.output_limit
  put_u32 p.cache_ttl_ms
  put_optional_string p.description

-- What the encoder does with the filled buffer.
unfoldable pub put_json : BoundedJsonBuffer × Bool → Encode
put_json (buffer, true) = put_blob buffer.written
put_json (buffer, false) = ensure (
    err (
      if buffer.exceeded
      then limit "encoded command block"
      else invalid "script serialization failed"))

module _ (S : ScriptIr) where
  open S use {ScriptModule, json_writes}

  -- `saturating_sub` stops at zero, as `-` does.
  unfoldable pub encode_scripts : List ScriptModule → Encode
  encode_scripts scripts encoded =
      let script_limit = max_command_block_bytes - length encoded - 4 in
      let empty_buffer : BoundedJsonBuffer = record {
        written = [];
        limit_bytes = script_limit;
        exceeded = false;
      } in
      put_json (to_writer empty_buffer (json_writes scripts).0 (json_writes scripts).1) encoded

  unfoldable pub encode_body : CommandProgram ScriptModule → ℕ → Encode
  encode_body p version = do
    extend command_block_magic
    put_u16 version
    put_u16 0
    put_string p.canonical_name
    put_strings p.registrations
    put_string p.source_path
    put_string p.source_commit
    put_string p.license
    put_count (length p.static_rules)
    encode_each (encode_rule version) p.static_rules
    put_count (length p.probes)
    encode_each encode_probe p.probes
    (if leb 3 version then encode_scripts p.scripts else skip)

module _ (Z : Sizes) (S : ScriptIr) where
  open S use {ScriptModule, requires_block_v4}

  unfoldable pub encode_version : CommandProgram ScriptModule → ℕ → Result IrError Bytes
  encode_version p version = Outcome.◌>>=◌ (validate Z S p) λ _.
      Outcome.◌>>=◌
        (require (in_range legacy_command_block_version command_block_version version)
          (invalid "unsupported command block version"))
        λ _.
          Outcome.◌>>=◌
            (reject (ltb version 4 && any requires_block_v4 p.scripts)
              (invalid "script feature requires command block version 4"))
            λ _. Outcome.◌>>=◌ (encode_body S p version []) λ encoded.
              Outcome.◌>>=◌
                (reject (ltb max_command_block_bytes (length encoded))
                  (limit "encoded command block"))
                λ _. ok encoded

  unfoldable pub encode : CommandProgram ScriptModule → Result IrError Bytes
  unfolding encode_version
  encode p = encode_version p command_block_version
