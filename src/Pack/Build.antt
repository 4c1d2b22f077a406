-- ===== src/Pack/Build.antt =====
-- `PackBuilder` of rules/format.rs: the blocks and names of the commands, the index and the whole pack.
use Prim.Native.Nat.{Ordering}
use bash_lume.Base.{
  ℕ, suc, ◌+◌, ◌%◌, ◌||◌, Option, none, some, List, [], ◌∷◌, ◌++◌, Bytes, Result, ok, err, ltb,
  length, u32_end, usize_max, min, if◌then◌else◌,
}
use bash_lume.Base.Outcome.{◌>>=◌, ◌>>◌, reject}
use bash_lume.Base.Codes.{codes}
use bash_lume.Base.Int.{ℤ, pos, negsuc}
use bash_lume.Base.Order.{compare_bytes}
use bash_lume.Ir.Types.{IrError, CommandProgram}
use bash_lume.Ir.Limits.{Sizes, ScriptIr}
use bash_lume.Ir.ValidateProgram.{validate}
use bash_lume.Ir.EncodeProgram as EncodeProgram
use bash_lume.Ir.Validate.{is_empty}
use bash_lume.Pack.Types.{
  PackError, source_kind_encode, PackManifest, validate_manifest, NameEntry, BlockEntry, pack_magic,
  format_major, format_minor, header_size, max_pack_bytes, max_index_bytes, max_manifest_bytes,
  max_command_names, max_blocks, max_compressed_block_bytes,
}
use bash_lume.Pack.Words.{slice, copy_at, write_u16, write_u32, write_u64, align_eight}
use bash_lume.Pack.Index.{encode_index}
use bash_lume.Pack.Codec.{Codec}
use bash_lume.Pack.Header.{zeros, signature_message}
use bash_lume.Pack.Open.{identity_of}

-- `BTreeMap::insert`, where the name is new.
unfoldable pub insert_name : NameEntry → List NameEntry → Option (List NameEntry)
insert_name entry [] = some (entry ∷ [])
insert_name entry (first ∷ names) =
    let later = insert_name entry names in
    elim (compare_bytes entry.name first.name) [
      | Ordering.lt ↦ some (entry ∷ first ∷ names)
      | Ordering.eq ↦ none
      | Ordering.gt ↦ elim later [ none ↦ none | some rest ↦ some (first ∷ rest) ]
    ]

abbrev pub inserted : Bytes → Option (List NameEntry) → Result PackError (List NameEntry)
inserted registration none =
    err (PackError.invalid_owned (codes "duplicate command registration: " ++ registration))
inserted registration (some names) = ok names

unfoldable pub insert_names : ℕ → List Bytes → List NameEntry → Result PackError (List NameEntry)
unfolding insert_name
insert_names block_id [] names = ok names
insert_names block_id (registration ∷ registrations) names = do
  later ←
      inserted registration
        (insert_name (record { name = registration; block_id = block_id % u32_end }) names)
  insert_names block_id registrations later

-- `level.clamp(1, 19)`
unfoldable pub compression_level : ℤ → ℕ
compression_level (pos n) = min (if ltb n 1 then 1 else n) 19
compression_level (negsuc n) = 1

-- The variables of the loop over the commands.
pub record Parts : Type 0 where
  pub names : List NameEntry
  pub chunks : Bytes
  pub blocks : List BlockEntry

module _ (C : Codec) (Z : Sizes) (S : ScriptIr) where
  open C use {SigningKey, sha256, compress, manifest_json, key_bytes, verifying_key, sign}
  open S use {ScriptModule}

  pub record PackBuildSpec : Type 0 where
    pub manifest : PackManifest
    pub minimum_engine : ℕ × ℕ × ℕ
    pub required_opcodes : ℕ
    pub optional_features : ℕ
    pub commands : List (CommandProgram ScriptModule)

  abbrev pub from_ir : {A : Type 0} → Result IrError A → Result PackError A
  from_ir (err e) = err (PackError.ir e)
  from_ir (ok a) = ok a

  abbrev pub compressed_or : Option Bytes → Result PackError Bytes
  compressed_or none = err PackError.compression
  compressed_or (some bytes) = ok bytes

  abbrev pub json_or : Option Bytes → Result PackError Bytes
  json_or none = err PackError.json
  json_or (some bytes) = ok bytes

  abbrev pub canonical_manifest : PackManifest → Result PackError Bytes
  canonical_manifest m = json_or (manifest_json m)

  -- A command's block behind those before it.
  unfoldable pub add_command : ℕ → ℕ → CommandProgram ScriptModule → Parts → Result PackError Parts
  unfolding insert_names
  add_command level block_id command parts = do
    from_ir (validate Z S command)
    names ← insert_names block_id command.registrations parts.names
    encoded ← from_ir (EncodeProgram.encode Z S command)
    compressed ← compressed_or (compress level encoded)
    reject (ltb max_compressed_block_bytes (length compressed))
        (PackError.limit "compressed command block")
    ok (record {
      names = names;
      chunks = parts.chunks ++ compressed;
      blocks =
          parts.blocks
          ++ record {
            offset = length parts.chunks;
            compressed_length = length compressed % u32_end;
            uncompressed_length = length encoded % u32_end;
            hash = sha256 compressed;
          }
            ∷ [];
    })

  unfoldable pub add_commands :
      ℕ → ℕ → List (CommandProgram ScriptModule) → Parts → Result PackError Parts
  unfolding add_command
  add_commands level block_id [] parts = ok parts
  add_commands level block_id (command ∷ commands) parts = do
    next ← add_command level block_id command parts
    add_commands level (suc block_id) commands next

  abbrev pub flag_of : Option SigningKey → ℕ
  flag_of none = 0
  flag_of (some key) = 1

  -- The fields of the header up to the counts.
  unfoldable pub write_start :
      PackBuildSpec → Option SigningKey → Parts → Bytes → Result PackError Bytes
  write_start spec key parts output = do
    let marked = copy_at 0 pack_magic output
    b₁ ← write_u16 4 format_major marked
    b₂ ← write_u16 6 format_minor b₁
    b₃ ← write_u32 8 header_size b₂
    let b₄ = copy_at 12 (source_kind_encode spec.manifest.source_kind ∷ []) b₃
    let b₅ = copy_at 13 (flag_of key ∷ []) b₄
    b₆ ← write_u16 16 spec.minimum_engine.0 b₅
    b₇ ← write_u16 18 spec.minimum_engine.1 b₆
    b₈ ← write_u16 20 spec.minimum_engine.2 b₇
    b₉ ← write_u32 24 (length parts.names) b₈
    write_u32 28 (length parts.blocks) b₉

  -- The layout and the features.
  unfoldable pub write_layout : PackBuildSpec → ℕ → ℕ → ℕ → ℕ → ℕ → Bytes → Result PackError Bytes
  write_layout spec index_length manifest_offset manifest_length chunks_offset chunks_length
        output =
      do
        b₁ ← write_u64 32 header_size output
        b₂ ← write_u64 40 index_length b₁
        b₃ ← write_u64 48 manifest_offset b₂
        b₄ ← write_u64 56 manifest_length b₃
        b₅ ← write_u64 64 chunks_offset b₄
        b₆ ← write_u64 72 chunks_length b₅
        b₇ ← write_u64 80 spec.required_opcodes b₆
        write_u64 88 spec.optional_features b₇

  -- The key and the signature, if there is a key.
  unfoldable pub sign_pack : Option SigningKey → Bytes → Result PackError Bytes
  unfolding signature_message
  sign_pack none output = ok output
  sign_pack (some key) output = do
    let keyed = copy_at 96 (sha256 (key_bytes (verifying_key key))) output
    message ← signature_message (slice 0 header_size keyed)
    ok (copy_at 160 (sign key message) keyed)

  -- The pack of the parts, with its sections, hashes and signature.
  unfoldable pub assemble :
      PackBuildSpec → Option SigningKey → Parts → Bytes → Bytes → Result PackError Bytes
  unfolding write_start write_layout sign_pack
  assemble spec key parts index manifest = do
    let manifest_offset = align_eight (header_size + length index)
    let chunks_offset = align_eight (manifest_offset + length manifest)
    reject (ltb usize_max (chunks_offset + length parts.chunks)) (PackError.limit "pack size")
    reject (ltb max_pack_bytes (chunks_offset + length parts.chunks)) (PackError.limit "pack size")
    started ← write_start spec key parts (zeros (chunks_offset + length parts.chunks))
    laid ←
        write_layout spec (length index) manifest_offset (length manifest) chunks_offset
          (length parts.chunks) started
    let filled =
        copy_at chunks_offset parts.chunks
          (copy_at manifest_offset manifest (copy_at header_size index laid))
    let rooted = copy_at 128 (sha256 (index ++ manifest)) filled
    sign_pack key (copy_at 224 (identity_of C spec.manifest) rooted)

  unfoldable pub build : ℕ → PackBuildSpec → Option SigningKey → Result PackError Bytes
  unfolding assemble add_commands
  build level spec key = do
    validate_manifest spec.manifest
    reject (is_empty spec.commands || ltb max_blocks (length spec.commands))
        (PackError.limit "pack command blocks")
    manifest ← canonical_manifest spec.manifest
    reject (ltb max_manifest_bytes (length manifest)) (PackError.limit "pack manifest")
    parts ← add_commands level 0 spec.commands (record { names = []; chunks = []; blocks = [] })
    reject (ltb max_command_names (length parts.names)) (PackError.limit "command names")
    index ← encode_index parts.names parts.blocks
    reject (ltb max_index_bytes (length index)) (PackError.limit "pack index")
    assemble spec key parts index manifest
