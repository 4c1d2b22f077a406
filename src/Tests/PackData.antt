-- ===== src/Tests/PackData.antt =====
-- A codec whose hash is the sum of the bytes, and a signed pack with the small program.
use bash_lume.Pack.AssembleSeal.{CodecLaws}
use bash_lume.Base.{
  sym, bytes_eq_refl, ℕ, ◌+◌, ◌%◌, refl, some, List, [], ◌∷◌, Bytes, Result, ok, err, bytes_eq,
  length, le16, le32, saturating_add,
}
use bash_lume.Base.Codes.{codes}
use bash_lume.Pack.Types.{
  SourceKind, TrustStatus, source_kind_encode, PackManifest, NameEntry, BlockEntry,
}
use bash_lume.Pack.Words.{le64, slice, copy_at, align_eight, write_u16, write_u32, write_u64}
use bash_lume.Pack.Index.{encode_name, encode_names, encode_block, encode_blocks, encode_index}
use bash_lume.Pack.Codec.{Codec, PackSizes}
use bash_lume.Pack.Header.{zeros, signature_message}
use bash_lume.Pack.Open.{PackFile, TrustedKeys, identity_of}
use bash_lume.Pack.Build.{PackBuildSpec, write_start, write_layout, sign_pack, assemble}
use bash_lume.Tests.IrData.{sizes, script_ir, program}

abbrev byte_sum : Bytes → ℕ
byte_sum [] = 0
byte_sum (b ∷ bytes) = b + byte_sum bytes

abbrev pub manifest : PackManifest
manifest = record {
  pack_id = codes "p";
  pack_version = codes "1";
  source_kind = SourceKind.bash;
  source_repository = codes "r";
  source_commit = codes "c";
  license_expression = codes "MIT";
  channel = codes "stable";
  compiler_version = codes "1";
  generated_at = codes "t";
  stale_commands = [];
  probe_capabilities = codes "git" ∷ [];
}

abbrev pub hash : Bytes → Bytes
hash bytes = (byte_sum bytes % 256) ∷ zeros 31

abbrev pub codec : Codec
codec = record {
  VerifyingKey = ℕ;
  SigningKey = ℕ;
  sha256 = hash;
  compress = λ level bytes. some bytes;
  decompress = λ bytes capacity. some bytes;
  manifest_json = λ m. some (codes "{}");
  manifest_of_json = λ bytes. some manifest;
  key_bytes = λ key. key ∷ [];
  verifying_key = λ key. key;
  sign = λ key message. key ∷ zeros 63;
  verify = λ key message signature. bytes_eq signature (key ∷ zeros 63);
}

abbrev pub pack_sizes : PackSizes
pack_sizes = record { of_name_entry = 32; of_block_entry = 48; of_pack_file = 512; of_string = 24 }

abbrev pub the : {E A : Type 0} → A → Result E A → A
the other (ok a) = a
the other (err e) = other

abbrev pub names : List NameEntry
names =
    record { name = codes "git"; block_id = 0 } ∷ record { name = codes "hub"; block_id = 0 } ∷ []

abbrev pub blocks : Bytes → List BlockEntry
blocks chunk =
    record {
      offset = 0;
      compressed_length = length chunk;
      uncompressed_length = length chunk;
      hash = hash chunk;
    }
    ∷ []

abbrev pub spec : PackBuildSpec codec sizes script_ir
spec = record {
  manifest = manifest;
  minimum_engine = (0, 1, 0);
  required_opcodes = 3;
  optional_features = 0;
  commands = program ∷ [];
}

abbrev pub pack_names : List NameEntry
pack_names = record { name = codes "git"; block_id = 0 } ∷ []

-- An index with a block for a chunk.
abbrev pub index : List NameEntry → Bytes → Bytes
unfolding encode_index encode_names encode_name encode_blocks encode_block le64 le32
index listed chunk = the [] (encode_index listed (blocks chunk))

-- The pack, signed with the key 7.
abbrev pub pack_bytes : Bytes → Bytes
unfolding assemble write_start write_layout sign_pack copy_at align_eight write_u16 write_u32
    write_u64 signature_message le16 le32 le64 slice source_kind_encode saturating_add
pack_bytes chunk = the [] (
    assemble codec sizes script_ir spec (some 7)
      (record { names = pack_names; chunks = chunk; blocks = blocks chunk })
      (index pack_names chunk) (codes "{}"))

-- The pack of a chunk as it is opened.
abbrev pub opened : Bytes → PackFile
opened chunk = record {
  path = codes "x.blp";
  mapping = pack_bytes chunk;
  manifest = manifest;
  source_kind = SourceKind.bash;
  minimum_engine = (0, 1, 0);
  format = (1, 1);
  required_opcodes = 3;
  optional_features = 0;
  names = pack_names;
  blocks = blocks chunk;
  chunks_offset = 336;
  trust = TrustStatus.verified (hash (7 ∷ []));
  pack_id = identity_of codec manifest;
}

-- The trusted keys, with the key of the pack.
abbrev pub keys : TrustedKeys codec
keys = (hash (7 ∷ []), 7) ∷ []

abbrev pub laws : CodecLaws codec
laws = record {
  hash_length = λ bytes. refl;
  signature_length = λ key message. refl;
  verifies = λ key message. bytes_eq_refl (key ∷ zeros 63);
  unpacks = λ level bytes compressed same. sym same;
}
