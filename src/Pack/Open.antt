-- ===== src/Pack/Open.antt =====
-- `PackFile::open_bounded` of rules/format.rs: the sections, the trust and the index of a pack.
use bash_lume.Base.{
  ℕ, ◌%◌, ◌||◌, not, Option, none, some, List, [], ◌∷◌, ◌++◌, Bytes, Result, ok, err, ◌==◌, ltb,
  length, take, bytes_eq, saturating_add, saturating_mul, if◌then◌else◌,
}
use bash_lume.Base.Outcome.{◌>>=◌, ◌>>◌, reject, require}
use bash_lume.Pack.Types.{
  PackError, SourceKind, same_kind, PackManifest, validate_manifest, TrustStatus, NameEntry,
  BlockEntry, header_size, max_index_bytes, max_manifest_bytes,
}
use bash_lume.Pack.Words.{read_u64, section}
use bash_lume.Pack.Index.{parse_index}
use bash_lume.Pack.Codec.{Codec, PackSizes}
use bash_lume.Pack.Mapping.{File, immutable_pack_mapping, json_string_allocation_upper_bound}
use bash_lume.Pack.Header.{
  Layout, Header, has_nonzero, zeros, signature_bytes, key_id_bytes, root_hash_bytes, pack_id_bytes,
  signature_message, read_layout, check_layout, Header, read_header,
}

pub record PackFile : Type 0 where
  pub path : Bytes
  pub mapping : Bytes
  pub manifest : PackManifest
  pub source_kind : SourceKind
  pub minimum_engine : ℕ × ℕ × ℕ
  pub format : ℕ × ℕ
  pub required_opcodes : ℕ
  pub optional_features : ℕ
  pub names : List NameEntry
  pub blocks : List BlockEntry
  pub chunks_offset : ℕ
  pub trust : TrustStatus
  pub pack_id : Bytes

module _ (C : Codec) where
  open C use {VerifyingKey, sha256, manifest_of_json, key_bytes, verify}

  -- The map of the trusted keys, the last insertion first.
  abbrev pub TrustedKeys : Type 0
  TrustedKeys = List (Bytes × VerifyingKey)

  unfoldable pub insert_key : VerifyingKey → TrustedKeys → Bytes × TrustedKeys
  insert_key key keys = let key_id = sha256 (key_bytes key) in (key_id, (key_id, key) ∷ keys)

  unfoldable pub get_key : Bytes → TrustedKeys → Option VerifyingKey
  get_key key_id [] = none
  get_key key_id ((id, key) ∷ keys) = if bytes_eq id key_id then some key else get_key key_id keys

  -- A signed pack: its key is trusted and fits the signature, or it is not trusted.
  unfoldable pub verify_with : Option VerifyingKey → Bytes → Bytes → Result PackError TrustStatus
  unfolding signature_message
  verify_with none header key_id = ok (TrustStatus.untrusted key_id)
  verify_with (some key) header key_id = do
    message ← signature_message header
    require (verify key message (signature_bytes header)) (PackError.integrity "pack signature")
    ok (TrustStatus.verified key_id)

  unfoldable pub verify_signature : Bytes → ℕ → Bytes → TrustedKeys → Result PackError TrustStatus
  unfolding verify_with get_key
  verify_signature header flags key_id trusted_keys =
      if flags % 2 == 0
      then (reject (not (bytes_eq key_id (zeros 32)) || has_nonzero (signature_bytes header))
            (PackError.invalid "unsigned pack contains signature metadata")
          >> ok TrustStatus.unsigned)
      else verify_with (get_key key_id trusted_keys) header key_id

  abbrev pub identity_of : PackManifest → Bytes
  identity_of m = sha256 (m.pack_id ++ 0 ∷ (m.pack_version ++ 0 ∷ m.source_commit))

  abbrev pub parsed_manifest : Option PackManifest → Result PackError PackManifest
  parsed_manifest none = err PackError.json
  parsed_manifest (some m) = ok m

  -- The manifest of a pack, which fits its header.
  unfoldable pub read_manifest : Bytes → SourceKind → Bytes → Result PackError PackManifest
  read_manifest manifest_bytes source_kind pack_id = do
    manifest ← parsed_manifest (manifest_of_json manifest_bytes)
    validate_manifest manifest
    require (same_kind manifest.source_kind source_kind)
        (PackError.invalid "manifest source kind mismatch")
    require (bytes_eq pack_id (identity_of manifest)) (PackError.integrity "pack identity")
    ok manifest

  -- From the signature on.
  unfoldable pub finish_open :
      Bytes
      → Bytes
      → TrustedKeys
      → Header
      → Layout
      → Bytes
      → Bytes
      → ℕ
      → ℕ
      → Result PackError PackFile
  finish_open path mapping trusted_keys h l index manifest_bytes required_opcodes
        optional_features =
      do
        let header = take header_size mapping
        trust ← verify_signature header h.flags (key_id_bytes header) trusted_keys
        manifest ← read_manifest manifest_bytes h.source_kind (pack_id_bytes header)
        entries ← parse_index index h.command_count h.block_count l.chunks_length
        ok (record {
          path = path;
          mapping = mapping;
          manifest = manifest;
          source_kind = h.source_kind;
          minimum_engine = h.minimum_engine;
          format = (h.format_major, h.format_minor);
          required_opcodes = required_opcodes;
          optional_features = optional_features;
          names = entries.0;
          blocks = entries.1;
          chunks_offset = l.chunks_offset;
          trust = trust;
          pack_id = pack_id_bytes header;
        })

  module _ (Z : PackSizes) where
    unfoldable pub retained_preflight : Bytes → Bytes → Header → Bytes → Bytes → ℕ
    unfolding json_string_allocation_upper_bound
    retained_preflight path mapping h index manifest_bytes =
        saturating_add
          (saturating_add
            (saturating_add
              (saturating_add
                (saturating_add
                  (saturating_add (length mapping) (saturating_mul h.command_count Z.of_name_entry))
                  (saturating_mul h.block_count Z.of_block_entry))
                (length index))
              (json_string_allocation_upper_bound Z manifest_bytes))
            (length path))
          Z.of_pack_file

    -- From the mapping on.
    unfoldable pub open_mapping : Bytes → Bytes → TrustedKeys → ℕ → Result PackError PackFile
    open_mapping path mapping trusted_keys byte_limit = do
      reject (ltb (length mapping) header_size) PackError.truncated
      let header = take header_size mapping
      h ← read_header header
      l ← read_layout header
      check_layout l (length mapping)
      index ← section mapping l.index_offset l.index_length
      manifest_bytes ← section mapping l.manifest_offset l.manifest_length
      chunks ← section mapping l.chunks_offset l.chunks_length
      required_opcodes ← read_u64 header 80
      optional_features ← read_u64 header 88
      reject (ltb max_index_bytes (length index) || ltb max_manifest_bytes (length manifest_bytes))
          (PackError.limit "pack metadata section")
      reject (ltb byte_limit (retained_preflight path mapping h index manifest_bytes))
          (PackError.limit "pack retained allocation")
      require (bytes_eq (root_hash_bytes header) (sha256 (index ++ manifest_bytes)))
          (PackError.integrity "pack metadata root hash")
      finish_open path mapping trusted_keys h l index manifest_bytes required_opcodes
          optional_features

    unfoldable pub open_bounded : Bytes → File → TrustedKeys → ℕ → Result PackError PackFile
    open_bounded path file trusted_keys byte_limit = do
      mapping ← immutable_pack_mapping file byte_limit
      open_mapping path mapping trusted_keys byte_limit
