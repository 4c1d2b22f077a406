-- ===== src/Pack/OpenSafety.antt =====
-- What `open_bounded` of rules/format.rs accepts.
use mathlib.Core.Path.{subst}
use bash_lume.Base.{
  ℕ, ◌+◌, ◌%◌, ◌≤◌, ◌≡◌, refl, true, false, ◌||◌, not, Option, none, some, ◌++◌, Bytes, ok, arith,
  ltb, ltb→le, ◌==◌, length, take, usize_max, min, bytes_eq, bytes_eq→eq, or-eq-false, Bool-cases,
  inl, inr, saturating_add,
}
use bash_lume.Base.Outcome.{>>=-eq-ok, >>-eq-ok, reject->>-eq-ok, require->>-eq-ok, ok-injective}
use bash_lume.Pack.Types.{
  PackError, SourceKind, same_kind, PackManifest, validate_manifest, TrustStatus, header_size,
  max_index_bytes, max_manifest_bytes,
}
use bash_lume.Pack.Words.{read_u64, section}
use bash_lume.Pack.Index.{parse_index}
use bash_lume.Pack.Codec.{Codec, PackSizes}
use bash_lume.Pack.Header.{
  Header, Layout, read_header, read_layout, check_layout, has_nonzero, zeros, signature_bytes,
  key_id_bytes, root_hash_bytes, pack_id_bytes, signature_message,
}
use bash_lume.Pack.Open.{
  PackFile, TrustedKeys, get_key, verify_with, verify_signature, identity_of, parsed_manifest,
  read_manifest, retained_preflight, open_mapping, finish_open,
}
use bash_lume.Pack.IndexSafety.{IsIndex, parse_index-IsIndex}

-- The sections stand behind the header, in order, and end with the file.
pub record IsLaid (l : Layout) (n : ℕ) : Type 0 where
  pub behind_header : header_size ≤ l.index_offset
  pub index_end : l.index_offset + l.index_length ≤ l.manifest_offset
  pub manifest_end : l.manifest_offset + l.manifest_length ≤ l.chunks_offset
  pub chunks_end : l.chunks_offset + l.chunks_length ≡ n

check_layout-IsLaid : (l : Layout) (n : ℕ) → check_layout l n ≡ ok tt → IsLaid l n
unfolding check_layout
check_layout-IsLaid l n h = ground (arith, h)

module _ (C : Codec) where
  open C use {VerifyingKey, sha256, verify, manifest_of_json}

  -- Where the trust is verified, the key is one of the trusted ones and fits the signature of the header.
  abbrev pub IsTrusted : Bytes → TrustedKeys C → TrustStatus → Type 0
  IsTrusted header keys (TrustStatus.verified key_id) =
      (key : VerifyingKey) × (message : Bytes) × (key_id ≡ key_id_bytes header)
      × (get_key C key_id keys ≡ some key)
      × (signature_message header ≡ ok message)
      × (verify key message (signature_bytes header) ≡ true)
  IsTrusted header keys TrustStatus.unsigned = has_nonzero (signature_bytes header) ≡ false
  IsTrusted header keys (TrustStatus.untrusted key_id) = get_key C (key_id_bytes header) keys ≡ none

  verify_with-IsTrusted :
      (found : Option VerifyingKey) (header : Bytes) (keys : TrustedKeys C) (trust : TrustStatus)
      → get_key C (key_id_bytes header) keys ≡ found
      → verify_with C found header (key_id_bytes header) ≡ ok trust
      → IsTrusted header keys trust
  unfolding verify_with
  verify_with-IsTrusted none header keys trust e h =
      let same : TrustStatus.untrusted (key_id_bytes header) ≡ trust = ok-injective h in
      rw (← same) e
  verify_with-IsTrusted (some key) header keys trust e h =
      let (message, wrote, h₁) = >>=-eq-ok (signature_message header) _ h in
      let (fits, h₂) = require->>-eq-ok _ _ _ h₁ in
      let same : TrustStatus.verified (key_id_bytes header) ≡ trust = ok-injective h₂ in
      rw (← same) (key, message, refl, e, wrote, fits)

  pub verify_signature-IsTrusted :
      (header : Bytes) (flags : ℕ) (keys : TrustedKeys C) (trust : TrustStatus)
      → verify_signature C header flags (key_id_bytes header) keys ≡ ok trust
      → IsTrusted header keys trust
  unfolding verify_signature
  verify_signature-IsTrusted header flags keys trust h = elim (Bool-cases (flags % 2 == 0)) [
    | inl plain ↦
        let (a, h₁) =
          reject->>-eq-ok
            (not (bytes_eq (key_id_bytes header) (zeros 32))
              || has_nonzero (signature_bytes header))
            _ _ (rw plain at h) in
        let same : TrustStatus.unsigned ≡ trust = ok-injective h₁ in
        rw (← same) (or-eq-false (not (bytes_eq (key_id_bytes header) (zeros 32))) _ a).1
    | inr marked ↦
        verify_with-IsTrusted (get_key C (key_id_bytes header) keys) header keys trust refl
          (rw marked at h)
  ]

  -- The manifest is valid, and fits the header of the pack.
  pub record IsIdentified (m : PackManifest) (kind : SourceKind) (pack_id : Bytes) : Type 0 where
    pub valid : validate_manifest m ≡ ok tt
    pub kind_matches : same_kind m.source_kind kind ≡ true
    pub identified : pack_id ≡ identity_of C m

  read_manifest-IsIdentified :
      (bytes : Bytes) (kind : SourceKind) (pack_id : Bytes) (m : PackManifest)
      → read_manifest C bytes kind pack_id ≡ ok m
      → IsIdentified m kind pack_id
  unfolding read_manifest
  read_manifest-IsIdentified bytes kind pack_id m h =
      let (m', parsed, h₁) = >>=-eq-ok (parsed_manifest C (manifest_of_json bytes)) _ h in
      let (valid, h₂) = >>-eq-ok (validate_manifest m') _ h₁ in
      let (same, h₃) = require->>-eq-ok _ _ _ h₂ in
      let (id, h₄) = require->>-eq-ok _ _ _ h₃ in
      let e : m' ≡ m = ok-injective h₄ in
      rw (← e) (record { valid = valid; kind_matches = same; identified = bytes_eq→eq _ _ id })

  -- An opened pack: its index and blocks lie within its mapping, its manifest is valid, and its trust is founded.
  pub record IsOpened (mapping : Bytes) (keys : TrustedKeys C) (byte_limit : ℕ) (pack : PackFile)
      : Type 0 where
    pub mapped : pack.mapping ≡ mapping
    pub bounded : length mapping ≤ byte_limit
    pub chunks_length : ℕ
    pub chunks_end : pack.chunks_offset + chunks_length ≡ length mapping
    pub index :
        IsIndex (length pack.names) (length pack.blocks) chunks_length (pack.names, pack.blocks)
    pub identified : IsIdentified pack.manifest pack.source_kind pack.pack_id
    pub trusted : IsTrusted (take header_size mapping) keys pack.trust

  -- The part of `IsOpened` that does not rest on the limits.
  finish_open-IsOpened :
      (path mapping : Bytes) (keys : TrustedKeys C) (h : Header) (l : Layout)
      (index manifest_bytes : Bytes) (required optional byte_limit : ℕ) (pack : PackFile)
      → length mapping ≤ byte_limit
      → IsLaid l (length mapping)
      → finish_open C path mapping keys h l index manifest_bytes required optional ≡ ok pack
      → IsOpened mapping keys byte_limit pack
  unfolding finish_open
  finish_open-IsOpened path mapping keys h l index manifest_bytes required optional byte_limit pack
        bounded laid p₂ =
      let header = take header_size mapping in
      let (trust, trusts, p₃) =
        >>=-eq-ok (verify_signature C header h.flags (key_id_bytes header) keys) _ p₂ in
      let (manifest, manifests, p₄) =
        >>=-eq-ok (read_manifest C manifest_bytes h.source_kind (pack_id_bytes header)) _ p₃ in
      let (entries, parsed, p₅) =
        >>=-eq-ok (parse_index index h.command_count h.block_count l.chunks_length) _ p₄ in
      let is_index =
        parse_index-IsIndex index h.command_count h.block_count l.chunks_length entries parsed in
      subst (IsOpened mapping keys byte_limit) (ok-injective p₅) (record {
        mapped = refl;
        bounded = bounded;
        chunks_length = l.chunks_length;
        chunks_end = laid.chunks_end;
        index = record {
          chain = is_index.chain;
          name_count = refl;
          block_count = refl;
          placed = is_index.placed;
          linked = is_index.linked;
        };
        identified =
            read_manifest-IsIdentified manifest_bytes h.source_kind (pack_id_bytes header) manifest
              manifests;
        trusted = verify_signature-IsTrusted header h.flags keys trust trusts;
      })

  module _ (Z : PackSizes) where
    mapping-le-retained :
        (path mapping : Bytes) (h : Header) (index manifest_bytes : Bytes)
        → min (length mapping) usize_max
          ≤ retained_preflight C Z path mapping h index manifest_bytes
    unfolding retained_preflight saturating_add
    mapping-le-retained path mapping h index manifest_bytes = omega arith

    -- A pack that is opened, from a mapping that can be addressed, is within the byte limit, has an index in strict
    -- order whose blocks lie within the mapping, and a valid manifest that fits its header. Where it is verified, a
    -- trusted key fits the signature of its header.
    pub open_mapping-IsOpened :
        (path mapping : Bytes) (keys : TrustedKeys C) (byte_limit : ℕ) (pack : PackFile)
        → length mapping ≤ usize_max
        → open_mapping C Z path mapping keys byte_limit ≡ ok pack
        → IsOpened mapping keys byte_limit pack
    unfolding open_mapping
    open_mapping-IsOpened path mapping keys byte_limit pack addressable o =
        let header = take header_size mapping in
        let (_, o₁) = reject->>-eq-ok (ltb (length mapping) header_size) PackError.truncated _ o in
        let (h, _, o₂) = >>=-eq-ok (read_header header) _ o₁ in
        let (l, _, o₃) = >>=-eq-ok (read_layout header) _ o₂ in
        let (laid, o₄) = >>-eq-ok (check_layout l (length mapping)) _ o₃ in
        let (index, _, o₅) = >>=-eq-ok (section mapping l.index_offset l.index_length) _ o₄ in
        let (manifest_bytes, _, o₆) =
          >>=-eq-ok (section mapping l.manifest_offset l.manifest_length) _ o₅ in
        let (_, _, o₇) = >>=-eq-ok (section mapping l.chunks_offset l.chunks_length) _ o₆ in
        let (required, _, o₈) = >>=-eq-ok (read_u64 header 80) _ o₇ in
        let (optional, _, o₉) = >>=-eq-ok (read_u64 header 88) _ o₈ in
        let (_, p) =
          reject->>-eq-ok
            (ltb max_index_bytes (length index) || ltb max_manifest_bytes (length manifest_bytes))
            (PackError.limit "pack metadata section") _ o₉ in
        let (room, p₁) =
          reject->>-eq-ok
            (ltb byte_limit (retained_preflight C Z path mapping h index manifest_bytes))
            (PackError.limit "pack retained allocation") _ p in
        let (_, p₂) =
          require->>-eq-ok (bytes_eq (root_hash_bytes header) (sha256 (index ++ manifest_bytes)))
            (PackError.integrity "pack metadata root hash") _ p₁ in
        finish_open-IsOpened path mapping keys h l index manifest_bytes required optional byte_limit
          pack
          (omega (arith, mapping-le-retained path mapping h index manifest_bytes, ltb→le _ _ room))
          (check_layout-IsLaid l (length mapping) laid) p₂
