-- ===== src/Pack/AssembleOpen.antt =====
-- Opening an assembled pack: `PackBuilder::build` and `open_bounded` of rules/format.rs.
use bash_lume.Base.{
  ℕ, ◌+◌, ◌≤◌, ◌≡◌, refl, if◌then◌else◌, Option, some, ◌++◌, Bytes, Result, ok, err, arith, ltb,
  le→ltb, length, take, usize_max, bytes_eq_refl,
}
use bash_lume.Ir.Limits.{Sizes, ScriptIr}
use bash_lume.Pack.Types.{
  PackError, validate_manifest, TrustStatus, format_major, format_minor, header_size,
  max_index_bytes, max_manifest_bytes,
}
use bash_lume.Pack.Words.{read_u64, section}
use bash_lume.Pack.Index.{parse_index}
use bash_lume.Pack.Codec.{Codec, PackSizes}
use bash_lume.Pack.Header.{
  root_hash_bytes, pack_id_bytes, Layout, Header, read_header, read_layout, check_layout,
}
use bash_lume.Pack.Open.{
  PackFile, TrustedKeys, identity_of, finish_open, retained_preflight, open_mapping,
}
use bash_lume.Pack.Build.{Parts, PackBuildSpec, flag_of, assemble}
use bash_lume.Pack.AssembleParts.{
  field_patches, manifest_start, chunks_start, sections_apart, IsAssembled, assemble-IsAssembled,
}
use bash_lume.Pack.AssembleSeal.{CodecLaws}
use bash_lume.Pack.AssembleReads.{
  IsNarrow, field, read_header-assembled, read_layout-assembled, features-assembled,
}
use bash_lume.Pack.AssembleTrust.{
  Trusts, section-slice, reject-eq-if, verify_signature-assembled, written_root, read_manifest-fits,
}

module _ (C : Codec) (Z : Sizes) (S : ScriptIr) (L : CodecLaws C) where
  open C use {VerifyingKey, SigningKey, sha256, manifest_of_json, verifying_key, sign, verify}

  module _ (P : PackSizes) (path bytes : Bytes) (spec : PackBuildSpec C Z S)
      (key : Option SigningKey) (parts : Parts) (index manifest : Bytes) (keys : TrustedKeys C)
      (trust : TrustStatus) (limit : ℕ) where
    -- The header of an assembled pack, as it is read.
    abbrev pub header_of : Header
    header_of = record {
      format_major = format_major;
      format_minor = format_minor;
      source_kind = spec.manifest.source_kind;
      flags = flag_of C Z S key;
      minimum_engine = spec.minimum_engine;
      command_count = length parts.names;
      block_count = length parts.blocks;
    }

    abbrev layout_of : Layout
    layout_of = record {
      index_offset = header_size;
      index_length = length index;
      manifest_offset = manifest_start C Z S L spec key parts index manifest;
      manifest_length = length manifest;
      chunks_offset = chunks_start C Z S L spec key parts index manifest;
      chunks_length = length parts.chunks;
    }

    -- The pack as it is opened.
    abbrev pub opened_pack : PackFile
    opened_pack = record {
      path = path;
      mapping = bytes;
      manifest = spec.manifest;
      source_kind = spec.manifest.source_kind;
      minimum_engine = spec.minimum_engine;
      format = (format_major, format_minor);
      required_opcodes = spec.required_opcodes;
      optional_features = spec.optional_features;
      names = parts.names;
      blocks = parts.blocks;
      chunks_offset = chunks_start C Z S L spec key parts index manifest;
      trust = trust;
      pack_id = identity_of C spec.manifest;
    }

    finish_open-assembled :
        (A : IsAssembled C Z S L spec key parts index manifest bytes)
        → header_size ≤ length bytes
        → Trusts C Z S L keys key trust
        → manifest_of_json manifest ≡ some spec.manifest
        → validate_manifest spec.manifest ≡ ok tt
        → parse_index index (length parts.names) (length parts.blocks) (length parts.chunks)
          ≡ ok (parts.names, parts.blocks)
        → finish_open C path bytes keys header_of layout_of index manifest spec.required_opcodes
            spec.optional_features
          ≡ ok opened_pack
    unfolding finish_open
    finish_open-assembled A long t parses valid indexed =
        let rest = field_patches C Z S L spec key parts index manifest in
        let id =
          field C Z S L spec key parts index manifest bytes A 224 32 (identity_of C spec.manifest)
            (omega arith)
            (written_root C Z S L key A.message spec.manifest index manifest rest).1 in
        rw
          (
            verify_signature-assembled C Z S L spec key parts index manifest bytes keys trust A long
                t,
            read_manifest-fits C Z S L manifest spec.manifest
                (pack_id_bytes (take header_size bytes)) parses valid id,
            indexed,
            id,
          )
          refl

    -- The pack, if what opening it retains is within the limit.
    abbrev pub within_limit : Header → PackFile → Result PackError PackFile
    within_limit h pack =
        if ltb limit (retained_preflight C P path bytes h index manifest)
        then err (PackError.limit "pack retained allocation")
        else ok pack

    -- A mapping whose parts are known.
    open_mapping-parts :
        (h : Header) (l : Layout) (chunks : Bytes) (required optional : ℕ) (pack : PackFile)
        → header_size ≤ length bytes
        → read_header (take header_size bytes) ≡ ok h
        → read_layout (take header_size bytes) ≡ ok l
        → check_layout l (length bytes) ≡ ok tt
        → section bytes l.index_offset l.index_length ≡ ok index
        → section bytes l.manifest_offset l.manifest_length ≡ ok manifest
        → section bytes l.chunks_offset l.chunks_length ≡ ok chunks
        → read_u64 (take header_size bytes) 80 ≡ ok required
        → read_u64 (take header_size bytes) 88 ≡ ok optional
        → length index ≤ max_index_bytes
        → length manifest ≤ max_manifest_bytes
        → root_hash_bytes (take header_size bytes) ≡ sha256 (index ++ manifest)
        → finish_open C path bytes keys h l index manifest required optional ≡ ok pack
        → open_mapping C P path bytes keys limit ≡ within_limit h pack
    unfolding open_mapping
    open_mapping-parts h l chunks required optional pack long head layout checked i m c e₁ e₂ ile
          mle root rest =
        rw
          (
            le→ltb header_size (length bytes) long,
            head,
            layout,
            checked,
            i,
            m,
            c,
            e₁,
            e₂,
            le→ltb (length index) max_index_bytes ile,
            le→ltb (length manifest) max_manifest_bytes mle,
            root,
            bytes_eq_refl (sha256 (index ++ manifest)),
            rest,
          )
          (reject-eq-if (ltb limit (retained_preflight C P path bytes h index manifest))
            (PackError.limit "pack retained allocation") pack)

    layout_of-fits :
        header_size + length index ≤ manifest_start C Z S L spec key parts index manifest
        → manifest_start C Z S L spec key parts index manifest + length manifest
          ≤ chunks_start C Z S L spec key parts index manifest
        → length bytes ≡ chunks_start C Z S L spec key parts index manifest + length parts.chunks
        → length bytes ≤ usize_max
        → check_layout layout_of (length bytes) ≡ ok tt
    unfolding check_layout
    layout_of-fits i m total small = ground arith

    pub open_mapping-assemble :
        length index ≤ max_index_bytes
        → length manifest ≤ max_manifest_bytes
        → IsNarrow spec parts
        → Trusts C Z S L keys key trust
        → manifest_of_json manifest ≡ some spec.manifest
        → validate_manifest spec.manifest ≡ ok tt
        → parse_index index (length parts.names) (length parts.blocks) (length parts.chunks)
          ≡ ok (parts.names, parts.blocks)
        → assemble C Z S spec key parts index manifest ≡ ok bytes
        → open_mapping C P path bytes keys limit ≡ within_limit header_of opened_pack
    open_mapping-assemble ile mle narrow t parses valid indexed a =
        let A = assemble-IsAssembled C Z S L spec key parts index manifest bytes ile mle a in
        let (i, m) = sections_apart C Z S L spec key parts index manifest ile mle in
        let total = A.total in
        let long : header_size ≤ length bytes = omega arith in
        let small : length bytes ≤ usize_max = omega (arith, A.bounded) in
        let (e₁, e₂) =
          features-assembled C Z S L spec key parts index manifest bytes A long narrow in
        let rest = field_patches C Z S L spec key parts index manifest in
        open_mapping-parts header_of layout_of parts.chunks spec.required_opcodes
          spec.optional_features opened_pack long
          (read_header-assembled C Z S L spec key parts index manifest bytes A long narrow)
          (read_layout-assembled C Z S L spec key parts index manifest bytes A long small i m)
          (layout_of-fits i m total small)
          (section-slice bytes header_size (length index) index (omega arith) small A.index_section)
          (section-slice bytes (manifest_start C Z S L spec key parts index manifest)
            (length manifest) manifest (omega arith) small A.manifest_section)
          (section-slice bytes (chunks_start C Z S L spec key parts index manifest)
            (length parts.chunks) parts.chunks (omega arith) small A.chunk_section)
          e₁ e₂ ile mle
          (field C Z S L spec key parts index manifest bytes A 128 32 (sha256 (index ++ manifest))
            (omega arith) (written_root C Z S L key A.message spec.manifest index manifest rest).0)
          (finish_open-assembled A long t parses valid indexed)
