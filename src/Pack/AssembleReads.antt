-- ===== src/Pack/AssembleReads.antt =====
-- The header of an assembled pack, read by `open_bounded` of rules/format.rs.
use bash_lume.Base.{
  ℕ, ◌+◌, ◌≤◌, ◌<◌, ◌≡◌, refl, ap, ◌∙◌, Option, none, some, List, [], ◌∷◌, ◌++◌, Bytes, ok, arith,
  length, take, usize_max, le16, le32, length-take,
}
use bash_lume.Ir.Limits.{Sizes, ScriptIr}
use bash_lume.Pack.Types.{
  source_kind_encode, pack_magic, format_major, format_minor, header_size, max_command_names,
  max_blocks,
}
use bash_lume.Pack.Words.{le64, slice, read_u64}
use bash_lume.Pack.Codec.{Codec}
use bash_lume.Pack.Header.{zeros, read_header, read_layout}
use bash_lume.Pack.Build.{Parts, PackBuildSpec, flag_of}
use bash_lume.Pack.Patches.{Patch, written, slice-patched}
use bash_lume.Pack.AssembleParts.{
  field_patches, header_patches, header_patches-IsFit, manifest_start, chunks_start, IsAssembled,
}
use bash_lume.Pack.AssembleSeal.{CodecLaws, seal_patches, root_patches}
use bash_lume.Pack.AssembleFields.{
  read_u16-slice, read_u32-slice, read_u64-slice, byte_at-slice, flag_of-small, read_header-fields,
}

-- The fields of a pack have the widths of their types, and its entries are within their limits.
pub record IsNarrow {C : Codec} {Z : Sizes} {S : ScriptIr} (spec : PackBuildSpec C Z S)
    (parts : Parts) : Type 0 where
  pub engine_major : spec.minimum_engine.0 < 65536
  pub engine_minor : spec.minimum_engine.1 < 65536
  pub engine_patch : spec.minimum_engine.2 < 65536
  pub opcodes : spec.required_opcodes ≤ usize_max
  pub features : spec.optional_features ≤ usize_max
  pub name_count : length parts.names ≤ max_command_names
  pub block_count : length parts.blocks ≤ max_blocks

module _ (C : Codec) (Z : Sizes) (S : ScriptIr) (L : CodecLaws C) where
  open C use {SigningKey}

  written_seal :
      (key : Option SigningKey) (message : Bytes) (rest : List Patch) (o n : ℕ)
      → o + n ≤ 96
      → 1 ≤ n
      → written o n (seal_patches C Z S L key message ++ rest) ≡ written o n rest
  unfolding written
  written_seal none message rest o n le pos = refl
  written_seal (some key) message rest o n le pos = ground arith

  module _ (spec : PackBuildSpec C Z S) (key : Option SigningKey) (parts : Parts)
      (index manifest : Bytes) (bytes : Bytes)
      (A : IsAssembled C Z S L spec key parts index manifest bytes) where
    pub field :
        (o n : ℕ) (v : Bytes)
        → o + n ≤ header_size
        → written o n (header_patches C Z S L spec key parts index manifest A.message) ≡ some v
        → slice o n (take header_size bytes) ≡ v
    field o n v le w =
        let patches = header_patches C Z S L spec key parts index manifest A.message in
        ap (slice o n) A.header
        ∙ slice-patched header_size patches o n v
            (header_patches-IsFit C Z S L spec key parts index manifest A.message) le w

    -- A field before the key.
    low :
        (o n : ℕ) (v : Bytes)
        → o + n ≤ 96
        → 1 ≤ n
        → written o n (
            root_patches C Z S L spec.manifest index manifest
            ++ field_patches C Z S L spec key parts index manifest)
          ≡ some v
        → slice o n (take header_size bytes) ≡ v
    low o n v le pos w = field o n v (omega arith) (
        written_seal key A.message
          (root_patches C Z S L spec.manifest index manifest
            ++ field_patches C Z S L spec key parts index manifest)
          o n le pos
        ∙ w)

    header_full : header_size ≤ length bytes → length (take header_size bytes) ≡ header_size
    header_full long = length-take header_size bytes long

    pub read_header-assembled :
        header_size ≤ length bytes
        → IsNarrow spec parts
        → read_header (take header_size bytes)
          ≡ ok (record {
            format_major = format_major;
            format_minor = format_minor;
            source_kind = spec.manifest.source_kind;
            flags = flag_of C Z S key;
            minimum_engine = spec.minimum_engine;
            command_count = length parts.names;
            block_count = length parts.blocks;
          })
    unfolding written
    read_header-assembled long w =
        let header = take header_size bytes in
        let full = header_full long in
        let magic = low 0 4 pack_magic (omega arith) (omega arith) refl in
        let major =
          read_u16-slice header 4 format_major (omega arith)
            (low 4 2 (le16 format_major) (omega arith) (omega arith) refl) (omega arith) in
        let minor =
          read_u16-slice header 6 format_minor (omega arith)
            (low 6 2 (le16 format_minor) (omega arith) (omega arith) refl) (omega arith) in
        let size =
          read_u32-slice header 8 header_size (omega arith)
            (low 8 4 (le32 header_size) (omega arith) (omega arith) refl) (omega arith) in
        let kind = byte_at-slice header 12 (source_kind_encode spec.manifest.source_kind) (
          low 12 1 (source_kind_encode spec.manifest.source_kind ∷ []) (omega arith) (omega arith)
            refl) in
        let flags =
          byte_at-slice header 13 (flag_of C Z S key)
            (low 13 1 (flag_of C Z S key ∷ []) (omega arith) (omega arith) refl) in
        let blank : slice 14 2 header ≡ zeros 2 =
          low 14 2 (zeros 2) (omega arith) (omega arith) refl in
        let engine₀ =
          read_u16-slice header 16 spec.minimum_engine.0 (omega arith)
            (low 16 2 (le16 spec.minimum_engine.0) (omega arith) (omega arith) refl)
            (omega arith) in
        let engine₁ =
          read_u16-slice header 18 spec.minimum_engine.1 (omega arith)
            (low 18 2 (le16 spec.minimum_engine.1) (omega arith) (omega arith) refl)
            (omega arith) in
        let engine₂ =
          read_u16-slice header 20 spec.minimum_engine.2 (omega arith)
            (low 20 2 (le16 spec.minimum_engine.2) (omega arith) (omega arith) refl)
            (omega arith) in
        let reserved : slice 22 2 header ≡ zeros 2 =
          low 22 2 (zeros 2) (omega arith) (omega arith) refl in
        let names =
          read_u32-slice header 24 (length parts.names) (omega arith)
            (low 24 4 (le32 (length parts.names)) (omega arith) (omega arith) refl) (omega arith) in
        let blocks =
          read_u32-slice header 28 (length parts.blocks) (omega arith)
            (low 28 4 (le32 (length parts.blocks)) (omega arith) (omega arith) refl)
            (omega arith) in
        read_header-fields header spec.manifest.source_kind (flag_of C Z S key)
          spec.minimum_engine.0 spec.minimum_engine.1 spec.minimum_engine.2 (length parts.names)
          (length parts.blocks) magic major minor size kind flags (flag_of-small C Z S key) blank
          engine₀ engine₁ engine₂ reserved names blocks w.name_count w.block_count

    pub read_layout-assembled :
        header_size ≤ length bytes
        → length bytes ≤ usize_max
        → header_size + length index ≤ manifest_start C Z S L spec key parts index manifest
        → manifest_start C Z S L spec key parts index manifest + length manifest
          ≤ chunks_start C Z S L spec key parts index manifest
        → read_layout (take header_size bytes)
          ≡ ok (record {
            index_offset = header_size;
            index_length = length index;
            manifest_offset = manifest_start C Z S L spec key parts index manifest;
            manifest_length = length manifest;
            chunks_offset = chunks_start C Z S L spec key parts index manifest;
            chunks_length = length parts.chunks;
          })
    unfolding written read_layout
    read_layout-assembled long small i m =
        let header = take header_size bytes in
        let full = header_full long in
        let total = A.total in
        let mo = manifest_start C Z S L spec key parts index manifest in
        let co = chunks_start C Z S L spec key parts index manifest in
        let e₁ =
          read_u64-slice header 32 header_size (omega arith)
            (low 32 8 (le64 header_size) (omega arith) (omega arith) refl) (omega arith) in
        let e₂ =
          read_u64-slice header 40 (length index) (omega arith)
            (low 40 8 (le64 (length index)) (omega arith) (omega arith) refl) (omega arith) in
        let e₃ =
          read_u64-slice header 48 mo (omega arith)
            (low 48 8 (le64 mo) (omega arith) (omega arith) refl) (omega arith) in
        let e₄ =
          read_u64-slice header 56 (length manifest) (omega arith)
            (low 56 8 (le64 (length manifest)) (omega arith) (omega arith) refl) (omega arith) in
        let e₅ =
          read_u64-slice header 64 co (omega arith)
            (low 64 8 (le64 co) (omega arith) (omega arith) refl) (omega arith) in
        let e₆ =
          read_u64-slice header 72 (length parts.chunks) (omega arith)
            (low 72 8 (le64 (length parts.chunks)) (omega arith) (omega arith) refl)
            (omega arith) in
        rw (e₁, e₂, e₃, e₄, e₅, e₆) refl

    pub features-assembled :
        header_size ≤ length bytes
        → IsNarrow spec parts
        → (read_u64 (take header_size bytes) 80 ≡ ok spec.required_opcodes)
          × (read_u64 (take header_size bytes) 88 ≡ ok spec.optional_features)
    unfolding written
    features-assembled long w =
        let header = take header_size bytes in
        let full = header_full long in
        (
          read_u64-slice header 80 spec.required_opcodes (omega arith)
              (low 80 8 (le64 spec.required_opcodes) (omega arith) (omega arith) refl) w.opcodes,
          read_u64-slice header 88 spec.optional_features (omega arith)
              (low 88 8 (le64 spec.optional_features) (omega arith) (omega arith) refl) w.features,
        )
