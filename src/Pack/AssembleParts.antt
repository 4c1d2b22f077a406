-- ===== src/Pack/AssembleParts.antt =====
-- The parts of a pack that `PackBuilder::build` of rules/format.rs assembles: its header and its sections.
use bash_lume.Base.{
  All-append, ℕ, ◌+◌, ◌≤◌, ◌≡◌, sym, ap, ◌∙◌, Option, List, ◌++◌, Bytes, ok, arith, ltb, ltb→le,
  length, take, usize_max, le16, le32, All, saturating_add,
}
use bash_lume.Base.Outcome.{>>=-eq-ok, reject->>-eq-ok}
use bash_lume.Ir.Limits.{Sizes, ScriptIr}
use bash_lume.Pack.Types.{
  PackError, header_size, max_pack_bytes, max_index_bytes, max_manifest_bytes,
}
use bash_lume.Pack.Words.{le64, slice, copy_at, align_eight}
use bash_lume.Pack.Codec.{Codec}
use bash_lume.Pack.Header.{zeros}
use bash_lume.Pack.Build.{Parts, PackBuildSpec, write_start, write_layout, sign_pack, assemble}
use bash_lume.Pack.Patches.{
  Patch, patched, IsFit, length-patched, take-patched, slice-patched_behind, patched-append,
}
use bash_lume.Pack.Writes.{
  length-zeros, take-zeros, length-copy_at, slice-copy_at, slice-copy_at_before, take-copy_at,
}
use bash_lume.Pack.AssembleHeader.{
  start_patches, write_start-patched, layout_patches, write_layout-patched,
}
use bash_lume.Pack.AssembleSeal.{
  CodecLaws, seal_patches-IsFit, root_patches-IsFit, seal_patches, root_patches, sign_pack-patched,
}

module _ (C : Codec) (Z : Sizes) (S : ScriptIr) (L : CodecLaws C) where
  open C use {SigningKey, sha256, key_bytes, verifying_key, sign}

  module _ (spec : PackBuildSpec C Z S) (key : Option SigningKey) (parts : Parts)
      (index manifest : Bytes) where
    abbrev pub manifest_start : ℕ
    manifest_start = align_eight (header_size + length index)

    abbrev pub chunks_start : ℕ
    chunks_start = align_eight (manifest_start + length manifest)

    abbrev pub field_patches : List Patch
    field_patches =
        layout_patches C Z S spec key (length index) manifest_start (length manifest) chunks_start
          (length parts.chunks)
        ++ start_patches C Z S spec key parts

    field_patches-IsFit : All (IsFit header_size) field_patches
    unfolding le16 le32 le64
    field_patches-IsFit = omega arith

    abbrev pub header_patches : Bytes → List Patch
    header_patches message =
        seal_patches C Z S L key message
        ++ (root_patches C Z S L spec.manifest index manifest ++ field_patches)

    -- A pack with its header, its sections, and a signature of the header.
    pub record IsAssembled (bytes : Bytes) : Type 0 where
      pub message : Bytes
      pub signed : message ≡ copy_at 160 (zeros 64) (take header_size bytes)
      pub header : take header_size bytes ≡ patched (header_patches message) (zeros header_size)
      pub total : length bytes ≡ chunks_start + length parts.chunks
      pub bounded : length bytes ≤ max_pack_bytes
      pub index_section : slice header_size (length index) bytes ≡ index
      pub manifest_section : slice manifest_start (length manifest) bytes ≡ manifest
      pub chunk_section : slice chunks_start (length parts.chunks) bytes ≡ parts.chunks

    pub header_patches-IsFit : (message : Bytes) → All (IsFit header_size) (header_patches message)
    header_patches-IsFit message =
        All-append (IsFit header_size) (seal_patches C Z S L key message)
          (root_patches C Z S L spec.manifest index manifest ++ field_patches)
          (seal_patches-IsFit C Z S L key message)
          (All-append (IsFit header_size) (root_patches C Z S L spec.manifest index manifest)
            field_patches (root_patches-IsFit C Z S L spec.manifest index manifest)
            field_patches-IsFit)

    -- The sections stand behind the header, one after the other.
    pub sections_apart :
        length index ≤ max_index_bytes
        → length manifest ≤ max_manifest_bytes
        → (header_size + length index ≤ manifest_start)
          × (manifest_start + length manifest ≤ chunks_start)
    unfolding align_eight saturating_add
    sections_apart i m = omega arith

    abbrev filled : Bytes → Bytes
    filled laid =
        copy_at chunks_start parts.chunks
          (copy_at manifest_start manifest (copy_at header_size index laid))

    filled_sections :
        (laid : Bytes)
        → header_size + length index ≤ manifest_start
        → manifest_start + length manifest ≤ chunks_start
        → length laid ≡ chunks_start + length parts.chunks
        → (length (filled laid) ≡ length laid)
          × (take header_size (filled laid) ≡ take header_size laid)
          × (slice header_size (length index) (filled laid) ≡ index)
          × (slice manifest_start (length manifest) (filled laid) ≡ manifest)
          × (slice chunks_start (length parts.chunks) (filled laid) ≡ parts.chunks)
    filled_sections laid i m full =
        let f₁ = copy_at header_size index laid in
        let f₂ = copy_at manifest_start manifest f₁ in
        let n₁ : length f₁ ≡ length laid = length-copy_at header_size index laid (omega arith) in
        let n₂ : length f₂ ≡ length laid =
          length-copy_at manifest_start manifest f₁ (omega arith) ∙ n₁ in
        let behind =
          slice-copy_at_before header_size (length index) chunks_start parts.chunks f₂ (omega arith)
            (omega arith) in
        (
          length-copy_at chunks_start parts.chunks f₂ (omega arith) ∙ n₂,
          take-copy_at header_size chunks_start parts.chunks f₂ (omega arith) (omega arith)
              ∙ (take-copy_at header_size manifest_start manifest f₁ (omega arith) (omega arith)
                  ∙ take-copy_at header_size header_size index laid (omega arith) (omega arith)),
          behind
              ∙ (slice-copy_at_before header_size (length index) manifest_start manifest f₁
                    (omega arith) (omega arith)
                  ∙ slice-copy_at header_size index laid (omega arith)),
          slice-copy_at_before manifest_start (length manifest) chunks_start parts.chunks f₂
                (omega arith) (omega arith)
              ∙ slice-copy_at manifest_start manifest f₁ (omega arith),
          slice-copy_at chunks_start parts.chunks f₂ (omega arith),
        )

    sealed-IsAssembled :
        (laid bytes : Bytes)
        → length index ≤ max_index_bytes
        → length manifest ≤ max_manifest_bytes
        → chunks_start + length parts.chunks ≤ max_pack_bytes
        → laid ≡ patched field_patches (zeros (chunks_start + length parts.chunks))
        → sign_pack C Z S key
            (patched (root_patches C Z S L spec.manifest index manifest) (filled laid))
          ≡ ok bytes
        → IsAssembled bytes
    sealed-IsAssembled laid bytes i m small fields s =
        let end = chunks_start + length parts.chunks in
        let roots = root_patches C Z S L spec.manifest index manifest in
        let roots_fit = root_patches-IsFit C Z S L spec.manifest index manifest in
        let (low, high) = sections_apart i m in
        let blank : length (zeros end) ≡ end = length-zeros end in
        let n : length laid ≡ end =
          ap length fields
          ∙ (length-patched header_size field_patches (zeros end) field_patches-IsFit (omega arith)
              ∙ blank) in
        let (full, start, a, b, c) = filled_sections laid low high n in
        let rooted = patched roots (filled laid) in
        let n₁ : length rooted ≡ end =
          length-patched header_size roots (filled laid) roots_fit (omega arith) ∙ (full ∙ n) in
        let (message, e, signed) = sign_pack-patched C Z S L key rooted bytes (omega arith) s in
        let seal = seal_patches C Z S L key message in
        let seal_fit = seal_patches-IsFit C Z S L key message in
        let n₂ : length bytes ≡ end =
          ap length e ∙ (length-patched header_size seal rooted seal_fit (omega arith) ∙ n₁) in
        let keeps : (o k : ℕ) → header_size ≤ o → slice o k bytes ≡ slice o k (filled laid) =
          λ o k le.
            ap (slice o k) e
            ∙ (slice-patched_behind header_size seal rooted o k seal_fit (omega arith) le
                ∙ slice-patched_behind header_size roots (filled laid) o k roots_fit (omega arith)
                    le) in
        record {
          message = message;
          signed = signed;
          header =
              ap (take header_size) e
              ∙ (take-patched header_size seal rooted seal_fit (omega arith)
                  ∙ (ap (patched seal) (
                        take-patched header_size roots (filled laid) roots_fit (omega arith)
                        ∙ ap (patched roots) (
                            start
                            ∙ (ap (take header_size) fields
                                ∙ (take-patched header_size field_patches (zeros end)
                                      field_patches-IsFit (omega arith)
                                    ∙ ap (patched field_patches)
                                        (take-zeros header_size end (omega arith)))))
                        ∙ sym (patched-append roots field_patches (zeros header_size)))
                      ∙ sym (patched-append seal (roots ++ field_patches) (zeros header_size))));
          total = n₂;
          bounded = omega arith;
          index_section = keeps header_size (length index) (omega arith) ∙ a;
          manifest_section = keeps manifest_start (length manifest) (omega arith) ∙ b;
          chunk_section = keeps chunks_start (length parts.chunks) (omega arith) ∙ c;
        }

    -- What `assemble` returns, where the metadata is within its limits.
    pub assemble-IsAssembled :
        (bytes : Bytes)
        → length index ≤ max_index_bytes
        → length manifest ≤ max_manifest_bytes
        → assemble C Z S spec key parts index manifest ≡ ok bytes
        → IsAssembled bytes
    unfolding assemble
    assemble-IsAssembled bytes i m a =
        let end = chunks_start + length parts.chunks in
        let (_, a₁) = reject->>-eq-ok (ltb usize_max end) (PackError.limit "pack size") _ a in
        let (small, a₂) =
          reject->>-eq-ok (ltb max_pack_bytes end) (PackError.limit "pack size") _ a₁ in
        let (started, s, a₃) = >>=-eq-ok (write_start C Z S spec key parts (zeros end)) _ a₂ in
        let (laid, l, a₄) =
          >>=-eq-ok
            (write_layout C Z S spec (length index) manifest_start (length manifest) chunks_start
              (length parts.chunks) started)
            _ a₃ in
        let fields : laid ≡ patched field_patches (zeros end) =
          write_layout-patched C Z S spec key (length index) manifest_start (length manifest)
            chunks_start (length parts.chunks) started laid l
          ∙ (ap
                (patched (
                  layout_patches C Z S spec key (length index) manifest_start (length manifest)
                    chunks_start (length parts.chunks)))
                (write_start-patched C Z S spec key parts (zeros end) started s)
              ∙ sym (
                  patched-append
                    (layout_patches C Z S spec key (length index) manifest_start (length manifest)
                      chunks_start (length parts.chunks))
                    (start_patches C Z S spec key parts) (zeros end))) in
        sealed-IsAssembled laid bytes i m (ltb→le end max_pack_bytes small) fields a₄
