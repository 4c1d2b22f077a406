-- ===== src/Pack/AssembleHeader.antt =====
-- The header that `PackBuilder::build` of rules/format.rs writes, as the writes it makes.
use bash_lume.Base.{ℕ, ◌≡◌, Option, List, [], ◌∷◌, Bytes, ok, length, le16, le32}
use bash_lume.Base.Outcome.{>>=-eq-ok}
use bash_lume.Ir.Limits.{Sizes, ScriptIr}
use bash_lume.Pack.Types.{source_kind_encode, pack_magic, format_major, format_minor, header_size}
use bash_lume.Pack.Words.{le64, copy_at, write_u16, write_u32, write_u64}
use bash_lume.Pack.Codec.{Codec}
use bash_lume.Pack.Build.{Parts, PackBuildSpec, flag_of, write_start, write_layout}
use bash_lume.Pack.Patches.{Patch, patched}
use bash_lume.Pack.Writes.{write_at-eq-ok}

module _ (C : Codec) (Z : Sizes) (S : ScriptIr) (spec : PackBuildSpec C Z S)
    (key : Option C.SigningKey) where
  abbrev pub start_patches : Parts → List Patch
  start_patches parts =
      record { place = 28; size = 4; value = le32 (length parts.blocks) }
      ∷ record { place = 24; size = 4; value = le32 (length parts.names) }
      ∷ record { place = 20; size = 2; value = le16 spec.minimum_engine.2 }
      ∷ record { place = 18; size = 2; value = le16 spec.minimum_engine.1 }
      ∷ record { place = 16; size = 2; value = le16 spec.minimum_engine.0 }
      ∷ record { place = 13; size = 1; value = flag_of C Z S key ∷ [] }
      ∷ record { place = 12; size = 1; value = source_kind_encode spec.manifest.source_kind ∷ [] }
      ∷ record { place = 8; size = 4; value = le32 header_size }
      ∷ record { place = 6; size = 2; value = le16 format_minor }
      ∷ record { place = 4; size = 2; value = le16 format_major }
      ∷ record { place = 0; size = 4; value = pack_magic }
      ∷ []

  pub write_start-patched :
      (parts : Parts) (output bytes : Bytes)
      → write_start C Z S spec key parts output ≡ ok bytes
      → bytes ≡ patched (start_patches parts) output
  unfolding write_start write_u16 write_u32
  write_start-patched parts output bytes h =
      let (b₁, w₁, h₁) = >>=-eq-ok (write_u16 4 format_major (copy_at 0 pack_magic output)) _ h in
      let (b₂, w₂, h₂) = >>=-eq-ok (write_u16 6 format_minor b₁) _ h₁ in
      let (b₃, w₃, h₃) = >>=-eq-ok (write_u32 8 header_size b₂) _ h₂ in
      let b₅ =
        copy_at 13 (flag_of C Z S key ∷ [])
          (copy_at 12 (source_kind_encode spec.manifest.source_kind ∷ []) b₃) in
      let (b₆, w₆, h₆) = >>=-eq-ok (write_u16 16 spec.minimum_engine.0 b₅) _ h₃ in
      let (b₇, w₇, h₇) = >>=-eq-ok (write_u16 18 spec.minimum_engine.1 b₆) _ h₆ in
      let (b₈, w₈, h₈) = >>=-eq-ok (write_u16 20 spec.minimum_engine.2 b₇) _ h₇ in
      let (b₉, w₉, h₉) = >>=-eq-ok (write_u32 24 (length parts.names) b₈) _ h₈ in
      let e₁ = write_at-eq-ok 4 (le16 format_major) (copy_at 0 pack_magic output) b₁ w₁ in
      let e₂ = write_at-eq-ok 6 (le16 format_minor) b₁ b₂ w₂ in
      let e₃ = write_at-eq-ok 8 (le32 header_size) b₂ b₃ w₃ in
      let e₆ = write_at-eq-ok 16 (le16 spec.minimum_engine.0) b₅ b₆ w₆ in
      let e₇ = write_at-eq-ok 18 (le16 spec.minimum_engine.1) b₆ b₇ w₇ in
      let e₈ = write_at-eq-ok 20 (le16 spec.minimum_engine.2) b₇ b₈ w₈ in
      let e₉ = write_at-eq-ok 24 (le32 (length parts.names)) b₈ b₉ w₉ in
      let e₁₀ = write_at-eq-ok 28 (le32 (length parts.blocks)) b₉ bytes h₉ in cc

  abbrev pub layout_patches : ℕ → ℕ → ℕ → ℕ → ℕ → List Patch
  layout_patches index_length manifest_offset manifest_length chunks_offset chunks_length =
      record { place = 88; size = 8; value = le64 spec.optional_features }
      ∷ record { place = 80; size = 8; value = le64 spec.required_opcodes }
      ∷ record { place = 72; size = 8; value = le64 chunks_length }
      ∷ record { place = 64; size = 8; value = le64 chunks_offset }
      ∷ record { place = 56; size = 8; value = le64 manifest_length }
      ∷ record { place = 48; size = 8; value = le64 manifest_offset }
      ∷ record { place = 40; size = 8; value = le64 index_length }
      ∷ record { place = 32; size = 8; value = le64 header_size }
      ∷ []

  pub write_layout-patched :
      (index_length manifest_offset manifest_length chunks_offset chunks_length : ℕ)
      (output bytes : Bytes)
      → write_layout C Z S spec index_length manifest_offset manifest_length chunks_offset
          chunks_length output
        ≡ ok bytes
      → bytes
        ≡ patched
            (layout_patches index_length manifest_offset manifest_length chunks_offset
              chunks_length)
            output
  unfolding write_layout write_u64
  write_layout-patched index_length manifest_offset manifest_length chunks_offset chunks_length
        output bytes h =
      let (b₁, w₁, h₁) = >>=-eq-ok (write_u64 32 header_size output) _ h in
      let (b₂, w₂, h₂) = >>=-eq-ok (write_u64 40 index_length b₁) _ h₁ in
      let (b₃, w₃, h₃) = >>=-eq-ok (write_u64 48 manifest_offset b₂) _ h₂ in
      let (b₄, w₄, h₄) = >>=-eq-ok (write_u64 56 manifest_length b₃) _ h₃ in
      let (b₅, w₅, h₅) = >>=-eq-ok (write_u64 64 chunks_offset b₄) _ h₄ in
      let (b₆, w₆, h₆) = >>=-eq-ok (write_u64 72 chunks_length b₅) _ h₅ in
      let (b₇, w₇, h₇) = >>=-eq-ok (write_u64 80 spec.required_opcodes b₆) _ h₆ in
      let e₁ = write_at-eq-ok 32 (le64 header_size) output b₁ w₁ in
      let e₂ = write_at-eq-ok 40 (le64 index_length) b₁ b₂ w₂ in
      let e₃ = write_at-eq-ok 48 (le64 manifest_offset) b₂ b₃ w₃ in
      let e₄ = write_at-eq-ok 56 (le64 manifest_length) b₃ b₄ w₄ in
      let e₅ = write_at-eq-ok 64 (le64 chunks_offset) b₄ b₅ w₅ in
      let e₆ = write_at-eq-ok 72 (le64 chunks_length) b₅ b₆ w₆ in
      let e₇ = write_at-eq-ok 80 (le64 spec.required_opcodes) b₆ b₇ w₇ in
      let e₈ = write_at-eq-ok 88 (le64 spec.optional_features) b₇ bytes h₇ in cc
