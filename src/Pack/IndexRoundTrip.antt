-- ===== src/Pack/IndexRoundTrip.antt =====
-- The index of a pack in rules/format.rs, written by `encode_index` and read by `parse_index`.
use mathlib.Core.Path.{subst}
use mathlib.Core.List.{append-nil, append_assoc}
use bash_lume.Base.{
  ℕ, suc, ◌+◌, ◌≤◌, ◌<◌, ◌≡◌, refl, sym, ap, ◌∙◌, true, false, ◌||◌, Option, none, some, List, [],
  ◌∷◌, ◌++◌, Bytes, ok, arith, ltb, eq→==, any, length, usize_max, u32_end, le32, le→ltb, ltb→le,
  Bool-cases, inl, inr, or-eq-false, All,
}
use bash_lume.Base.Outcome.{>>=-eq-ok, ok-injective}
use bash_lume.Base.Utf8.{valid_utf8}
use bash_lume.Ir.Limits.{max_command_block_bytes}
use bash_lume.Ir.Validate.{is_empty, contains}
use bash_lume.Pack.Types.{
  NameEntry, BlockEntry, max_command_names, max_blocks, max_command_name_bytes,
  max_compressed_block_bytes,
}
use bash_lume.Pack.Words.{le64}
use bash_lume.Pack.Index as Index
use bash_lume.Pack.Index.{
  encode_name, encode_names, encode_block, encode_blocks, encode_index, new_index_decoder, Parse,
  ◌>>=◌, remaining, out_of_order, parse_names, parse_block, parse_blocks, is_dangling,
  index_entries, at_end, parse_index,
}
use bash_lume.Pack.Reads.{
  IsAt, IsAt-advance, Reads, Reads-pure, Reads->>=, Reads-lift, Reads-take, Reads-u32, Reads-u64,
  Reads-count, Reads-string,
}

-- Names of valid UTF-8 in strict order behind the previous one, with blocks of 32 bits.
abbrev pub IsListed : Option Bytes → List NameEntry → Type 0
IsListed previous [] = Unit
IsListed previous (entry ∷ names) =
    (valid_utf8 entry.name ≡ true)
    × (out_of_order previous entry.name ≡ false)
    × (entry.block_id < u32_end)
    × IsListed (some entry.name) names

-- A block within a chunk section of a length, and within the limits.
pub record IsPlaced (chunks_length : ℕ) (block : BlockEntry) : Type 0 where
  pub compressed : block.compressed_length ≤ max_compressed_block_bytes
  pub uncompressed : block.uncompressed_length ≤ max_command_block_bytes
  pub inside : block.offset + block.compressed_length ≤ chunks_length
  pub hashed : length block.hash ≡ 32

encode_name-eq-ok :
    (entry : NameEntry) (w : Bytes)
    → encode_name entry ≡ ok w
    → (is_empty entry.name ≡ false)
      × (length entry.name ≤ max_command_name_bytes)
      × (w ≡ le32 (length entry.name) ++ entry.name ++ le32 entry.block_id)
unfolding encode_name
encode_name-eq-ok entry w h =
    elim (Bool-cases (
      is_empty entry.name
      || ltb max_command_name_bytes (length entry.name)
      || contains 0 entry.name)) [
        | inl bad ↦ cc (rw bad at h)
        | inr good ↦
            let (a, nul) =
              or-eq-false (is_empty entry.name || ltb max_command_name_bytes (length entry.name)) _
                good in
            let (b, c) = or-eq-false (is_empty entry.name) _ a in
            (b, ltb→le _ _ c, sym (ok-injective (rw good at h)))
      ]

name_layout :
    (size name id rest : Bytes)
    → (size ++ (name ++ [])) ++ (id ++ (rest ++ [])) ≡ (size ++ name ++ id) ++ rest
name_layout size name id rest = simp (append_assoc, append-nil)

Reads-names :
    (names : List NameEntry) (previous : Option Bytes) (body : Bytes)
    → IsListed previous names
    → encode_names names ≡ ok body
    → Reads (parse_names (length names) previous) body names
unfolding encode_names parse_names
Reads-names [] previous body h e =
    subst (λ b. Reads (parse_names 0 previous) b []) (ok-injective e)
      (unfold parse_names in Reads-pure [])
Reads-names (entry ∷ names) previous body h e =
    let (first, wrote, e₁) = >>=-eq-ok (encode_name entry) _ e in
    let (rest, wrote_rest, e₂) = >>=-eq-ok (encode_names names) _ e₁ in
    let (some_bytes, short, layout) = encode_name-eq-ok entry first wrote in
    let whole : (le32 (length entry.name) ++ (entry.name ++ []))
          ++ (le32 entry.block_id ++ (rest ++ []))
        ≡ body =
      name_layout _ entry.name _ rest ∙ ap (λ w. w ++ rest) (sym layout) ∙ ok-injective e₂ in
    subst (λ b. Reads (parse_names (suc (length names)) previous) b (entry ∷ names)) whole
      (unfold parse_names in
        Reads->>= _ (Reads-string max_command_name_bytes entry.name short (omega arith) h.0) (
          Reads-lift _ (rw (some_bytes, h.1) refl) (
            Reads->>= _ (Reads-u32 entry.block_id h.2) (
              Reads->>= _ (Reads-names names (some entry.name) rest h.3 wrote_rest)
                (Reads-pure _)))))

block_layout : (a b c d : Bytes) → a ++ (b ++ (c ++ (d ++ []))) ≡ a ++ b ++ c ++ d
block_layout a b c d = simp (append_assoc, append-nil)

Reads-block :
    (chunks_length : ℕ) (block : BlockEntry)
    → chunks_length ≤ usize_max
    → IsPlaced chunks_length block
    → Reads (parse_block chunks_length) (encode_block block) block
unfolding encode_block parse_block
Reads-block chunks_length block small h =
    let hash : Reads (Index.take_bytes 32) block.hash block.hash =
      subst (λ n. Reads (Index.take_bytes n) block.hash block.hash) h.hashed
        (Reads-take block.hash) in
    subst (λ w. Reads (parse_block chunks_length) w block)
      (block_layout (le64 block.offset) (le32 block.compressed_length)
        (le32 block.uncompressed_length) block.hash)
      (unfold parse_block in
        Reads->>= _ (Reads-u64 block.offset (omega (arith, h.inside))) (
          Reads->>= _ (Reads-u32 block.compressed_length (omega (arith, h.compressed))) (
            Reads->>= _ (Reads-u32 block.uncompressed_length (omega (arith, h.uncompressed))) (
              Reads->>= _ hash (
                Reads-lift _ (rw (le→ltb _ _ h.compressed, le→ltb _ _ h.uncompressed) refl) (
                  Reads-lift _
                    (rw
                      (le→ltb (block.offset + block.compressed_length) usize_max
                        (omega (arith, h.inside)))
                      refl)
                    (Reads-lift _ (rw (le→ltb _ _ h.inside) refl) (Reads-pure block))))))))

Reads-blocks :
    (chunks_length : ℕ) (blocks : List BlockEntry)
    → chunks_length ≤ usize_max
    → All (IsPlaced chunks_length) blocks
    → Reads (parse_blocks chunks_length (length blocks)) (encode_blocks blocks) blocks
unfolding encode_blocks parse_blocks
Reads-blocks chunks_length [] small h = Reads-pure []
Reads-blocks chunks_length (block ∷ blocks) small h =
    subst (λ w. Reads (parse_blocks chunks_length (suc (length blocks))) w (block ∷ blocks))
      (ap (λ w. encode_block block ++ w) (append-nil _))
      (unfold parse_blocks in
        Reads->>= _ (Reads-block chunks_length block small h.0)
          (Reads->>= _ (Reads-blocks chunks_length blocks small h.1) (Reads-pure _)))

index_layout : (a b c d : Bytes) → a ++ (b ++ (c ++ (d ++ []))) ≡ a ++ b ++ c ++ d
index_layout a b c d = simp (append_assoc, append-nil)

-- An index that `encode_index` writes is read back as the names and blocks it was written from: names of valid UTF-8
-- in strict order, each with a block that is there, and blocks within the chunk section and the limits, not more of
-- either than the limits allow, with the index and the chunk section within `usize`.
pub parse_index-encode_index :
    (names : List NameEntry) (blocks : List BlockEntry) (chunks_length : ℕ) (index : Bytes)
    → IsListed none names
    → length names ≤ max_command_names
    → length blocks ≤ max_blocks
    → any (is_dangling blocks) names ≡ false
    → All (IsPlaced chunks_length) blocks
    → chunks_length ≤ usize_max
    → length index ≤ usize_max
    → encode_index names blocks ≡ ok index
    → parse_index index (length names) (length blocks) chunks_length ≡ ok (names, blocks)
unfolding parse_index encode_index index_entries remaining new_index_decoder
parse_index-encode_index names blocks chunks_length index listed few_names few_blocks linked placed
      small addressable h =
    let (body, wrote, e) = >>=-eq-ok (encode_names names) _ h in
    let layout =
      index_layout (le32 (length names)) body (le32 (length blocks)) (encode_blocks blocks)
      ∙ ok-injective e in
    let reads : Reads (index_entries (length names) (length blocks) chunks_length) index
        (names, blocks) =
      subst
        (λ w. Reads (index_entries (length names) (length blocks) chunks_length) w (names, blocks))
        layout
        (unfold index_entries in
          Reads->>= _
            (Reads-count max_command_names (length names) few_names (omega (arith, few_names)))
            (Reads-lift _ (rw (eq→== (length names) (length names) refl) refl) (
              Reads->>= _ (Reads-names names none body listed wrote) (
                Reads->>= _
                  (Reads-count max_blocks (length blocks) few_blocks (omega (arith, few_blocks)))
                  (Reads-lift _ (rw (eq→== (length blocks) (length blocks) refl) refl) (
                    Reads->>= _ (Reads-blocks chunks_length blocks small placed)
                      (Reads-lift _ (rw linked refl) (Reads-pure _)))))))) in
    let start : IsAt (new_index_decoder index) (index ++ []) = record {
      left = sym (append-nil index);
      inside = omega arith;
      addressable = addressable;
    } in
    let end = (IsAt-advance (new_index_decoder index) index [] start).left in
    rw (reads.run (new_index_decoder index) [] start) (rw end refl)
