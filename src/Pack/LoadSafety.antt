-- ===== src/Pack/LoadSafety.antt =====
-- What `load_block_bounded` of rules/format.rs accepts, and that the blocks of an opened pack can be found.
use mathlib.Core.Path.{subst}
use bash_lume.Base.{
  ℕ, ◌+◌, ◌≤◌, ◌≡◌, ap, false, ◌||◌, not, Option, none, some, List, Bytes, Result, ok, err, arith,
  ltb, ltb→le, ◌==◌, length, usize_max, min, bytes_eq, bytes_eq→eq, or-eq-false,
}
use bash_lume.Base.Outcome.{>>=-eq-ok, reject->>-eq-ok, require->>-eq-ok, ok-injective}
use bash_lume.Ir.Types.{IrError, CommandProgram}
use bash_lume.Ir.Limits.{max_command_block_bytes, Sizes, ScriptIr}
use bash_lume.Ir.ValidateProgram.{validate}
use bash_lume.Ir.DecodeProgram.{decode_with_allocation_limit}
use bash_lume.Ir.Safety.{decode_with_allocation_limit-IsSpent}
use bash_lume.Pack.Types.{PackError, BlockEntry}
use bash_lume.Pack.Words.{slice, section}
use bash_lume.Pack.Codec.{Codec}
use bash_lume.Pack.Open.{PackFile}
use bash_lume.Pack.Load.{
  get_elem?, asks_undeclared, found_block, decompressed, decoded, load_block_bounded,
}

section-eq-ok :
    (bytes : Bytes) (offset n : ℕ) (part : Bytes)
    → section bytes offset n ≡ ok part
    → (offset + n ≤ length bytes) × (part ≡ slice offset n bytes)
unfolding section
section-eq-ok bytes offset n part h = ground (arith, h)

found_block-eq-ok :
    (found : Option BlockEntry) (block : BlockEntry)
    → found_block found ≡ ok block
    → found ≡ some block
found_block-eq-ok none block h = cc
found_block-eq-ok (some b) block h = ap some (ok-injective h)

module _ (C : Codec) (Z : Sizes) (S : ScriptIr)
    (capabilities_of : S.ScriptModule → List Bytes) where
  open C use {sha256, decompress}
  open S use {ScriptModule}

  decompressed-eq-ok :
      (found : Option Bytes) (bytes : Bytes) → decompressed found ≡ ok bytes → found ≡ some bytes
  decompressed-eq-ok none bytes h = cc
  decompressed-eq-ok (some b) bytes h = ap some (ok-injective h)

  decoded-eq-ok :
      (r : Result IrError (CommandProgram ScriptModule)) (p : CommandProgram ScriptModule)
      → decoded r ≡ ok p
      → r ≡ ok p
  decoded-eq-ok (err e) p h = cc
  decoded-eq-ok (ok a) p h = ap ok (ok-injective h)

  -- A program that a block of a pack holds.
  pub record IsLoaded (pack : PackFile) (block_id limit : ℕ) (program : CommandProgram ScriptModule)
      : Type 0 where
    pub block : BlockEntry
    pub bytes : Bytes
    pub found : get_elem? pack.blocks block_id ≡ some block
    pub inside : pack.chunks_offset + block.offset + block.compressed_length ≤ length pack.mapping
    pub hashed :
        sha256 (slice (pack.chunks_offset + block.offset) block.compressed_length pack.mapping)
        ≡ block.hash
    pub unpacked :
        decompress
          (slice (pack.chunks_offset + block.offset) block.compressed_length pack.mapping)
          block.uncompressed_length
        ≡ some bytes
    pub exact : length bytes ≡ block.uncompressed_length
    pub bounded : length bytes ≤ min limit max_command_block_bytes
    pub decodes : decode_with_allocation_limit Z S bytes limit ≡ ok program
    pub valid : validate Z S program ≡ ok tt
    pub declared :
        asks_undeclared C Z S capabilities_of pack.manifest.probe_capabilities program ≡ false

  -- A program that is loaded under a limit within `usize` stands in a block of the pack whose bytes lie within the
  -- mapping and fit their hash, and unpack to the length that the index gives, within the limits. It is what decoding
  -- these bytes returns, it is valid, and the manifest declares every capability that its probes and scripts ask for.
  pub load_block_bounded-IsLoaded :
      (pack : PackFile) (block_id limit : ℕ) (program : CommandProgram ScriptModule)
      → limit ≤ usize_max
      → load_block_bounded C Z S capabilities_of pack block_id limit ≡ ok program
      → IsLoaded pack block_id limit program
  unfolding load_block_bounded
  load_block_bounded-IsLoaded pack block_id limit program le h =
      let (block, found, h₁) = >>=-eq-ok (found_block (get_elem? pack.blocks block_id)) _ h in
      let (_, h₂) =
        reject->>-eq-ok (ltb usize_max (pack.chunks_offset + block.offset))
          (PackError.invalid "chunk offset overflow") _ h₁ in
      let (compressed, part, h₃) =
        >>=-eq-ok (section pack.mapping (pack.chunks_offset + block.offset) block.compressed_length)
          _ h₂ in
      let (hashed, h₄) =
        require->>-eq-ok (bytes_eq (sha256 compressed) block.hash)
          (PackError.integrity "command block hash") _ h₃ in
      let bound = min limit max_command_block_bytes in
      let (_, h₅) =
        reject->>-eq-ok (ltb bound block.uncompressed_length)
          (PackError.limit "decompressed command block") _ h₄ in
      let (bytes, unpacked, h₆) =
        >>=-eq-ok (decompressed (decompress compressed block.uncompressed_length)) _ h₅ in
      let (sized, h₇) =
        reject->>-eq-ok
          (not (length bytes == block.uncompressed_length) || ltb bound (length bytes))
          (PackError.limit "decompressed command block") _ h₆ in
      let (p, decodes, h₈) =
        >>=-eq-ok (decoded (decode_with_allocation_limit Z S bytes limit)) _ h₇ in
      let (declared, h₉) =
        reject->>-eq-ok (asks_undeclared C Z S capabilities_of pack.manifest.probe_capabilities p)
          (PackError.invalid "command block requests an undeclared probe capability") _ h₈ in
      let (inside, e) =
        section-eq-ok pack.mapping (pack.chunks_offset + block.offset) block.compressed_length
          compressed part in
      let run = decoded-eq-ok (decode_with_allocation_limit Z S bytes limit) p decodes in
      let (_, valid, _, _, _) = decode_with_allocation_limit-IsSpent Z S bytes limit p le run in
      let (same, small) = or-eq-false (not (length bytes == block.uncompressed_length)) _ sized in
      subst (IsLoaded pack block_id limit) (ok-injective h₉) (record {
        block = block;
        bytes = bytes;
        found = found_block-eq-ok (get_elem? pack.blocks block_id) block found;
        inside = inside;
        hashed = subst (λ c. sha256 c ≡ block.hash) e (bytes_eq→eq _ _ hashed);
        unpacked =
            subst (λ c. decompress c block.uncompressed_length ≡ some bytes) e
              (decompressed-eq-ok (decompress compressed block.uncompressed_length) bytes unpacked);
        exact = ground (arith, same);
        bounded = ltb→le (length bytes) bound small;
        decodes = run;
        valid = valid;
        declared = declared;
      })
