-- ===== src/Pack/LoadBuilt.antt =====
-- `PackBuilder::build`, `open_bounded` and `PackFile::load_command` of rules/format.rs, one after the other.
use mathlib.Core.Path.{subst}
use bash_lume.Base.{
  All, zero, suc, ℕ, ◌+◌, ◌%◌, ◌≤◌, ◌<◌, ◌≡◌, refl, sym, ap, ◌∙◌, Bool, true, false, Option, some,
  List, [], ◌∷◌, Bytes, ok, err, arith, le→ltb, length, usize_max, u32_end, bytes_eq_refl, eq→==,
  if◌then◌else◌, drop, take, drop-add,
}
use bash_lume.Base.Outcome.{ok-injective}
use bash_lume.Ir.Types.{CommandProgram}
use bash_lume.Ir.Limits.{
  Sizes, ScriptIr, max_command_block_bytes, max_command_decode_allocation_bytes,
  command_block_version,
}
use bash_lume.Ir.EncodeProgram as EncodeProgram
use bash_lume.Ir.DecodeProgram.{decode_with_allocation_limit}
use bash_lume.Ir.JsonLaws.{JsonLaws}
use bash_lume.Ir.Wire.{program_cost}
use bash_lume.Ir.Typed.{IsTypedProgram}
use bash_lume.Ir.RoundTrip.{decode-encode_version}
use bash_lume.Pack.Types.{PackError, BlockEntry, TrustStatus}
use bash_lume.Pack.Words.{slice, section}
use bash_lume.Pack.Codec.{Codec, PackSizes}
use bash_lume.Pack.Open.{PackFile, TrustedKeys, open_mapping}
use bash_lume.Pack.Load.{
  get_elem?, asks_undeclared, load_block_bounded, load_block, load_command, find_block,
}
use bash_lume.Pack.Build.{Parts, PackBuildSpec, build}
use bash_lume.Pack.NameOrder.{find_block-eq-lookup_block}
use bash_lume.Pack.BuildInvariant.{HasTexts, encode-short}
use bash_lume.Pack.BuildStored.{IsStored, add_commands-IsStored}
use bash_lume.Pack.AssembleParts.{IsAssembled, chunks_start}
use bash_lume.Pack.AssembleSeal.{CodecLaws}
use bash_lume.Pack.AssembleOpen.{opened_pack}
use bash_lume.Pack.AssembleTrust.{Trusts}
use bash_lume.Pack.RoundTrip.{
  no_parts, no_parts-IsBuilt, zero_add, IsTypedSpec, IsReopened, open_mapping-build,
}

take-take : (n m : ℕ) (xs : Bytes) → n ≤ m → take n (take m xs) ≡ take n xs
take-take zero m xs h = refl
take-take (suc n) zero xs h = ground arith
take-take (suc n) (suc m) [] h = refl
take-take (suc n) (suc m) (x ∷ xs) h = ap (λ t. x ∷ t) (take-take n m xs (omega arith))

slice-take : (o n m : ℕ) (xs : Bytes) → o + n ≤ m → slice o n (take m xs) ≡ slice o n xs
unfolding slice
slice-take zero n m xs h = take-take n m xs (omega arith)
slice-take (suc o) n zero xs h = ground arith
slice-take (suc o) n (suc m) [] h = refl
slice-take (suc o) n (suc m) (x ∷ xs) h = slice-take o n m xs (omega arith)

-- A range of a range.
slice-slice : (c m o n : ℕ) (xs : Bytes) → o + n ≤ m → slice o n (slice c m xs) ≡ slice (c + o) n xs
unfolding slice
slice-slice c m o n xs h = slice-take o n m (drop c xs) h ∙ ap (take n) (sym (drop-add c o xs))

get_elem?-length :
    {A : Type 0} (xs : List A) (i : ℕ) (x : A) → get_elem? xs i ≡ some x → i < length xs
get_elem?-length [] i x h = cc
get_elem?-length (y ∷ xs) zero x h = omega arith
get_elem?-length (y ∷ xs) (suc i) x h = omega (arith, get_elem?-length xs i x h)

if-eq-ok : (b : Bool) (e : PackError) (x y : PackFile) → (if b then err e else ok x) ≡ ok y → x ≡ y
if-eq-ok true e x y h = cc
if-eq-ok false e x y h = ok-injective h

module _ (C : Codec) (Z : Sizes) (S : ScriptIr)
    (capabilities_of : S.ScriptModule → List Bytes) where
  open C use {sha256, decompress}
  open S use {ScriptModule}

  -- A block whose parts are known.
  load_block-parts :
      (pack : PackFile) (block_id : ℕ) (block : BlockEntry) (compressed bytes : Bytes)
      (command : CommandProgram ScriptModule)
      → get_elem? pack.blocks block_id ≡ some block
      → pack.chunks_offset + block.offset ≤ usize_max
      → section pack.mapping (pack.chunks_offset + block.offset) block.compressed_length
        ≡ ok compressed
      → block.hash ≡ sha256 compressed
      → decompress compressed block.uncompressed_length ≡ some bytes
      → length bytes ≡ block.uncompressed_length
      → length bytes ≤ max_command_block_bytes
      → decode_with_allocation_limit Z S bytes max_command_decode_allocation_bytes ≡ ok command
      → asks_undeclared C Z S capabilities_of pack.manifest.probe_capabilities command ≡ false
      → load_block C Z S capabilities_of pack block_id ≡ ok command
  unfolding load_block load_block_bounded
  load_block-parts pack block_id block compressed bytes command found small part hash unpacked size
        short decodes declared =
      rw
        (
          found,
          le→ltb (pack.chunks_offset + block.offset) usize_max small,
          part,
          hash,
          bytes_eq_refl (sha256 compressed),
          le→ltb block.uncompressed_length 16777216 (omega (arith, size, short)),
          unpacked,
          eq→== (length bytes) block.uncompressed_length size,
          le→ltb (length bytes) 16777216 short,
          decodes,
          declared,
        )
        refl

  module _ (L : CodecLaws C) (P : PackSizes) (path : Bytes) (level : ℕ) (spec : PackBuildSpec C Z S)
      (key : Option C.SigningKey) (keys : TrustedKeys C) (trust : TrustStatus) (limit : ℕ)
      (bytes : Bytes) where
    load_block-stored :
        (parts : Parts) (index manifest : Bytes) (i : ℕ) (command : CommandProgram ScriptModule)
        (laws : JsonLaws S Z command.scripts)
        → IsAssembled C Z S L spec key parts index manifest bytes
        → IsStored C Z S L level i command parts
        → IsTypedProgram command
        → max_command_block_bytes + program_cost Z command laws.preflight_cost
          ≤ max_command_decode_allocation_bytes
        → asks_undeclared C Z S capabilities_of spec.manifest.probe_capabilities command ≡ false
        → load_block C Z S capabilities_of
            (opened_pack C Z S L P path bytes spec key parts index manifest keys trust limit)
            i
          ≡ ok command
    unfolding section EncodeProgram.encode
    load_block-stored parts index manifest i command laws A s typed cost declared =
        let co = chunks_start C Z S L spec key parts index manifest in
        let pack =
          opened_pack C Z S L P path bytes spec key parts index manifest keys trust limit in
        let short = encode-short C Z S L command s.encoded s.encodes in
        let chunk : slice (co + s.block.offset) s.block.compressed_length bytes ≡ s.compressed =
          ap (λ n. slice (co + s.block.offset) n bytes) s.compressed_length
          ∙ (sym (
                slice-slice co (length parts.chunks) s.block.offset (length s.compressed) bytes
                  s.inside)
              ∙ (ap (slice s.block.offset (length s.compressed)) A.chunk_section ∙ s.chunk)) in
        let inside : co + s.block.offset + s.block.compressed_length ≤ length bytes =
          omega (arith, A.total, s.inside, s.compressed_length) in
        let part : section bytes (co + s.block.offset) s.block.compressed_length ≡ ok s.compressed =
          rw
            (
              le→ltb (co + s.block.offset + s.block.compressed_length) usize_max
                  (omega (arith, inside, A.bounded)),
              le→ltb (co + s.block.offset + s.block.compressed_length) (length bytes) inside,
              chunk,
            )
            refl in
        let unpacked : decompress s.compressed s.block.uncompressed_length ≡ some s.encoded =
          ap (decompress s.compressed) s.uncompressed_length
          ∙ L.unpacks level s.encoded s.compressed s.compresses in
        load_block-parts pack i s.block s.compressed s.encoded command s.found
          (omega (arith, inside, A.bounded)) part s.hashed unpacked (sym s.uncompressed_length)
          short
          (decode-encode_version Z S command laws command_block_version
            max_command_decode_allocation_bytes s.encoded typed (omega arith) s.encodes
            (omega (arith, cost, short)) (omega arith))
          declared

    reopened_command :
        (R : IsReopened C Z S L P path level spec key keys trust limit bytes) (i j : ℕ)
        (command : CommandProgram ScriptModule) (r : Bytes) (laws : JsonLaws S Z command.scripts)
        → All (HasTexts C Z S L) spec.commands
        → get_elem? spec.commands i ≡ some command
        → get_elem? command.registrations j ≡ some r
        → IsTypedProgram command
        → max_command_block_bytes + program_cost Z command laws.preflight_cost
          ≤ max_command_decode_allocation_bytes
        → asks_undeclared C Z S capabilities_of spec.manifest.probe_capabilities command ≡ false
        → load_command C Z S capabilities_of
            (opened_pack C Z S L P path bytes spec key R.parts R.index R.manifest keys trust limit)
            r
          ≡ ok (some command)
    unfolding load_command
    reopened_command R i j command r laws texts at named typed cost declared =
        let s =
          subst (λ n. IsStored C Z S L level n command R.parts) (zero_add i)
            (add_commands-IsStored C Z S L level 0 spec.commands no_parts R.parts i command texts
              no_parts-IsBuilt at R.added) in
        let small : i % u32_end ≡ i =
          omega (arith, get_elem?-length spec.commands i command at, R.few) in
        let found : find_block R.parts.names r ≡ some i =
          find_block-eq-lookup_block R.parts.names r R.built.chain
          ∙ (s.named j r named ∙ ap some small) in
        rw
          (
            found,
            load_block-stored R.parts R.index R.manifest i command laws R.assembled s typed cost
                declared,
          )
          refl

    -- For libraries with the laws of `CodecLaws`: a command of a pack that is built from a typed specification, and
    -- opened, is loaded by each of its registrations, and is the command itself. The command is typed, its scripts have
    -- the laws of `JsonLaws`, what its parts are charged leaves room for a block within the decoder's limit, and the
    -- manifest declares the capabilities it asks for. The manifest is read back from its JSON text, and a key under the
    -- id of the pack's key is that key.
    pub load_command-build :
        (pack : PackFile) (i j : ℕ) (command : CommandProgram ScriptModule) (r : Bytes)
        (laws : JsonLaws S Z command.scripts)
        → IsTypedSpec C Z S L spec
        → ((json : Bytes)
            → C.manifest_json spec.manifest ≡ some json
            → C.manifest_of_json json ≡ some spec.manifest)
        → Trusts C Z S L keys key trust
        → get_elem? spec.commands i ≡ some command
        → get_elem? command.registrations j ≡ some r
        → IsTypedProgram command
        → max_command_block_bytes + program_cost Z command laws.preflight_cost
          ≤ max_command_decode_allocation_bytes
        → asks_undeclared C Z S capabilities_of spec.manifest.probe_capabilities command ≡ false
        → build C Z S level spec key ≡ ok bytes
        → open_mapping C P path bytes keys limit ≡ ok pack
        → load_command C Z S capabilities_of pack r ≡ ok (some command)
    load_command-build pack i j command r laws t reads trusts at named typed cost declared b o =
        let R =
          open_mapping-build C Z S L P path level spec key keys trust limit bytes t reads trusts
            b in
        let same = if-eq-ok _ _ _ pack (sym R.opens ∙ o) in
        subst (λ p. load_command C Z S capabilities_of p r ≡ ok (some command)) same
          (reopened_command R i j command r laws t.texts at named typed cost declared)
