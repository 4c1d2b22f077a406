-- ===== src/Pack/RoundTrip.antt =====
-- `PackBuilder::build` and `open_bounded` of rules/format.rs, one after the other.
use mathlib.Core.Path.{subst}
use bash_lume.Base.{
  ℕ, ◌+◌, ◌≤◌, ◌<◌, ◌≡◌, refl, ap, ◌||◌, Option, none, some, [], Bytes, ok, arith, ltb, ltb→le,
  length, usize_max, All, or-eq-false,
}
use bash_lume.Base.Outcome.{>>=-eq-ok, >>-eq-ok, reject->>-eq-ok, ok-injective}
use bash_lume.Ir.Limits.{Sizes, ScriptIr}
use bash_lume.Ir.Validate.{is_empty}
use bash_lume.Pack.Types.{
  PackError, validate_manifest, TrustStatus, max_blocks, max_command_names, max_index_bytes,
  max_manifest_bytes,
}
use bash_lume.Pack.Index.{encode_index}
use bash_lume.Pack.Codec.{Codec, PackSizes}
use bash_lume.Pack.Open.{TrustedKeys, open_mapping}
use bash_lume.Pack.Build.{Parts, PackBuildSpec, json_or, canonical_manifest, add_commands, build}
use bash_lume.Pack.IndexRoundTrip.{parse_index-encode_index}
use bash_lume.Pack.BuildNames.{IsChain-IsListed}
use bash_lume.Pack.BuildInvariant.{IsBuilt, none_dangling, HasTexts, add_commands-IsBuilt}
use bash_lume.Pack.AssembleParts.{IsAssembled, assemble-IsAssembled}
use bash_lume.Pack.AssembleSeal.{CodecLaws}
use bash_lume.Pack.AssembleReads.{IsNarrow}
use bash_lume.Pack.AssembleOpen.{header_of, opened_pack, within_limit, open_mapping-assemble}
use bash_lume.Pack.AssembleTrust.{Trusts}

abbrev pub no_parts : Parts
no_parts = record { names = []; chunks = []; blocks = [] }

pub no_parts-IsBuilt : IsBuilt 0 no_parts
no_parts-IsBuilt = record { names = tt; chain = tt; count = refl; placed = tt }

pub zero_add : (n : ℕ) → 0 + n ≡ n
zero_add n = omega arith

module _ (C : Codec) (Z : Sizes) (S : ScriptIr) (L : CodecLaws C) where
  open C use {SigningKey, manifest_json, manifest_of_json}

  -- The fields have the widths of their types, and the names are texts.
  pub record IsTypedSpec (spec : PackBuildSpec C Z S) : Type 0 where
    pub engine_major : spec.minimum_engine.0 < 65536
    pub engine_minor : spec.minimum_engine.1 < 65536
    pub engine_patch : spec.minimum_engine.2 < 65536
    pub opcodes : spec.required_opcodes ≤ usize_max
    pub features : spec.optional_features ≤ usize_max
    pub texts : All (HasTexts C Z S L) spec.commands

  json_or-eq-ok : (r : Option Bytes) (bytes : Bytes) → json_or C Z S r ≡ ok bytes → r ≡ some bytes
  json_or-eq-ok none bytes h = cc
  json_or-eq-ok (some b) bytes h = ap some (ok-injective h)

  module _ (P : PackSizes) (path : Bytes) (level : ℕ) (spec : PackBuildSpec C Z S)
      (key : Option SigningKey) (keys : TrustedKeys C) (trust : TrustStatus) (limit : ℕ)
      (bytes : Bytes) where
    -- A pack of the commands that opens to what it was built from, within the limit.
    pub record IsReopened : Type 0 where
      pub parts : Parts
      pub index : Bytes
      pub manifest : Bytes
      pub few : length spec.commands ≤ max_blocks
      pub built : IsBuilt (length spec.commands) parts
      pub added : add_commands C Z S level 0 spec.commands no_parts ≡ ok parts
      pub indexed : encode_index parts.names parts.blocks ≡ ok index
      pub described : manifest_json spec.manifest ≡ some manifest
      pub assembled : IsAssembled C Z S L spec key parts index manifest bytes
      pub opens :
          open_mapping C P path bytes keys limit
          ≡ within_limit C Z S L P path bytes spec key parts index manifest keys trust limit
              (header_of C Z S L P path bytes spec key parts index manifest keys trust limit)
              (opened_pack C Z S L P path bytes spec key parts index manifest keys trust limit)

    -- For libraries with the laws of `CodecLaws`: a pack that is built from a typed specification opens, where what
    -- opening it retains is within the limit, and else is refused for that. It has the manifest, the kind, the engine,
    -- the features, the names and blocks and the identity it was built from, and is trusted as the trusted keys say of
    -- the key that signed it. The manifest is read back from its JSON text, and a key under the id of the pack's key is
    -- that key.
    pub open_mapping-build :
        IsTypedSpec spec
        → ((json : Bytes)
            → manifest_json spec.manifest ≡ some json
            → manifest_of_json json ≡ some spec.manifest)
        → Trusts C Z S L keys key trust
        → build C Z S level spec key ≡ ok bytes
        → IsReopened
    unfolding build
    open_mapping-build t reads trusts h =
        let (valid, h₁) = >>-eq-ok (validate_manifest spec.manifest) _ h in
        let (few, h₂) =
          reject->>-eq-ok (is_empty spec.commands || ltb max_blocks (length spec.commands))
            (PackError.limit "pack command blocks") _ h₁ in
        let (manifest, m, h₃) = >>=-eq-ok (canonical_manifest C Z S spec.manifest) _ h₂ in
        let (mle, h₄) =
          reject->>-eq-ok (ltb max_manifest_bytes (length manifest))
            (PackError.limit "pack manifest") _ h₃ in
        let (parts, a, h₅) = >>=-eq-ok (add_commands C Z S level 0 spec.commands no_parts) _ h₄ in
        let (nle, h₆) =
          reject->>-eq-ok (ltb max_command_names (length parts.names))
            (PackError.limit "command names") _ h₅ in
        let (index, i, h₇) = >>=-eq-ok (encode_index parts.names parts.blocks) _ h₆ in
        let (ile, h₈) =
          reject->>-eq-ok (ltb max_index_bytes (length index)) (PackError.limit "pack index") _
            h₇ in
        let small : length spec.commands ≤ max_blocks =
          ltb→le _ _ (or-eq-false (is_empty spec.commands) _ few).1 in
        let b =
          subst (λ n. IsBuilt n parts) (zero_add (length spec.commands))
            (add_commands-IsBuilt C Z S L level 0 spec.commands no_parts parts t.texts
              no_parts-IsBuilt a) in
        let count : length parts.blocks ≤ max_blocks = omega (arith, b.count) in
        let index_le = ltb→le (length index) max_index_bytes ile in
        let manifest_le = ltb→le (length manifest) max_manifest_bytes mle in
        let names_le = ltb→le (length parts.names) max_command_names nle in
        let A =
          assemble-IsAssembled C Z S L spec key parts index manifest bytes index_le manifest_le
            h₈ in
        let json = json_or-eq-ok (manifest_json spec.manifest) manifest m in
        let parsed =
          parse_index-encode_index parts.names parts.blocks (length parts.chunks) index
            (IsChain-IsListed none (length spec.commands) parts.names (omega arith) b.names b.chain)
            names_le count
            (none_dangling (length spec.commands) parts.names parts.blocks b.count b.names) b.placed
            (omega (arith, A.total, A.bounded)) (omega arith) i in
        let narrow : IsNarrow spec parts = record {
          engine_major = t.engine_major;
          engine_minor = t.engine_minor;
          engine_patch = t.engine_patch;
          opcodes = t.opcodes;
          features = t.features;
          name_count = names_le;
          block_count = count;
        } in
        record {
          parts = parts;
          index = index;
          manifest = manifest;
          few = small;
          built = b;
          added = a;
          indexed = i;
          described = json;
          assembled = A;
          opens =
              open_mapping-assemble C Z S L P path bytes spec key parts index manifest keys trust
                limit index_le manifest_le narrow trusts (reads manifest json) valid parsed h₈;
        }
