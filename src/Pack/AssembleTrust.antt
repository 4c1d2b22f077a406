-- ===== src/Pack/AssembleTrust.antt =====
-- The signature and the manifest of an assembled pack, as `open_bounded` of rules/format.rs accepts them.
use bash_lume.Base.{
  ℕ, ◌+◌, ◌≤◌, ◌≡◌, ◌⊎◌, inl, inr, refl, sym, ap, ◌∙◌, Bool, if◌then◌else◌, true, false, Option,
  none, some, List, ◌++◌, Bytes, ok, err, arith, le→ltb, length, take, usize_max, bytes_eq_refl,
  length-take, eq→==,
}
use bash_lume.Base.Outcome.{◌>>◌, reject}
use bash_lume.Ir.Limits.{Sizes, ScriptIr}
use bash_lume.Pack.Types.{
  PackError, PackManifest, SourceKind, same_kind, validate_manifest, TrustStatus, header_size,
}
use bash_lume.Pack.Words.{slice, copy_at, section}
use bash_lume.Pack.Codec.{Codec}
use bash_lume.Pack.Header.{zeros, key_id_bytes, signature_message}
use bash_lume.Pack.Open.{
  PackFile, TrustedKeys, get_key, verify_with, verify_signature, identity_of, read_manifest,
}
use bash_lume.Pack.Build.{Parts, PackBuildSpec, flag_of}
use bash_lume.Pack.Patches.{Patch, written}
use bash_lume.Pack.AssembleParts.{IsAssembled}
use bash_lume.Pack.AssembleSeal.{CodecLaws, key_id_of, seal_patches, root_patches}
use bash_lume.Pack.AssembleReads.{field}

pub section-slice :
    (bytes : Bytes) (offset n : ℕ) (part : Bytes)
    → offset + n ≤ length bytes
    → length bytes ≤ usize_max
    → slice offset n bytes ≡ part
    → section bytes offset n ≡ ok part
unfolding section
section-slice bytes offset n part inside small e =
    rw (le→ltb (offset + n) usize_max (omega arith), le→ltb (offset + n) (length bytes) inside, e)
      refl

same_kind_refl : (k : SourceKind) → same_kind k k ≡ true
same_kind_refl SourceKind.bash = refl
same_kind_refl SourceKind.zsh = refl
same_kind_refl SourceKind.fish = refl
same_kind_refl SourceKind.user = refl

signature_message-full :
    (header : Bytes)
    → length header ≡ header_size
    → signature_message header ≡ ok (copy_at 160 (zeros 64) header)
unfolding signature_message
signature_message-full header full = rw (eq→== (length header) header_size full) refl

pub reject-eq-if :
    (b : Bool) (e : PackError) (pack : PackFile)
    → (reject b e >> ok pack) ≡ (if b then err e else ok pack)
reject-eq-if true e pack = refl
reject-eq-if false e pack = refl

module _ (C : Codec) (Z : Sizes) (S : ScriptIr) (L : CodecLaws C) where
  open C use {VerifyingKey, SigningKey, sha256, manifest_of_json, verifying_key, sign, verify}

  -- The trust in a pack: it is unsigned, or signed with a key that is among the trusted ones or not.
  abbrev pub Trusts : TrustedKeys C → Option SigningKey → TrustStatus → Type 0
  Trusts keys none trust = trust ≡ TrustStatus.unsigned
  Trusts keys (some key) trust =
      ((get_key C (key_id_of C Z S L key) keys ≡ none)
        × (trust ≡ TrustStatus.untrusted (key_id_of C Z S L key)))
      ⊎ ((get_key C (key_id_of C Z S L key) keys ≡ some (verifying_key key))
          × (trust ≡ TrustStatus.verified (key_id_of C Z S L key)))

  -- The signature of an assembled pack is accepted.
  pub verify_signature-assembled :
      (spec : PackBuildSpec C Z S) (key : Option SigningKey) (parts : Parts)
      (index manifest bytes : Bytes) (keys : TrustedKeys C) (trust : TrustStatus)
      (A : IsAssembled C Z S L spec key parts index manifest bytes)
      → header_size ≤ length bytes
      → Trusts keys key trust
      → verify_signature C
          (take header_size bytes)
          (flag_of C Z S key)
          (key_id_bytes (take header_size bytes))
          keys
        ≡ ok trust
  unfolding verify_signature verify_with written
  verify_signature-assembled spec none parts index manifest bytes keys trust A long t =
      let id =
        field C Z S L spec none parts index manifest bytes A 96 32 (zeros 32) (omega arith) refl in
      let signature =
        field C Z S L spec none parts index manifest bytes A 160 64 (zeros 64) (omega arith) refl in
      rw (id, signature, t) refl
  verify_signature-assembled spec (some key) parts index manifest bytes keys trust A long t =
      let id =
        field C Z S L spec (some key) parts index manifest bytes A 96 32 (key_id_of C Z S L key)
          (omega arith) refl in
      let signature =
        field C Z S L spec (some key) parts index manifest bytes A 160 64 (sign key A.message)
          (omega arith) refl in
      let message : signature_message (take header_size bytes) ≡ ok A.message =
        signature_message-full (take header_size bytes) (length-take header_size bytes long)
        ∙ ap ok (sym A.signed) in
      elim t [
        | inl (absent, e) ↦ rw (id, absent, e) refl
        | inr (present, e) ↦ rw (id, present, e, message, signature, L.verifies key A.message) refl
      ]

  pub written_root :
      (key : Option SigningKey) (message : Bytes) (m : PackManifest) (index manifest : Bytes)
      (rest : List Patch)
      → (written 128 32
            (seal_patches C Z S L key message ++ (root_patches C Z S L m index manifest ++ rest))
          ≡ some (sha256 (index ++ manifest)))
        × (written 224 32
              (seal_patches C Z S L key message ++ (root_patches C Z S L m index manifest ++ rest))
            ≡ some (identity_of C m))
  unfolding written
  written_root none message m index manifest rest = (refl, refl)
  written_root (some key) message m index manifest rest = (refl, refl)

  pub read_manifest-fits :
      (manifest : Bytes) (m : PackManifest) (pack_id : Bytes)
      → manifest_of_json manifest ≡ some m
      → validate_manifest m ≡ ok tt
      → pack_id ≡ identity_of C m
      → read_manifest C manifest m.source_kind pack_id ≡ ok m
  unfolding read_manifest
  read_manifest-fits manifest m pack_id parses valid id =
      rw (parses, valid, same_kind_refl m.source_kind, id, bytes_eq_refl (identity_of C m)) refl
