-- ===== src/Pack/AssembleSeal.antt =====
-- The hashes, the key and the signature that `PackBuilder::build` of rules/format.rs writes into the header.
use bash_lume.Base.{
  ℕ, ◌≤◌, ◌≡◌, refl, sym, ap, ◌∙◌, true, Option, none, some, List, [], ◌∷◌, ◌++◌, Bytes, ok, arith,
  length, take, All, length-take,
}
use bash_lume.Base.Outcome.{>>=-eq-ok, ok-injective}
use bash_lume.Ir.Limits.{Sizes, ScriptIr}
use bash_lume.Pack.Types.{PackManifest, header_size}
use bash_lume.Pack.Words.{slice, copy_at}
use bash_lume.Pack.Codec.{Codec}
use bash_lume.Pack.Header.{zeros, signature_message}
use bash_lume.Pack.Open.{identity_of}
use bash_lume.Pack.Build.{sign_pack}
use bash_lume.Pack.Patches.{Patch, patched, IsFit}
use bash_lume.Pack.Writes.{length-copy_at, take-copy_at_within, copy_at-copy_at}

-- What SHA-256, Ed25519 and zstd promise.
pub record CodecLaws (C : Codec) : Type 0 where
  pub hash_length : (bytes : Bytes) → length (C.sha256 bytes) ≡ 32
  pub signature_length : (key : C.SigningKey) (message : Bytes) → length (C.sign key message) ≡ 64
  pub verifies :
      (key : C.SigningKey) (message : Bytes)
      → C.verify (C.verifying_key key) message (C.sign key message) ≡ true
  pub unpacks :
      (level : ℕ) (bytes compressed : Bytes)
      → C.compress level bytes ≡ some compressed
      → C.decompress compressed (length bytes) ≡ some bytes

signature_message-eq-ok :
    (header message : Bytes)
    → signature_message header ≡ ok message
    → message ≡ copy_at 160 (zeros 64) header
unfolding signature_message
signature_message-eq-ok header message h = ground (arith, h)

-- The message does not depend on the signature that stands in the header.
message_unsigned :
    (signature output : Bytes)
    → length signature ≡ 64
    → header_size ≤ length output
    → copy_at 160 (zeros 64) (take header_size output)
      ≡ copy_at 160 (zeros 64) (take header_size (copy_at 160 signature output))
message_unsigned signature output size h =
    let short : length (take header_size output) ≡ header_size = length-take header_size output h in
    sym (
      ap (copy_at 160 (zeros 64))
        (take-copy_at_within header_size 160 signature output (omega arith) h)
      ∙ copy_at-copy_at 160 signature (zeros 64) (take header_size output) size (omega arith))

module _ (C : Codec) (Z : Sizes) (S : ScriptIr) (L : CodecLaws C) where
  open C use {SigningKey, sha256, key_bytes, verifying_key, sign}

  abbrev pub key_id_of : SigningKey → Bytes
  key_id_of key = sha256 (key_bytes (verifying_key key))

  -- The key and the signature, if there is a key.
  abbrev pub seal_patches : Option SigningKey → Bytes → List Patch
  seal_patches none message = []
  seal_patches (some key) message =
      record { place = 160; size = 64; value = sign key message }
      ∷ record { place = 96; size = 32; value = key_id_of key }
      ∷ []

  pub seal_patches-IsFit :
      (key : Option SigningKey) (message : Bytes)
      → All (IsFit header_size) (seal_patches key message)
  seal_patches-IsFit none message = tt
  seal_patches-IsFit (some key) message = (
    (L.signature_length key message, omega arith),
    ((L.hash_length (key_bytes (verifying_key key)), omega arith), tt),
  )

  -- A pack is sealed by writes into its header, and the message is the header without the signature.
  pub sign_pack-patched :
      (key : Option SigningKey) (output bytes : Bytes)
      → header_size ≤ length output
      → sign_pack C Z S key output ≡ ok bytes
      → (message : Bytes) × (bytes ≡ patched (seal_patches key message) output)
        × (message ≡ copy_at 160 (zeros 64) (take header_size bytes))
  unfolding sign_pack slice
  sign_pack-patched none output bytes h s =
      (copy_at 160 (zeros 64) (take header_size bytes), sym (ok-injective s), refl)
  sign_pack-patched (some key) output bytes h s =
      let keyed = copy_at 96 (key_id_of key) output in
      let (message, m, s₁) = >>=-eq-ok (signature_message (slice 0 header_size keyed)) _ s in
      let e : bytes ≡ copy_at 160 (sign key message) keyed = sym (ok-injective s₁) in
      let long : length keyed ≡ length output =
        length-copy_at 96 (key_id_of key) output
          (omega (arith, L.hash_length (key_bytes (verifying_key key)))) in
      (
        message,
        e,
        signature_message-eq-ok (slice 0 header_size keyed) message m
            ∙ (message_unsigned (sign key message) keyed (L.signature_length key message)
                  (omega arith)
                ∙ ap (λ b. copy_at 160 (zeros 64) (take header_size b)) (sym e)),
      )

  -- The hashes of the metadata and of the identity.
  abbrev pub root_patches : PackManifest → Bytes → Bytes → List Patch
  root_patches m index manifest =
      record { place = 224; size = 32; value = identity_of C m }
      ∷ record { place = 128; size = 32; value = sha256 (index ++ manifest) }
      ∷ []

  pub root_patches-IsFit :
      (m : PackManifest) (index manifest : Bytes)
      → All (IsFit header_size) (root_patches m index manifest)
  root_patches-IsFit m index manifest = (
    (L.hash_length (m.pack_id ++ 0 ∷ (m.pack_version ++ 0 ∷ m.source_commit)), omega arith),
    ((L.hash_length (index ++ manifest), omega arith), tt),
  )
