-- ===== src/Pack/Codec.antt =====
-- What rules/format.rs takes of the libraries: SHA-256, zstd, Ed25519 and serde_json on the manifest, and the sizes
-- that the compiler gives the types.
use bash_lume.Base.{ℕ, Bool, Option, Bytes}
use bash_lume.Pack.Types.{PackManifest}

pub record Codec : Type 1 where
  pub VerifyingKey : Type 0
  pub SigningKey : Type 0
  -- `Sha256` of a byte sequence; the updates of one hash are concatenated
  pub sha256 : Bytes → Bytes
  -- `zstd::bulk::compress` with a level, and `decompress` with a capacity
  pub compress : ℕ → Bytes → Option Bytes
  pub decompress : Bytes → ℕ → Option Bytes
  -- `serde_json::to_vec` and `serde_json::from_slice`
  pub manifest_json : PackManifest → Option Bytes
  pub manifest_of_json : Bytes → Option PackManifest
  -- `VerifyingKey::as_bytes`, `SigningKey::verifying_key`, `sign` and `verify`
  pub key_bytes : VerifyingKey → Bytes
  pub verifying_key : SigningKey → VerifyingKey
  pub sign : SigningKey → Bytes → Bytes
  pub verify : VerifyingKey → Bytes → Bytes → Bool

-- `std::mem::size_of`
pub record PackSizes : Type 0 where
  pub of_name_entry : ℕ
  pub of_block_entry : ℕ
  pub of_pack_file : ℕ
  pub of_string : ℕ
