-- ===== src/Pack/Types.antt =====
-- The data of rules/format.rs: source kinds, the manifest, the entries of the index, trust, errors and limits.
use bash_lume.Base.{
  ℕ, zero, suc, Bool, true, false, ◌||◌, List, [], ◌∷◌, ◌++◌, Bytes, String, Result, ok, err, ltb,
  length,
}
use bash_lume.Base.Outcome.{◌>>◌, reject}
use bash_lume.Base.Codes.{codes}
use bash_lume.Ir.Types.{IrError}
use bash_lume.Ir.Validate.{is_empty, contains}

-- The errors of the system and of the libraries carry no details here.
pub data PackError : Type 0 where
  io json compression decompression truncated : PackError
  ir : IrError → PackError
  invalid : String → PackError
  invalid_owned : Bytes → PackError
  integrity : String → PackError
  limit : String → PackError
  unsupported_format : ℕ → ℕ → PackError

pub data SourceKind : Type 0 where
  bash zsh fish user : SourceKind

unfoldable pub source_kind_encode : SourceKind → ℕ
source_kind_encode SourceKind.bash = 0
source_kind_encode SourceKind.zsh = 1
source_kind_encode SourceKind.fish = 2
source_kind_encode SourceKind.user = 3

unfoldable pub source_kind_decode : ℕ → Result PackError SourceKind
source_kind_decode zero = ok SourceKind.bash
source_kind_decode (suc zero) = ok SourceKind.zsh
source_kind_decode (suc (suc zero)) = ok SourceKind.fish
source_kind_decode (suc (suc (suc zero))) = ok SourceKind.user
source_kind_decode (suc (suc (suc (suc n)))) = err (PackError.invalid "unknown source kind")

abbrev pub priority : SourceKind → ℕ
priority SourceKind.user = 4
priority SourceKind.bash = 3
priority SourceKind.fish = 2
priority SourceKind.zsh = 1

-- `a == b` on source kinds
abbrev pub same_kind : SourceKind → SourceKind → Bool
same_kind SourceKind.bash SourceKind.bash = true
same_kind SourceKind.zsh SourceKind.zsh = true
same_kind SourceKind.fish SourceKind.fish = true
same_kind SourceKind.user SourceKind.user = true
same_kind _ _ = false

pub record PackManifest : Type 0 where
  pub pack_id : Bytes
  pub pack_version : Bytes
  pub source_kind : SourceKind
  pub source_repository : Bytes
  pub source_commit : Bytes
  pub license_expression : Bytes
  pub channel : Bytes
  pub compiler_version : Bytes
  pub generated_at : Bytes
  pub stale_commands : List Bytes
  pub probe_capabilities : List Bytes

abbrev pub max_command_names : ℕ
max_command_names = 262144

-- One round of the loop over the named texts.
unfoldable pub validate_text : String → Bytes → Result PackError (Unit {0})
validate_text name value =
    reject (is_empty value || ltb 4096 (length value) || contains 0 value)
      (PackError.invalid_owned (codes "invalid manifest " ++ codes name))

unfoldable pub validate_manifest : PackManifest → Result PackError (Unit {0})
validate_manifest m = do
  validate_text "pack ID" m.pack_id
  validate_text "pack version" m.pack_version
  validate_text "source repository" m.source_repository
  validate_text "source commit" m.source_commit
  validate_text "license expression" m.license_expression
  reject
      (ltb max_command_names (length m.stale_commands)
        || ltb max_command_names (length m.probe_capabilities))
      (PackError.limit "manifest entries")

pub data TrustStatus : Type 0 where
  verified : Bytes → TrustStatus
  unsigned : TrustStatus
  untrusted : Bytes → TrustStatus

unfoldable pub permits_dynamic_probes : TrustStatus → Bool
permits_dynamic_probes (TrustStatus.verified key_id) = true
permits_dynamic_probes _ = false

pub record NameEntry : Type 0 where
  pub name : Bytes
  pub block_id : ℕ

pub record BlockEntry : Type 0 where
  pub offset : ℕ
  pub compressed_length : ℕ
  pub uncompressed_length : ℕ
  pub hash : Bytes

abbrev pub pack_magic : Bytes
pack_magic = b'B' ∷ b'L' ∷ b'P' ∷ b'K' ∷ []

abbrev pub format_major : ℕ
format_major = 1

abbrev pub format_minor : ℕ
format_minor = 1

abbrev pub previous_format_major : ℕ
previous_format_major = 1

abbrev pub header_size : ℕ
header_size = 256

abbrev pub max_pack_bytes : ℕ
max_pack_bytes = 536870912

abbrev pub max_index_bytes : ℕ
max_index_bytes = 33554432

abbrev pub max_manifest_bytes : ℕ
max_manifest_bytes = 8388608

abbrev pub max_blocks : ℕ
max_blocks = 65536

abbrev pub max_command_name_bytes : ℕ
max_command_name_bytes = 4096

abbrev pub max_compressed_block_bytes : ℕ
max_compressed_block_bytes = 33554432
