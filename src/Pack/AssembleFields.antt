-- ===== src/Pack/AssembleFields.antt =====
-- The fields of a header of rules/format.rs, read from the bytes that stand in their places.
use bash_lume.Base.{
  ℕ, zero, suc, ◌+◌, ◌/◌, ◌≤◌, ◌<◌, ◌≡◌, refl, ap, not, false, Option, none, some, [], ◌∷◌, Bytes,
  ok, le→ltb, length, u32_end, usize_max, le16, le32, word16-le16, word32-le32, ◌==◌,
}
use bash_lume.Ir.Limits.{Sizes, ScriptIr}
use bash_lume.Pack.Types.{
  SourceKind, source_kind_encode, source_kind_decode, pack_magic, format_major, format_minor,
  header_size, max_command_names, max_blocks,
}
use bash_lume.Pack.Words.{le64, slice, read_u16, read_u32, read_u64}
use bash_lume.Pack.Codec.{Codec}
use bash_lume.Pack.Reads.{word64-le64}
use bash_lume.Pack.Header.{byte_at, zeros, check_format, read_header}
use bash_lume.Pack.Build.{flag_of}

module _ (bytes : Bytes) (offset n : ℕ) where
  pub read_u16-slice :
      offset + 2 ≤ length bytes
      → slice offset 2 bytes ≡ le16 n
      → n < 65536
      → read_u16 bytes offset ≡ ok n
  unfolding read_u16 le16
  read_u16-slice inside e small = rw (le→ltb _ _ inside, e) (ap ok (word16-le16 n small))

  pub read_u32-slice :
      offset + 4 ≤ length bytes
      → slice offset 4 bytes ≡ le32 n
      → n < u32_end
      → read_u32 bytes offset ≡ ok n
  unfolding read_u32 le32
  read_u32-slice inside e small = rw (le→ltb _ _ inside, e) (ap ok (word32-le32 n small))

  pub read_u64-slice :
      offset + 8 ≤ length bytes
      → slice offset 8 bytes ≡ le64 n
      → n ≤ usize_max
      → read_u64 bytes offset ≡ ok n
  unfolding read_u64 le64 le32
  read_u64-slice inside e small = rw (le→ltb _ _ inside, e) (ap ok (word64-le64 n small))

pub byte_at-slice : (bytes : Bytes) (o b : ℕ) → slice o 1 bytes ≡ b ∷ [] → byte_at bytes o ≡ b
unfolding slice
byte_at-slice [] zero b h = cc
byte_at-slice [] (suc o) b h = cc
byte_at-slice (x ∷ bytes) zero b h = cc
byte_at-slice (x ∷ bytes) (suc o) b h = byte_at-slice bytes o b h

source_kind_decode-encode : (k : SourceKind) → source_kind_decode (source_kind_encode k) ≡ ok k
unfolding source_kind_decode source_kind_encode
source_kind_decode-encode SourceKind.bash = refl
source_kind_decode-encode SourceKind.zsh = refl
source_kind_decode-encode SourceKind.fish = refl
source_kind_decode-encode SourceKind.user = refl

pub flag_of-small :
    (C : Codec) (Z : Sizes) (S : ScriptIr) (key : Option C.SigningKey)
    → not (flag_of C Z S key / 2 == 0) ≡ false
flag_of-small C Z S none = refl
flag_of-small C Z S (some key) = refl

-- A header whose fields are known.
pub read_header-fields :
    (header : Bytes) (kind : SourceKind)
    (flags engine_major engine_minor engine_patch names blocks : ℕ)
    → slice 0 4 header ≡ pack_magic
    → read_u16 header 4 ≡ ok format_major
    → read_u16 header 6 ≡ ok format_minor
    → read_u32 header 8 ≡ ok header_size
    → byte_at header 12 ≡ source_kind_encode kind
    → byte_at header 13 ≡ flags
    → not (flags / 2 == 0) ≡ false
    → slice 14 2 header ≡ zeros 2
    → read_u16 header 16 ≡ ok engine_major
    → read_u16 header 18 ≡ ok engine_minor
    → read_u16 header 20 ≡ ok engine_patch
    → slice 22 2 header ≡ zeros 2
    → read_u32 header 24 ≡ ok names
    → read_u32 header 28 ≡ ok blocks
    → names ≤ max_command_names
    → blocks ≤ max_blocks
    → read_header header
      ≡ ok (record {
        format_major = format_major;
        format_minor = format_minor;
        source_kind = kind;
        flags = flags;
        minimum_engine = (engine_major, engine_minor, engine_patch);
        command_count = names;
        block_count = blocks;
      })
unfolding read_header check_format slice
read_header-fields header kind flags engine_major engine_minor engine_patch names blocks magic major
      minor size code flag small blank e₀ e₁ e₂ reserved n b nle ble =
    rw
      (
        magic,
        major,
        minor,
        size,
        code,
        source_kind_decode-encode kind,
        flag,
        small,
        blank,
        e₀,
        e₁,
        e₂,
        reserved,
        n,
        b,
        le→ltb _ _ nle,
        le→ltb _ _ ble,
      )
      refl
