-- ===== src/Pack/Header.antt =====
-- The header of a pack in rules/format.rs: its ranges and fields, and the checks that `open_bounded` makes of them.
use bash_lume.Base.{
  ℕ, zero, suc, ◌+◌, ◌/◌, Bool, ◌||◌, ◌&&◌, not, [], ◌∷◌, Bytes, Result, ok, err, ◌==◌, ltb, length,
  any, take, usize_max, bytes_eq, if◌then◌else◌,
}
use bash_lume.Base.Outcome.{◌>>=◌, ◌>>◌, reject, require}
use bash_lume.Pack.Types.{
  PackError, SourceKind, source_kind_decode, pack_magic, format_major, format_minor,
  previous_format_major, header_size, max_command_names, max_blocks,
}
use bash_lume.Pack.Words.{slice, read_u16, read_u32, read_u64, copy_at}

-- `header[index]`
abbrev pub byte_at : Bytes → ℕ → ℕ
byte_at [] index = 0
byte_at (b ∷ bs) zero = b
byte_at (b ∷ bs) (suc index) = byte_at bs index

abbrev pub is_zero : ℕ → Bool
is_zero b = b == 0

-- `header[range] != [0, ..]`
abbrev pub has_nonzero : Bytes → Bool
has_nonzero = any (λ b. not (is_zero b))

abbrev pub zeros : ℕ → Bytes
zeros zero = []
zeros (suc n) = 0 ∷ zeros n

-- `SIGNATURE_RANGE` and the other ranges of the header
abbrev pub signature_bytes : Bytes → Bytes
signature_bytes = slice 160 64

abbrev pub key_id_bytes : Bytes → Bytes
key_id_bytes = slice 96 32

abbrev pub root_hash_bytes : Bytes → Bytes
root_hash_bytes = slice 128 32

abbrev pub pack_id_bytes : Bytes → Bytes
pack_id_bytes = slice 224 32

unfoldable pub signature_message : Bytes → Result PackError Bytes
unfolding copy_at
signature_message header =
    if length header == header_size
    then ok (copy_at 160 (zeros 64) header)
    else err PackError.truncated

-- The offsets and lengths that the header gives.
pub record Layout : Type 0 where
  pub index_offset : ℕ
  pub index_length : ℕ
  pub manifest_offset : ℕ
  pub manifest_length : ℕ
  pub chunks_offset : ℕ
  pub chunks_length : ℕ

unfoldable pub read_layout : Bytes → Result PackError Layout
read_layout header = do
  index_offset ← read_u64 header 32
  index_length ← read_u64 header 40
  manifest_offset ← read_u64 header 48
  manifest_length ← read_u64 header 56
  chunks_offset ← read_u64 header 64
  chunks_length ← read_u64 header 72
  ok (record {
    index_offset = index_offset;
    index_length = index_length;
    manifest_offset = manifest_offset;
    manifest_length = manifest_length;
    chunks_offset = chunks_offset;
    chunks_length = chunks_length;
  })

unfoldable pub check_layout : Layout → ℕ → Result PackError (Unit {0})
check_layout l mapping_length = do
  reject (ltb usize_max (l.index_offset + l.index_length))
      (PackError.invalid "index offset overflow")
  reject (ltb usize_max (l.manifest_offset + l.manifest_length))
      (PackError.invalid "manifest offset overflow")
  reject (ltb usize_max (l.chunks_offset + l.chunks_length))
      (PackError.invalid "chunks offset overflow")
  reject
      (ltb l.index_offset header_size
        || (ltb l.manifest_offset (l.index_offset + l.index_length)
            || (ltb l.chunks_offset (l.manifest_offset + l.manifest_length)
                || not (l.chunks_offset + l.chunks_length == mapping_length))))
      (PackError.invalid "overlapping or trailing pack sections")

-- The fixed part of the header: its fields up to the counts.
pub record Header : Type 0 where
  pub format_major : ℕ
  pub format_minor : ℕ
  pub source_kind : SourceKind
  pub flags : ℕ
  pub minimum_engine : ℕ × ℕ × ℕ
  pub command_count : ℕ
  pub block_count : ℕ

unfoldable pub check_format : ℕ → ℕ → Result PackError (Unit {0})
check_format major minor =
    reject
      ((not (major == format_major) && not (major == previous_format_major))
        || (major == format_major && ltb format_minor minor))
      (PackError.unsupported_format major minor)

-- `flags & !FLAG_SIGNED != 0` says that a bit above the lowest is set.
unfoldable pub read_header : Bytes → Result PackError Header
unfolding source_kind_decode check_format
read_header header = do
  require (bytes_eq (take 4 header) pack_magic) (PackError.invalid "invalid pack magic")
  major ← read_u16 header 4
  minor ← read_u16 header 6
  check_format major minor
  size ← read_u32 header 8
  require (size == header_size) (PackError.invalid "invalid pack header size")
  source_kind ← source_kind_decode (byte_at header 12)
  let flags = byte_at header 13
  reject (not (flags / 2 == 0) || has_nonzero (slice 14 2 header))
      (PackError.invalid "unknown pack header flags")
  engine_major ← read_u16 header 16
  engine_minor ← read_u16 header 18
  engine_patch ← read_u16 header 20
  reject (has_nonzero (slice 22 2 header)) (PackError.invalid "nonzero reserved header bytes")
  command_count ← read_u32 header 24
  block_count ← read_u32 header 28
  reject (ltb max_command_names command_count || ltb max_blocks block_count)
      (PackError.limit "pack index entries")
  ok (record {
    format_major = major;
    format_minor = minor;
    source_kind = source_kind;
    flags = flags;
    minimum_engine = (engine_major, engine_minor, engine_patch);
    command_count = command_count;
    block_count = block_count;
  })
