-- ===== src/Pack/Words.antt =====
-- The byte-level reads and writes of rules/format.rs: `read_u16` to `write_u64`, `section`, `align_eight`.
use bash_lume.Base.{
  ℕ, ◌+◌, ◌*◌, ◌/◌, [], ◌∷◌, ◌++◌, Bytes, Result, ok, err, ltb, length, take, drop, usize_max,
  saturating_add, le16, le32, word16, word32, if◌then◌else◌,
}
use bash_lume.Base.Outcome.{◌>>=◌}
use bash_lume.Pack.Types.{PackError}

-- `value.to_le_bytes()` and `u64::from_le_bytes`
unfoldable pub le64 : ℕ → Bytes
unfolding le32
le64 n = le32 n ++ le32 (n / 4294967296)

abbrev pub word64 : ℕ → ℕ → ℕ
word64 low high = low + 4294967296 * high

-- `bytes.get(start..start + length)`
unfoldable pub slice : ℕ → ℕ → Bytes → Bytes
slice start n bytes = take n (drop start bytes)

abbrev pub get_range : Bytes → ℕ → ℕ → Result PackError Bytes
get_range bytes start n =
    if ltb (length bytes) (start + n) then err PackError.truncated else ok (slice start n bytes)

abbrev pub to_u16 : Bytes → Result PackError ℕ
to_u16 (a ∷ b ∷ []) = ok (word16 a b)
to_u16 _ = err PackError.truncated

abbrev pub to_u32 : Bytes → Result PackError ℕ
to_u32 (a ∷ b ∷ c ∷ d ∷ []) = ok (word32 a b c d)
to_u32 _ = err PackError.truncated

abbrev pub to_u64 : Bytes → Result PackError ℕ
to_u64 (a ∷ b ∷ c ∷ d ∷ e ∷ f ∷ g ∷ h ∷ []) = ok (word64 (word32 a b c d) (word32 e f g h))
to_u64 _ = err PackError.truncated

unfoldable pub read_u16 : Bytes → ℕ → Result PackError ℕ
read_u16 bytes offset = get_range bytes offset 2 >>= to_u16

unfoldable pub read_u32 : Bytes → ℕ → Result PackError ℕ
read_u32 bytes offset = get_range bytes offset 4 >>= to_u32

unfoldable pub read_u64 : Bytes → ℕ → Result PackError ℕ
read_u64 bytes offset = get_range bytes offset 8 >>= to_u64

-- `copy_from_slice` on the bytes from an offset on.
unfoldable pub copy_at : ℕ → Bytes → Bytes → Bytes
copy_at offset value bytes = take offset bytes ++ value ++ drop (offset + length value) bytes

abbrev pub write_at : ℕ → Bytes → Bytes → Result PackError Bytes
write_at offset value bytes =
    if ltb (length bytes) (offset + length value)
    then err PackError.truncated
    else ok (copy_at offset value bytes)

unfoldable pub write_u16 : ℕ → ℕ → Bytes → Result PackError Bytes
write_u16 offset value = write_at offset (le16 value)

unfoldable pub write_u32 : ℕ → ℕ → Bytes → Result PackError Bytes
write_u32 offset value = write_at offset (le32 value)

unfoldable pub write_u64 : ℕ → ℕ → Bytes → Result PackError Bytes
write_u64 offset value = write_at offset (le64 value)

-- A `u64` fits the 64-bit `usize`.
unfoldable pub section : Bytes → ℕ → ℕ → Result PackError Bytes
section bytes offset n =
    if ltb usize_max (offset + n)
    then err (PackError.invalid "section offset overflow")
    else get_range bytes offset n

-- `value.saturating_add(7) & !7`
unfoldable pub align_eight : ℕ → ℕ
align_eight value = saturating_add value 7 / 8 * 8
