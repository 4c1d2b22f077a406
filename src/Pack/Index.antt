-- ===== src/Pack/Index.antt =====
-- The index of a pack in rules/format.rs: `encode_index`, `IndexDecoder` and `parse_index`. The map from names to
-- blocks, a `BTreeMap`, is the list of its entries in order.
use Prim.Native.Nat.{Ordering}
use bash_lume.Base.{
  ℕ, zero, suc, ◌+◌, Bool, true, false, ◌||◌, not, Option, none, some, List, [], ◌∷◌, ◌++◌, Bytes,
  Result, ok, err, ◌==◌, ltb, leb, length, any, take, drop, usize_max, le32, if◌then◌else◌,
}
use bash_lume.Base.Outcome as Outcome
use bash_lume.Base.Outcome.{reject}
use bash_lume.Base.Order.{compare_bytes}
use bash_lume.Base.Utf8.{valid_utf8}
use bash_lume.Ir.Limits.{max_command_block_bytes}
use bash_lume.Ir.Validate.{is_empty, contains}
use bash_lume.Pack.Types.{
  PackError, NameEntry, BlockEntry, max_command_names, max_blocks, max_command_name_bytes,
  max_compressed_block_bytes,
}
use bash_lume.Pack.Words.{le64, to_u32, to_u64}

unfoldable pub encode_name : NameEntry → Result PackError Bytes
encode_name entry =
    if is_empty entry.name
      || ltb max_command_name_bytes (length entry.name)
      || contains 0 entry.name
    then err (PackError.invalid "invalid indexed command name")
    else ok (le32 (length entry.name) ++ entry.name ++ le32 entry.block_id)

unfoldable pub encode_names : List NameEntry → Result PackError Bytes
unfolding encode_name
encode_names [] = ok []
encode_names (entry ∷ names) =
    Outcome.◌>>=◌ (encode_name entry)
      λ first. Outcome.◌>>=◌ (encode_names names) λ rest. ok (first ++ rest)

unfoldable pub encode_block : BlockEntry → Bytes
encode_block block =
    le64 block.offset
    ++ le32 block.compressed_length
    ++ le32 block.uncompressed_length
    ++ block.hash

unfoldable pub encode_blocks : List BlockEntry → Bytes
unfolding encode_block
encode_blocks [] = []
encode_blocks (block ∷ blocks) = encode_block block ++ encode_blocks blocks

unfoldable pub encode_index : List NameEntry → List BlockEntry → Result PackError Bytes
unfolding encode_names encode_blocks
encode_index names blocks =
    Outcome.◌>>=◌ (encode_names names)
      λ body. ok (le32 (length names) ++ body ++ le32 (length blocks) ++ encode_blocks blocks)

pub record IndexDecoder : Type 0 where
  pub bytes : Bytes
  pub position : ℕ

unfoldable pub new_index_decoder : Bytes → IndexDecoder
new_index_decoder bytes = record { bytes = bytes; position = 0 }

abbrev pub Parse : Type 0 → Type 0
Parse A = IndexDecoder → Result PackError (A × IndexDecoder)

infixl 5 ◌>>=◌ ◌>>◌
unfoldable pub ◌>>=◌ : {A B : Type 0} → Parse A → (A → Parse B) → Parse B
◌>>=◌ m f d = Outcome.◌>>=◌ (m d) λ r. f r.0 r.1

abbrev pub ◌>>◌ : {B : Type 0} → Parse (Unit {0}) → Parse B → Parse B
m >> k = m >>= λ _. k

unfoldable pub pure : {A : Type 0} → A → Parse A
pure a d = ok (a, d)

-- `r?` for a result that does not involve the decoder
unfoldable pub lift : {A : Type 0} → Result PackError A → Parse A
lift r d = Outcome.◌>>=◌ r λ a. ok (a, d)

unfoldable pub remaining : IndexDecoder → Bytes
remaining d = drop d.position d.bytes

unfoldable pub take_bytes : ℕ → Parse Bytes
unfolding remaining
take_bytes n d =
    let end = d.position + n in
    if ltb usize_max end
    then err (PackError.invalid "index offset overflow")
    else if ltb (length d.bytes) end
    then err PackError.truncated
    else ok (take n (remaining d), record d { position = end })

unfoldable pub u32 : Parse ℕ
u32 = do taken ← take_bytes 4; lift (to_u32 taken)

unfoldable pub u64 : Parse ℕ
u64 = do taken ← take_bytes 8; lift (to_u64 taken)

unfoldable pub count : ℕ → Parse ℕ
count maximum = do
  value ← u32
  lift (if ltb maximum value then err (PackError.limit "index count") else ok value)

unfoldable pub string : ℕ → Parse Bytes
string maximum = do
  n ← count maximum
  value ← take_bytes n
  lift (reject (not (valid_utf8 value)) (PackError.invalid "invalid index UTF-8"))
  pure value

-- `a < b` on texts
abbrev pub text_lt : Bytes → Bytes → Bool
text_lt a b = elim (compare_bytes a b) [ Ordering.lt ↦ true | _ ↦ false ]

-- The previous name is not before this one.
abbrev pub out_of_order : Option Bytes → Bytes → Bool
out_of_order none name = false
out_of_order (some previous) name = not (text_lt previous name)

unfoldable pub parse_names : ℕ → Option Bytes → Parse (List NameEntry)
parse_names zero previous = pure []
parse_names (suc n) previous = do
  name ← string max_command_name_bytes
  lift (
      reject (is_empty name || out_of_order previous name)
        (PackError.invalid "command index is not strictly sorted"))
  block_id ← u32
  names ← parse_names n (some name)
  pure (record { name = name; block_id = block_id } ∷ names)

unfoldable pub parse_block : ℕ → Parse BlockEntry
parse_block chunks_length = do
  offset ← u64
  compressed_length ← u32
  uncompressed_length ← u32
  hash ← take_bytes 32
  lift (
      reject
        (ltb max_compressed_block_bytes compressed_length
          || ltb max_command_block_bytes uncompressed_length)
        (PackError.limit "command block size"))
  lift (
      reject (ltb usize_max (offset + compressed_length))
        (PackError.invalid "command block offset overflow"))
  lift (reject (ltb chunks_length (offset + compressed_length)) PackError.truncated)
  pure (record {
    offset = offset;
    compressed_length = compressed_length;
    uncompressed_length = uncompressed_length;
    hash = hash;
  })

unfoldable pub parse_blocks : ℕ → ℕ → Parse (List BlockEntry)
parse_blocks chunks_length zero = pure []
parse_blocks chunks_length (suc n) = do
  block ← parse_block chunks_length
  blocks ← parse_blocks chunks_length n
  pure (block ∷ blocks)

-- A name refers to a block that the index does not have.
abbrev pub is_dangling : List BlockEntry → NameEntry → Bool
is_dangling blocks entry = leb (length blocks) entry.block_id

unfoldable pub index_entries : ℕ → ℕ → ℕ → Parse (List NameEntry × List BlockEntry)
index_entries expected_names expected_blocks chunks_length = do
  name_count ← count max_command_names
  lift (reject (not (name_count == expected_names)) (PackError.invalid "command count mismatch"))
  names ← parse_names name_count none
  block_count ← count max_blocks
  lift (reject (not (block_count == expected_blocks)) (PackError.invalid "block count mismatch"))
  blocks ← parse_blocks chunks_length block_count
  lift (
      reject (any (is_dangling blocks) names)
        (PackError.invalid "command references missing block"))
  pure (names, blocks)

-- Nothing may be left behind the entries.
abbrev pub at_end : {A : Type 0} → A × IndexDecoder → Result PackError A
at_end (entries, d) =
    if is_empty (remaining d)
    then ok entries
    else err (PackError.invalid "trailing pack index bytes")

unfoldable pub parse_index : Bytes → ℕ → ℕ → ℕ → Result PackError (List NameEntry × List BlockEntry)
parse_index index expected_names expected_blocks chunks_length =
    Outcome.◌>>=◌
      (index_entries expected_names expected_blocks chunks_length (new_index_decoder index)) at_end
