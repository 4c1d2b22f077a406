-- ===== src/Pack/Load.antt =====
-- `PackFile::load_command` and `load_block_bounded` of rules/format.rs, with the binary search of the standard
-- library. The byte estimate of a loaded program is left out.
use Prim.Native.Nat.{Ordering}
use bash_lume.Base.{
  ℕ, zero, suc, ◌+◌, ◌-◌, ◌/◌, Bool, true, false, ◌||◌, not, Option, none, some, List, [], ◌∷◌,
  Bytes, Result, ok, err, ◌==◌, ltb, length, any, usize_max, min, bytes_eq, if◌then◌else◌,
}
use bash_lume.Base.Outcome.{◌>>=◌, ◌>>◌, reject, require}
use bash_lume.Base.Order.{compare_bytes}
use bash_lume.Ir.Types.{IrError, ProbeSpec, CommandProgram}
use bash_lume.Ir.Limits.{
  max_command_block_bytes, max_command_decode_allocation_bytes, Sizes, ScriptIr,
}
use bash_lume.Ir.DecodeProgram.{decode_with_allocation_limit}
use bash_lume.Pack.Types.{PackError, NameEntry, BlockEntry}
use bash_lume.Pack.Words.{section}
use bash_lume.Pack.Codec.{Codec}
use bash_lume.Pack.Open.{PackFile}

abbrev pub get_elem? {ℓ} : {A : Type ℓ} → List A → ℕ → Option A
get_elem? [] i = none
get_elem? (x ∷ xs) zero = some x
get_elem? (x ∷ xs) (suc i) = get_elem? xs i

abbrev pub is_gt : Ordering → Bool
is_gt Ordering.gt = true
is_gt _ = false

-- `binary_search_by`: the last place in a range that is not greater. The turns halve the range.
unfoldable pub search_base : (ℕ → Ordering) → ℕ → ℕ → ℕ → ℕ
search_base order zero base size = base
search_base order (suc fuel) base size =
    let half = size / 2 in
    let next =
      search_base order fuel (if is_gt (order (base + half)) then base else base + half)
        (size - half) in
    if ltb 1 size then next else base

-- How an entry's name compares with a command; there is none beyond the entries.
unfoldable pub order_at : List NameEntry → Bytes → ℕ → Ordering
order_at names command i = elim (get_elem? names i) [
  | none ↦ Ordering.gt
  | some entry ↦ compare_bytes entry.name command
]

abbrev pub block_at : List NameEntry → Bytes → ℕ → Option ℕ
block_at [] command i = none
block_at (entry ∷ names) command zero =
    if bytes_eq entry.name command then some entry.block_id else none
block_at (entry ∷ names) command (suc i) = block_at names command i

unfoldable pub find_block : List NameEntry → Bytes → Option ℕ
unfolding search_base order_at
find_block names command =
    block_at names command (search_base (order_at names command) (length names) 0 (length names))

-- A capability that the manifest does not declare.
abbrev pub undeclared : List Bytes → Bytes → Bool
undeclared capabilities capability =
    not (any (λ declared. bytes_eq declared capability) capabilities)

abbrev pub found_block : Option BlockEntry → Result PackError BlockEntry
found_block none = err (PackError.invalid "command references missing block")
found_block (some block) = ok block

abbrev pub decompressed : Option Bytes → Result PackError Bytes
decompressed none = err PackError.decompression
decompressed (some bytes) = ok bytes

abbrev pub decoded : {A : Type 0} → Result IrError A → Result PackError A
decoded (err e) = err (PackError.ir e)
decoded (ok a) = ok a

module _ (C : Codec) (Z : Sizes) (S : ScriptIr)
    (capabilities_of : S.ScriptModule → List Bytes) where
  open C use {sha256, decompress}
  open S use {ScriptModule}

  -- A probe or a script asks for what the manifest does not declare.
  abbrev pub asks_undeclared : List Bytes → CommandProgram ScriptModule → Bool
  asks_undeclared capabilities p =
      any (λ (probe : ProbeSpec). undeclared capabilities probe.executable) p.probes
      || any (λ m. any (undeclared capabilities) (capabilities_of m)) p.scripts

  unfoldable pub load_block_bounded :
      PackFile → ℕ → ℕ → Result PackError (CommandProgram ScriptModule)
  load_block_bounded pack block_id decoded_byte_limit = do
    block ← found_block (get_elem? pack.blocks block_id)
    reject (ltb usize_max (pack.chunks_offset + block.offset))
        (PackError.invalid "chunk offset overflow")
    compressed ← section pack.mapping (pack.chunks_offset + block.offset) block.compressed_length
    require (bytes_eq (sha256 compressed) block.hash) (PackError.integrity "command block hash")
    let bound = min decoded_byte_limit max_command_block_bytes
    reject (ltb bound block.uncompressed_length) (PackError.limit "decompressed command block")
    bytes ← decompressed (decompress compressed block.uncompressed_length)
    reject (not (length bytes == block.uncompressed_length) || ltb bound (length bytes))
        (PackError.limit "decompressed command block")
    program ← decoded (decode_with_allocation_limit Z S bytes decoded_byte_limit)
    reject (asks_undeclared pack.manifest.probe_capabilities program)
        (PackError.invalid "command block requests an undeclared probe capability")
    ok program

  unfoldable pub load_block : PackFile → ℕ → Result PackError (CommandProgram ScriptModule)
  unfolding load_block_bounded
  load_block pack block_id = load_block_bounded pack block_id max_command_decode_allocation_bytes

  abbrev pub loaded :
      (ℕ → Result PackError (CommandProgram ScriptModule))
      → Option ℕ
      → Result PackError (Option (CommandProgram ScriptModule))
  loaded load none = ok none
  loaded load (some block_id) = load block_id >>= λ program. ok (some program)

  unfoldable pub load_command :
      PackFile → Bytes → Result PackError (Option (CommandProgram ScriptModule))
  unfolding load_block find_block
  load_command pack command = loaded (load_block pack) (find_block pack.names command)
