-- ===== src/Pack/Mapping.antt =====
-- Reading a pack in rules/format.rs: `immutable_pack_mapping` and the bound on the strings of its manifest. A file is
-- its metadata and what reading it yields; the calls of the system that seal a copy of it are left out.
use bash_lume.Base.{
  ℕ, ◌*◌, Bool, true, false, ◌||◌, not, [], ◌∷◌, Bytes, Result, ok, ◌==◌, ltb, length, take, min,
  saturating_add, saturating_mul, if◌then◌else◌,
}
use bash_lume.Base.Outcome.{◌>>◌, reject, require}
use bash_lume.Pack.Types.{PackError, header_size, max_pack_bytes}
use bash_lume.Pack.Codec.{PackSizes}

pub record File : Type 0 where
  pub is_file : Bool
  pub metadata_length : ℕ
  pub contents : Bytes

-- The copy of a file, at most one byte more than its limit.
unfoldable pub immutable_pack_mapping : File → ℕ → Result PackError Bytes
immutable_pack_mapping file byte_limit = do
  let bound = min max_pack_bytes byte_limit
  reject
      (not file.is_file || (ltb file.metadata_length header_size || ltb bound file.metadata_length))
      (PackError.limit "pack file size")
  let copied = take (saturating_add bound 1) file.contents
  require (length copied == file.metadata_length) (PackError.integrity "pack changed while opening")
  ok copied

-- The variables of the loop.
pub record JsonScan : Type 0 where
  pub in_string : Bool
  pub escaped : Bool
  pub string_bytes : ℕ
  pub strings : ℕ

unfoldable pub json_byte : ℕ → JsonScan → JsonScan
json_byte b s =
    if not s.in_string
    then (if b == b'"'
        then record s { in_string = true; strings = saturating_add s.strings 1 }
        else s)
    else if s.escaped
    then record s { escaped = false; string_bytes = saturating_add s.string_bytes 1 }
    else if b == b'\\'
    then record s { escaped = true; string_bytes = saturating_add s.string_bytes 1 }
    else if b == b'"'
    then record s { in_string = false }
    else record s { string_bytes = saturating_add s.string_bytes 1 }

unfoldable pub json_bytes : Bytes → JsonScan → JsonScan
unfolding json_byte
json_bytes [] s = s
json_bytes (b ∷ bs) s = json_bytes bs (json_byte b s)

unfoldable pub json_string_allocation_upper_bound : PackSizes → Bytes → ℕ
unfolding json_bytes
json_string_allocation_upper_bound Z bytes =
    let s =
      json_bytes bytes
        (record { in_string = false; escaped = false; string_bytes = 0; strings = 0 }) in
    saturating_add s.string_bytes (saturating_mul s.strings (2 * Z.of_string))
