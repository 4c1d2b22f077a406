-- ===== src/Ir/JsonStrings.antt =====
-- The strings of `ScriptJsonPreflight` in rules/ir.rs: escapes, the loop over a string and its charges.
use bash_lume.Base.{
  ℕ, zero, suc, ◌+◌, ◌-◌, ◌*◌, Bool, true, false, ◌&&◌, ◌||◌, Option, none, some, [], ◌∷◌, Bytes,
  length, take, drop, ltb, ◌==◌, saturating_add, saturating_mul, if◌then◌else◌,
}
use bash_lume.Base.Utf8.{in_range}
use bash_lume.Ir.Limits.{Sizes}
use bash_lume.Ir.JsonScan.{Scan, ◌>>=◌, ◌>>◌, pure, refuse, charge, record_scratch, is_digit}

unfoldable pub hex_digit : ℕ → Option ℕ
hex_digit b =
    if is_digit b
    then some (b - b'0')
    else if in_range b'a' b'f' b
    then some (b - b'a' + 10)
    else if in_range b'A' b'F' b
    then some (b - b'A' + 10)
    else none

-- The value of the digits so far, and what follows them.
unfoldable pub hex_digits : ℕ → ℕ → Bytes → Option (ℕ × Bytes)
unfolding hex_digit
hex_digits zero value bs = some (value, bs)
hex_digits (suc n) value [] = none
hex_digits (suc n) value (b ∷ bs) = elim (hex_digit b) [
  | none ↦ none
  | some digit ↦ hex_digits n (value * 16 + digit) bs
]

abbrev pub hex_quad : Bytes → Option (ℕ × Bytes)
hex_quad bs = hex_digits 4 0 bs

-- The second half of a surrogate pair.
unfoldable pub low_surrogate : Bytes → Option Bytes
unfolding hex_digits
low_surrogate (a ∷ b ∷ bs) =
    if a == b'\\' && b == b'u'
    then elim (hex_quad bs) [
      | none ↦ none
      | some (code, rest) ↦ if in_range 0xdc00 0xdfff code then some rest else none
    ]
    else none
low_surrogate _ = none

-- What follows `\u`.
unfoldable pub unicode_escape : Bytes → Option Bytes
unfolding hex_digits low_surrogate
unicode_escape bs = elim (hex_quad bs) [
  | none ↦ none
  | some (code, rest) ↦
      if in_range 0xd800 0xdbff code
      then low_surrogate rest
      else if in_range 0xdc00 0xdfff code
      then none
      else some rest
]

abbrev pub is_simple_escape : ℕ → Bool
is_simple_escape b =
    b == b'"'
    || b == b'\\'
    || b == b'/'
    || b == b'b'
    || b == b'f'
    || b == b'n'
    || b == b'r'
    || b == b't'

-- What follows a backslash.
unfoldable pub escape : Bytes → Option Bytes
unfolding unicode_escape
escape [] = none
escape (b ∷ bs) =
    if is_simple_escape b then some bs else if b == b'u' then unicode_escape bs else none

-- The loop of `string` after the opening quote: whether there was an escape, and the text from the closing quote
-- on.
unfoldable pub string_end : ℕ → Bool → Bytes → Option (Bool × Bytes)
unfolding escape
string_end zero escaped bs = none
string_end (suc fuel) escaped [] = none
string_end (suc fuel) escaped (b ∷ bs) =
    let plain = string_end fuel escaped bs in
    let after_escape : Option (Bool × Bytes) = elim (escape bs) [
      | none ↦ none
      | some rest ↦ string_end fuel true rest
    ] in
    if b == b'"'
    then some (escaped, b ∷ bs)
    else if b == b'\\'
    then after_escape
    else if ltb b 0x20
    then none
    else plain

-- The charges of a string of a length, and the raw text of it. An escaped one is decoded through scratch.
unfoldable pub charge_string : Sizes → ℕ → Bool → ℕ → Bool → ℕ → Scan (Unit {0})
unfolding ◌>>=◌ record_scratch charge pure
charge_string Z depth charged additional_slot_bytes escaped raw_length = do
  (if escaped
      then record_scratch depth (saturating_add (saturating_mul raw_length 2) 1)
      else pure tt)
  (if charged
      then charge
          (saturating_add (saturating_add raw_length (2 * Z.of_string)) additional_slot_bytes)
      else pure tt)

-- Behind the opening quote.
unfoldable pub string_body : Sizes → ℕ → Bool → ℕ → Bytes → Option (Bool × Bytes) → Scan Bytes
unfolding ◌>>=◌ charge_string refuse pure
string_body Z depth charged additional_slot_bytes text none s = refuse s
string_body Z depth charged additional_slot_bytes text (some (escaped, closing)) s =
    let raw_length = length text - length closing in
    (charge_string Z depth charged additional_slot_bytes escaped raw_length >>= λ _.
    pure (take raw_length text))
      (record s { rest = drop 1 closing })

-- At the opening quote. A turn of the loop passes a byte at least.
unfoldable pub string_at : Sizes → ℕ → Bool → ℕ → Bytes → Scan Bytes
unfolding string_body string_end refuse
string_at Z depth charged additional_slot_bytes [] = refuse
string_at Z depth charged additional_slot_bytes (b ∷ text) =
    if b == b'"'
    then string_body Z depth charged additional_slot_bytes text
        (string_end (suc (length text)) false text)
    else refuse

-- `string`, with the raw text in place of its start and length.
unfoldable pub json_string : Sizes → ℕ → Bool → ℕ → Scan Bytes
unfolding string_at
json_string Z depth charged additional_slot_bytes s =
    string_at Z depth charged additional_slot_bytes s.rest s
