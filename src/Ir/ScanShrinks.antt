-- ===== src/Ir/ScanShrinks.antt =====
-- The lexical parts of the preflight in rules/ir.rs: how much of the text they leave.
use bash_lume.Base.{
  ℕ, zero, suc, ◌+◌, ◌*◌, ◌≤◌, ◌<◌, ◌≡◌, refl, ap, Bool, true, false, ◌&&◌, Option, none, some, [],
  ◌∷◌, Bytes, arith, length, ltb, ◌==◌, if◌then◌else◌,
}
use bash_lume.Base.Utf8.{in_range}
use bash_lume.Ir.JsonScan.{
  skip_spaces, skip_digits, some_digits, number_sign, number_whole, number_fraction, exponent_sign,
  number_exponent,
}
use bash_lume.Ir.JsonStrings.{
  hex_digit, hex_digits, hex_quad, low_surrogate, unicode_escape, is_simple_escape, escape,
  string_end,
}

pub skip_spaces-le : (bs : Bytes) → length (skip_spaces bs) ≤ length bs
skip_spaces-le [] = omega arith
skip_spaces-le (b ∷ bs) = ground (arith, skip_spaces-le bs)

skip_digits-le : (bs : Bytes) → length (skip_digits bs) ≤ length bs
skip_digits-le [] = omega arith
skip_digits-le (b ∷ bs) = ground (arith, skip_digits-le bs)

some_digits-lt : (bs rest : Bytes) → some_digits bs ≡ some rest → length rest < length bs
unfolding some_digits
some_digits-lt [] rest h = cc
some_digits-lt (b ∷ bs) rest h = ground (arith, skip_digits-le bs)

pub number_sign-le : (bs : Bytes) → length (number_sign bs) ≤ length bs
unfolding number_sign
number_sign-le [] = omega arith
number_sign-le (b ∷ bs) = ground arith

pub number_whole-lt : (bs rest : Bytes) → number_whole bs ≡ some rest → length rest < length bs
unfolding number_whole
number_whole-lt [] rest h = cc
number_whole-lt (b ∷ bs) rest h = ground (arith, skip_digits-le bs)

pub number_fraction-le :
    (bs rest : Bytes) → number_fraction bs ≡ some rest → length rest ≤ length bs
unfolding number_fraction
number_fraction-le [] rest h = ground arith
number_fraction-le (b ∷ bs) rest h = ground (arith, some_digits-lt bs rest)

exponent_sign-le : (bs : Bytes) → length (exponent_sign bs) ≤ length bs
unfolding exponent_sign
exponent_sign-le [] = omega arith
exponent_sign-le (b ∷ bs) = ground arith

pub number_exponent-le :
    (bs rest : Bytes) → number_exponent bs ≡ some rest → length rest ≤ length bs
unfolding number_exponent
number_exponent-le [] rest h = ground arith
number_exponent-le (b ∷ bs) rest h =
    ground (arith, some_digits-lt (exponent_sign bs) rest, exponent_sign-le bs)

hex_digits-le :
    (n value code : ℕ) (bs rest : Bytes)
    → hex_digits n value bs ≡ some (code, rest)
    → length rest ≤ length bs
unfolding hex_digits
hex_digits-le zero value code bs rest h = ground arith
hex_digits-le (suc n) value code [] rest h = cc
hex_digits-le (suc n) value code (b ∷ bs) rest h =
    next (hex_digit b) (λ digit e. hex_digits-le n (value * 16 + digit) code bs rest e) h
  where
    next :
        (o : Option ℕ)
        → ((digit : ℕ)
            → hex_digits n (value * 16 + digit) bs ≡ some (code, rest)
            → length rest ≤ length bs)
        → elim o [ none ↦ none | some digit ↦ hex_digits n (value * 16 + digit) bs ]
          ≡ some (code, rest)
        → length rest ≤ length (b ∷ bs)
    next none ih e = cc
    next (some digit) ih e = omega (arith, ih digit e)

low_surrogate-le : (bs rest : Bytes) → low_surrogate bs ≡ some rest → length rest ≤ length bs
unfolding low_surrogate
low_surrogate-le [] rest h = cc
low_surrogate-le (a ∷ []) rest h = cc
low_surrogate-le (a ∷ b ∷ bs) rest h =
    quad (hex_quad bs) (λ code left e. hex_digits-le 4 0 code bs left e) (a == b'\\' && b == b'u') h
  where
    quad :
        (o : Option (ℕ × Bytes))
        → ((code : ℕ) (left : Bytes) → o ≡ some (code, left) → length left ≤ length bs)
        → (same : Bool)
        → ◌≡◌ {A = Option Bytes}
            (if same
              then elim o [
                | none ↦ none
                | some (code, left) ↦ if in_range 0xdc00 0xdfff code then some left else none
              ]
              else none)
            (some rest)
        → length rest ≤ length (a ∷ b ∷ bs)
    quad o le false e = cc
    quad none le true e = cc
    quad (some (code, left)) le true e = ground (arith, le code left refl)

unicode_escape-le : (bs rest : Bytes) → unicode_escape bs ≡ some rest → length rest ≤ length bs
unfolding unicode_escape
unicode_escape-le bs rest h = quad (hex_quad bs) (λ code left e. hex_digits-le 4 0 code bs left e) h
  where
    quad :
        (o : Option (ℕ × Bytes))
        → ((code : ℕ) (left : Bytes) → o ≡ some (code, left) → length left ≤ length bs)
        → ◌≡◌ {A = Option Bytes}
            (elim o [
              | none ↦ none
              | some (code, left) ↦
                  if in_range 0xd800 0xdbff code
                  then low_surrogate left
                  else if in_range 0xdc00 0xdfff code
                  then none
                  else some left
            ])
            (some rest)
        → length rest ≤ length bs
    quad none le e = cc
    quad (some (code, left)) le e = ground (arith, le code left refl, low_surrogate-le left rest)

escape-le : (bs rest : Bytes) → escape bs ≡ some rest → length rest ≤ length bs
unfolding escape
escape-le [] rest h = cc
escape-le (b ∷ bs) rest h = escaped (is_simple_escape b) (b == b'u') h
  where
    escaped :
        (simple unicode : Bool)
        → ◌≡◌ {A = Option Bytes}
            (if simple then some bs else if unicode then unicode_escape bs else none)
            (some rest)
        → length rest ≤ length (b ∷ bs)
    escaped true unicode e = ground arith
    escaped false true e = omega (arith, unicode_escape-le bs rest e)
    escaped false false e = cc

pub string_end-le :
    (fuel : ℕ) (escaped was_escaped : Bool) (bs closing : Bytes)
    → string_end fuel escaped bs ≡ some (was_escaped, closing)
    → length closing ≤ length bs
unfolding string_end
string_end-le zero escaped was_escaped bs closing h = cc
string_end-le (suc fuel) escaped was_escaped [] closing h = cc
string_end-le (suc fuel) escaped was_escaped (b ∷ bs) closing h =
    turn (escape bs) (escape-le bs) (λ left e. string_end-le fuel true was_escaped left closing e)
      (string_end-le fuel escaped was_escaped bs closing) h
  where
    turn :
        (o : Option Bytes)
        → ((left : Bytes) → o ≡ some left → length left ≤ length bs)
        → ((left : Bytes)
            → string_end fuel true left ≡ some (was_escaped, closing)
            → length closing ≤ length left)
        → (string_end fuel escaped bs ≡ some (was_escaped, closing) → length closing ≤ length bs)
        → ◌≡◌ {A = Option (Bool × Bytes)}
            (if b == b'"'
              then some (escaped, b ∷ bs)
              else if b == b'\\'
              then elim o [ none ↦ none | some left ↦ string_end fuel true left ]
              else if ltb b 0x20
              then none
              else string_end fuel escaped bs)
            (some (was_escaped, closing))
        → length closing ≤ length (b ∷ bs)
    turn none le escaped_turn plain_turn e = ground (arith, plain_turn)
    turn (some left) le escaped_turn plain_turn e =
        ground (arith, plain_turn, le left refl, escaped_turn left)

-- More turns than the text has bytes change nothing.
pub string_end_enough :
    (fuel more : ℕ) (escaped : Bool) (bs : Bytes)
    → length bs < fuel
    → length bs < more
    → string_end fuel escaped bs ≡ string_end more escaped bs
unfolding string_end
string_end_enough zero more escaped bs h k = ground (arith, h)
string_end_enough (suc fuel) zero escaped bs h k = ground (arith, k)
string_end_enough (suc fuel) (suc more) escaped [] h k = refl
string_end_enough (suc fuel) (suc more) escaped (b ∷ bs) h k =
    let plain = string_end_enough fuel more escaped bs (omega arith) (omega arith) in
    rw plain (
      ap
        (λ t.
          if b == b'"'
          then some (escaped, b ∷ bs)
          else if b == b'\\'
          then t
          else if ltb b 0x20
          then none
          else string_end more escaped bs)
        (turn (escape bs) (escape-le bs)
          λ left le. string_end_enough fuel more true left (omega arith) (omega arith)))
  where
    turn :
        (o : Option Bytes)
        → ((left : Bytes) → o ≡ some left → length left ≤ length bs)
        → ((left : Bytes)
            → length left ≤ length bs
            → string_end fuel true left ≡ string_end more true left)
        → ◌≡◌ {A = Option (Bool × Bytes)}
            (elim o [ none ↦ none | some left ↦ string_end fuel true left ])
            (elim o [ none ↦ none | some left ↦ string_end more true left ])
    turn none le same = refl
    turn (some left) le same = same left (le left refl)
