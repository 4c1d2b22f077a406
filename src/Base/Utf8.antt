-- ===== src/Base/Utf8.antt =====
-- `std::str::from_utf8`, `str::chars` and the character classes that the code tests: the well-formed
-- byte sequences, read by an automaton, and their code points.
use Prim.Native.Nat.{ℕ, zero, suc, ◌+◌, ◌-◌, ◌*◌, ◌/◌, ◌%◌}
use mathlib.Core.Bool.{Bool, true, false, ◌&&◌, ◌||◌}
use mathlib.Core.Option.{Option, none, some}
use mathlib.Core.List.{List, [], ◌∷◌, ◌++◌}
use bash_lume.Base.Tests.{ltb, leb, ◌==◌, if◌then◌else◌}
use bash_lume.Base.Lists.{Bytes}

abbrev pub in_range : ℕ → ℕ → ℕ → Bool
in_range lo hi b = leb lo b && leb b hi

-- `need k lo hi v`: the next byte lies between `lo` and `hi`, `k` more continuation bytes follow it,
-- and `v` is the value read so far.
pub data Pending : Type 0 where
  lead : Pending
  need : ℕ → ℕ → ℕ → ℕ → Pending
  broken : Pending

-- The first byte of a sequence. The narrowed ranges exclude overlong forms, surrogates and values
-- above U+10FFFF.
after_lead : ℕ → Pending
after_lead b =
    if ltb b 0x80
    then lead
    else if in_range 0xc2 0xdf b
    then need 0 0x80 0xbf (b - 0xc0)
    else if b == 0xe0
    then need 1 0xa0 0xbf 0
    else if b == 0xed
    then need 1 0x80 0x9f 13
    else if in_range 0xe1 0xef b
    then need 1 0x80 0xbf (b - 0xe0)
    else if b == 0xf0
    then need 2 0x90 0xbf 0
    else if b == 0xf4
    then need 2 0x80 0x8f 4
    else if in_range 0xf1 0xf3 b
    then need 2 0x80 0xbf (b - 0xf0)
    else broken

utf8_step : Pending → ℕ → Pending
utf8_step lead b = after_lead b
utf8_step (need zero lo hi v) b = if in_range lo hi b then lead else broken
utf8_step (need (suc k) lo hi v) b =
    if in_range lo hi b then need k 0x80 0xbf (v * 64 + (b - 0x80)) else broken
utf8_step broken b = broken

-- The code point that a byte completes.
completes : Pending → ℕ → Option ℕ
completes lead b = if ltb b 0x80 then some b else none
completes (need zero lo hi v) b = some (v * 64 + (b - 0x80))
completes (need (suc k) lo hi v) b = none
completes broken b = none

emit : Option ℕ → Option (List ℕ) → Option (List ℕ)
emit none cs = cs
emit (some c) none = none
emit (some c) (some cs) = some (c ∷ cs)

decode_from : Pending → Bytes → Option (List ℕ)
decode_from lead [] = some []
decode_from (need k lo hi v) [] = none
decode_from broken [] = none
decode_from st (b ∷ bs) = emit (completes st b) (decode_from (utf8_step st b) bs)

-- `str::chars` as far as the bytes are well formed; `none` where `from_utf8` fails.
unfoldable pub utf8_chars : Bytes → Option (List ℕ)
unfolding after_lead utf8_step completes emit decode_from
utf8_chars = decode_from lead

unfoldable pub valid_utf8 : Bytes → Bool
unfolding utf8_chars
valid_utf8 s = elim (utf8_chars s) [ none ↦ false | some cs ↦ true ]

-- The characters of a text, none if the bytes are no text.
unfoldable pub chars : Bytes → List ℕ
unfolding utf8_chars
chars s = elim (utf8_chars s) [ none ↦ [] | some cs ↦ cs ]

-- `char::is_control`: the general category Cc
unfoldable pub is_control : ℕ → Bool
is_control c = ltb c 0x20 || in_range 0x7f 0x9f c

-- `char::is_whitespace`: the property White_Space
unfoldable pub is_whitespace : ℕ → Bool
is_whitespace c =
    in_range 9 13 c
    || c == 0x20
    || c == 0x85
    || c == 0xa0
    || c == 0x1680
    || in_range 0x2000 0x200a c
    || c == 0x2028
    || c == 0x2029
    || c == 0x202f
    || c == 0x205f
    || c == 0x3000

-- The bytes of a character, as in `String::push`.
abbrev encode_char : ℕ → Bytes
encode_char c =
    if ltb c 0x80
    then c ∷ []
    else if ltb c 0x800
    then (0xc0 + c / 64) ∷ (0x80 + c % 64) ∷ []
    else if ltb c 0x10000
    then (0xe0 + c / 4096) ∷ (0x80 + c / 64 % 64) ∷ (0x80 + c % 64) ∷ []
    else (0xf0 + c / 262144) ∷ (0x80 + c / 4096 % 64) ∷ (0x80 + c / 64 % 64) ∷ (0x80 + c % 64) ∷ []

-- The bytes of a text of characters.
unfoldable pub utf8_bytes : List ℕ → Bytes
utf8_bytes [] = []
utf8_bytes (c ∷ cs) = encode_char c ++ utf8_bytes cs
