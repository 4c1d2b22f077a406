-- ===== src/Ir/Encoder.antt =====
-- `Encoder` of rules/ir.rs and the encoders of predicates and candidates: operations on the buffer
-- written so far.
use bash_lume.Base.{
  ℕ, ◌++◌, Bool, true, false, Option, none, some, List, [], ◌∷◌, Bytes, Result, ok, err, ltb,
  length, le16, le32, u32_end, if◌then◌else◌,
}
use bash_lume.Base.Outcome as Outcome
use bash_lume.Base.Outcome.{reject}
use bash_lume.Ir.Types.{
  IrError, limit, PredicateOp, op_true, op_false, op_not, op_and, op_or, current_word_equals,
  current_word_starts_with, previous_word_equals, any_word_equals, word_not_present,
  word_index_equals, word_index_at_least, command_path_equals, environment_set, environment_equals,
  CandidateTemplate, kind_encode, append_encode,
}
use bash_lume.Ir.Validate.{validate_string, validate_predicates, validate_candidate}

abbrev pub Encode : Type 0
Encode = Bytes → Result IrError Bytes

infixl 5 ◌>>◌
unfoldable pub ◌>>◌ : Encode → Encode → Encode
◌>>◌ m k buffer = Outcome.◌>>=◌ (m buffer) k

-- A check that may end the encoding.
unfoldable pub ensure : Result IrError (Unit {0}) → Encode
ensure r buffer = Outcome.◌>>=◌ r (λ _. ok buffer)

-- `bytes.extend_from_slice(value)`
unfoldable pub extend : Bytes → Encode
extend value buffer = ok (buffer ++ value)

unfoldable pub skip : Encode
skip buffer = ok buffer

unfoldable pub encode_each {ℓ} : {A : Type ℓ} → (A → Encode) → List A → Encode
encode_each item [] = skip
encode_each item (x ∷ xs) = do item x; encode_each item xs

unfoldable pub put_u8 : ℕ → Encode
put_u8 value = extend (value ∷ [])

unfoldable pub put_u16 : ℕ → Encode
put_u16 value = extend (le16 value)

unfoldable pub put_u32 : ℕ → Encode
put_u32 value = extend (le32 value)

-- `u32::try_from(value)` fails from 2^32 on.
unfoldable pub put_count : ℕ → Encode
put_count value = do
  ensure (if ltb value u32_end then ok tt else err (limit "encoded count"))
  put_u32 value

unfoldable pub put_blob : Bytes → Encode
put_blob value = do put_count (length value); extend value

unfoldable pub put_string : Bytes → Encode
put_string value = do ensure (validate_string value); put_count (length value); extend value

unfoldable pub put_optional_string : Option Bytes → Encode
put_optional_string (some value) = do put_u8 1; put_string value
put_optional_string none = put_u8 0

unfoldable pub put_strings : List Bytes → Encode
put_strings values = do put_count (length values); encode_each put_string values

unfoldable pub encode_predicate : PredicateOp → Encode
encode_predicate op_true = put_u8 0
encode_predicate op_false = put_u8 1
encode_predicate op_not = put_u8 2
encode_predicate op_and = put_u8 3
encode_predicate op_or = put_u8 4
encode_predicate (current_word_equals value) = do put_u8 5; put_string value
encode_predicate (current_word_starts_with value) = do put_u8 6; put_string value
encode_predicate (previous_word_equals value) = do put_u8 7; put_string value
encode_predicate (any_word_equals value) = do put_u8 8; put_string value
encode_predicate (word_not_present value) = do put_u8 9; put_string value
encode_predicate (word_index_equals value) = do put_u8 10; put_u32 value
encode_predicate (word_index_at_least value) = do put_u8 11; put_u32 value
encode_predicate (command_path_equals values) = do put_u8 12; put_strings values
encode_predicate (environment_set value) = do put_u8 13; put_string value
encode_predicate (environment_equals name value) = do put_u8 14; put_string name; put_string value

unfoldable pub encode_predicates : List PredicateOp → Encode
encode_predicates predicates = do
  ensure (validate_predicates predicates)
  put_count (length predicates)
  encode_each encode_predicate predicates

-- `u8::from(flag)`
abbrev pub flag_byte : Bool → ℕ
flag_byte true = 1
flag_byte false = 0

unfoldable pub encode_candidate : CandidateTemplate → Encode
encode_candidate c = do
  ensure (validate_candidate c)
  put_string c.value
  put_string c.display
  put_optional_string c.description
  put_u8 (kind_encode c.kind)
  put_u8 (append_encode c.append)
  put_u8 (flag_byte c.preserve_order)
  put_u8 0
