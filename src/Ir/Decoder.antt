-- ===== src/Ir/Decoder.antt =====
-- `Decoder` of rules/ir.rs: a position in the input, the string budget and the allocation budget, and the
-- decoders of predicates and candidates.
use bash_lume.Base.{
  ℕ, zero, suc, ◌+◌, ◌-◌, Bool, true, false, Option, none, some, List, [], ◌∷◌, Bytes, Result, ok,
  err, ◌==◌, ltb, length, take, drop, usize_max, saturating_add, saturating_mul, word16, word32,
  if◌then◌else◌,
}
use bash_lume.Base.Outcome as Outcome
use bash_lume.Base.Utf8.{valid_utf8}
use bash_lume.Ir.Types.{
  IrError, truncated, invalid, invalid_enum, limit, PredicateOp, op_true, op_false, op_not, op_and,
  op_or, current_word_equals, current_word_starts_with, previous_word_equals, any_word_equals,
  word_not_present, word_index_equals, word_index_at_least, command_path_equals, environment_set,
  environment_equals, CandidateTemplate, kind_decode, append_decode,
}
use bash_lume.Ir.Limits.{max_predicates_per_rule, max_strings_bytes, max_string_bytes, Sizes}
use bash_lume.Ir.Validate.{validate_string, validate_predicates, validate_candidate}

pub record Decoder : Type 0 where
  pub bytes : Bytes
  pub position : ℕ
  pub string_bytes : ℕ
  pub allocation_bytes : ℕ
  pub allocation_limit : ℕ

unfoldable pub new_decoder : Bytes → ℕ → Decoder
new_decoder bytes allocation_limit = record {
  bytes = bytes;
  position = 0;
  string_bytes = 0;
  allocation_bytes = length bytes;
  allocation_limit = allocation_limit;
}

abbrev pub Decode {ℓ} : Type ℓ → Type ℓ
Decode A = Decoder → Result IrError (A × Decoder)

infixl 5 ◌>>=◌ ◌>>◌
unfoldable pub ◌>>=◌ {ℓ κ} : {A : Type ℓ} {B : Type κ} → Decode A → (A → Decode B) → Decode B
◌>>=◌ m f d = Outcome.◌>>=◌ (m d) (λ r. f r.0 r.1)

abbrev pub ◌>>◌ {ℓ} : {B : Type ℓ} → Decode (Unit {0}) → Decode B → Decode B
m >> k = m >>= λ _. k

unfoldable pub pure {ℓ} : {A : Type ℓ} → A → Decode A
pure a d = ok (a, d)

unfoldable pub fail {ℓ} : {A : Type ℓ} → IrError → Decode A
fail e d = err e

-- `r?` for a result that does not involve the decoder
unfoldable pub lift {ℓ} : {A : Type ℓ} → Result IrError A → Decode A
lift r d = Outcome.◌>>=◌ r (λ a. ok (a, d))

unfoldable pub charge : ℕ → Decode (Unit {0})
charge n d =
    let used = saturating_add d.allocation_bytes n in
    if ltb d.allocation_limit used
    then err (limit "decoded command allocation")
    else ok (tt, record d { allocation_bytes = used })

-- `charge_array::<T>(count)` for a type of the given size
unfoldable pub charge_array : ℕ → ℕ → Decode (Unit {0})
charge_array size n = charge (saturating_mul n size)

unfoldable pub remaining_allocation : Decoder → ℕ
remaining_allocation d = d.allocation_limit - d.allocation_bytes

unfoldable pub remaining : Decoder → Bytes
remaining d = drop d.position d.bytes

unfoldable pub take_bytes : ℕ → Decode Bytes
unfolding remaining
take_bytes n d =
    let end = d.position + n in
    if ltb usize_max end
    then err (invalid "offset overflow")
    else if ltb (length d.bytes) end
    then err truncated
    else ok (take n (remaining d), record d { position = end })

abbrev to_u8 : Bytes → Result IrError ℕ
to_u8 (a ∷ []) = ok a
to_u8 _ = err truncated

abbrev to_u16 : Bytes → Result IrError ℕ
to_u16 (a ∷ b ∷ []) = ok (word16 a b)
to_u16 _ = err truncated

abbrev to_u32 : Bytes → Result IrError ℕ
to_u32 (a ∷ b ∷ c ∷ e ∷ []) = ok (word32 a b c e)
to_u32 _ = err truncated

unfoldable pub u8 : Decode ℕ
u8 = do taken ← take_bytes 1; lift (to_u8 taken)

unfoldable pub u16 : Decode ℕ
u16 = do taken ← take_bytes 2; lift (to_u16 taken)

unfoldable pub u32 : Decode ℕ
u32 = do taken ← take_bytes 4; lift (to_u32 taken)

-- A `u32` always fits a 64-bit `usize`.
unfoldable pub count : ℕ → Decode ℕ
count maximum = do
  value ← u32
  lift (if ltb maximum value then err (limit "decoded count") else ok value)

unfoldable pub blob : ℕ → Decode Bytes
blob maximum = do n ← count maximum; take_bytes n

-- `string_bytes` grows by the length; the test on it follows the charge.
unfoldable pub charge_string : ℕ → Decode (Unit {0})
charge_string n d = ok (tt, record d { string_bytes = saturating_add d.string_bytes n })

unfoldable pub check_strings : Decode (Unit {0})
check_strings d =
    if ltb max_strings_bytes d.string_bytes then err (limit "decoded string table") else ok (tt, d)

-- A text's length goes to both budgets before its bytes are taken.
unfoldable pub charge_text : ℕ → Decode (Unit {0})
charge_text n = do charge_string n; charge n; check_strings

unfoldable pub string : Decode Bytes
string = do
  n ← count max_string_bytes
  charge_text n
  value ← take_bytes n
  lift (if valid_utf8 value then ok tt else err (invalid "invalid UTF-8"))
  lift (validate_string value)
  pure value

abbrev optional_string_of : ℕ → Decode (Option Bytes)
optional_string_of flag =
    if flag == 0
    then pure none
    else if flag == 1
    then (do value ← string; pure (some value))
    else fail (invalid_enum "optional string flag" flag)

unfoldable pub optional_string : Decode (Option Bytes)
optional_string = do flag ← u8; optional_string_of flag

-- `for _ in 0..n { values.push(item()?) }`
unfoldable pub decode_each {ℓ} : {A : Type ℓ} → Decode A → ℕ → Decode (List A)
decode_each item zero = pure []
decode_each item (suc n) = do x ← item; xs ← decode_each item n; pure (x ∷ xs)

module _ (Z : Sizes) where
  unfoldable pub strings : ℕ → Decode (List Bytes)
  strings maximum = do n ← count maximum; charge_array Z.of_string n; decode_each string n

  abbrev predicate_of : ℕ → Decode PredicateOp
  predicate_of opcode =
      if opcode == 0
      then pure op_true
      else if opcode == 1
      then pure op_false
      else if opcode == 2
      then pure op_not
      else if opcode == 3
      then pure op_and
      else if opcode == 4
      then pure op_or
      else if opcode == 5
      then (do value ← string; pure (current_word_equals value))
      else if opcode == 6
      then (do value ← string; pure (current_word_starts_with value))
      else if opcode == 7
      then (do value ← string; pure (previous_word_equals value))
      else if opcode == 8
      then (do value ← string; pure (any_word_equals value))
      else if opcode == 9
      then (do value ← string; pure (word_not_present value))
      else if opcode == 10
      then (do value ← u32; pure (word_index_equals value))
      else if opcode == 11
      then (do value ← u32; pure (word_index_at_least value))
      else if opcode == 12
      then (do values ← strings 256; pure (command_path_equals values))
      else if opcode == 13
      then (do value ← string; pure (environment_set value))
      else if opcode == 14
      then (do name ← string; value ← string; pure (environment_equals name value))
      else fail (invalid_enum "predicate opcode" opcode)

  unfoldable pub decode_predicate : Decode PredicateOp
  decode_predicate = do opcode ← u8; predicate_of opcode

  unfoldable pub decode_predicates : Decode (List PredicateOp)
  decode_predicates = do
    n ← count max_predicates_per_rule
    charge_array Z.of_predicate n
    predicates ← decode_each decode_predicate n
    lift (validate_predicates predicates)
    pure predicates

abbrev pub ordering_flag : ℕ → Result IrError Bool
ordering_flag flag =
    if flag == 0
    then ok false
    else if flag == 1
    then ok true
    else err (invalid_enum "candidate ordering flag" flag)

-- `if decoder.u8()? != 0 { return Err(e) }`
unfoldable pub zero_flag : IrError → ℕ → Result IrError (Unit {0})
zero_flag e flag = if flag == 0 then ok tt else err e

unfoldable pub decode_candidate : Decode CandidateTemplate
decode_candidate = do
  value ← string
  display ← string
  description ← optional_string
  kind_byte ← u8
  kind ← lift (kind_decode kind_byte)
  append_byte ← u8
  append ← lift (append_decode append_byte)
  order_byte ← u8
  preserve_order ← lift (ordering_flag order_byte)
  flags ← u8
  lift (zero_flag (invalid "nonzero candidate flags") flags)
  let c : CandidateTemplate = record {
    value = value;
    display = display;
    description = description;
    kind = kind;
    append = append;
    preserve_order = preserve_order;
  }
  lift (validate_candidate c)
  pure c
