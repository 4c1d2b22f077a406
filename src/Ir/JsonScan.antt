-- ===== src/Ir/JsonScan.antt =====
-- `ScriptJsonPreflight` of rules/ir.rs up to numbers: its state, its charges, white space and literals.
-- `rest` is what the bytes have from `cursor` on.
use Prim.Native.Nat.{max}
use bash_lume.Base.{
  ℕ, zero, suc, ◌-◌, ◌*◌, Bool, true, false, ◌||◌, Option, none, some, List, [], ◌∷◌, Bytes, Result,
  ok, err, length, take, drop, ltb, ◌==◌, bytes_eq, saturating_add, saturating_mul, if◌then◌else◌,
}
use bash_lume.Base.Outcome as Outcome
use bash_lume.Base.Utf8.{in_range}
use bash_lume.Ir.Types.{IrError, invalid, limit}
use bash_lume.Ir.Limits.{Sizes}

-- The scratch slots are those of `scratch_by_container_depth`, in order.
pub record Preflight : Type 0 where
  pub rest : Bytes
  pub used : ℕ
  pub scratch : List ℕ
  pub scratch_total : ℕ
  pub discriminator_error_peak : ℕ
  pub limit_bytes : ℕ

abbrev pub Scan : Type 0 → Type 0
Scan A = Preflight → Result IrError (A × Preflight)

infixl 5 ◌>>=◌ ◌>>◌
unfoldable pub ◌>>=◌ : {A B : Type 0} → Scan A → (A → Scan B) → Scan B
◌>>=◌ m f s = Outcome.◌>>=◌ (m s) λ r. f r.0 r.1

abbrev pub ◌>>◌ : {B : Type 0} → Scan (Unit {0}) → Scan B → Scan B
m >> k = m >>= λ _. k

unfoldable pub pure : {A : Type 0} → A → Scan A
pure a s = ok (a, s)

-- `Self::invalid()`
unfoldable pub refuse : {A : Type 0} → Scan A
refuse s = err (invalid "invalid script encoding")

abbrev pub aggregate : IrError
aggregate = limit "aggregate shell script IR"

unfoldable pub check_limit : Scan (Unit {0})
check_limit s =
    if ltb s.limit_bytes
      (saturating_add (saturating_add s.used s.scratch_total) s.discriminator_error_peak)
    then err aggregate
    else ok (tt, s)

unfoldable pub charge : ℕ → Scan (Unit {0})
unfolding check_limit
charge n s = check_limit (record s { used = saturating_add s.used n })

abbrev pub get_slot : List ℕ → ℕ → Option ℕ
get_slot [] i = none
get_slot (x ∷ xs) zero = some x
get_slot (x ∷ xs) (suc i) = get_slot xs i

abbrev pub set_slot : List ℕ → ℕ → ℕ → List ℕ
set_slot [] i v = []
set_slot (x ∷ xs) zero v = v ∷ xs
set_slot (x ∷ xs) (suc i) v = x ∷ set_slot xs i v

-- A larger scratch buffer takes the place of the slot's.
unfoldable pub grow_slot : ℕ → ℕ → Option ℕ → Scan (Unit {0})
unfolding check_limit refuse
grow_slot depth bytes none s = refuse s
grow_slot depth bytes (some slot) s =
    if ltb slot bytes
    then check_limit (record s {
      scratch_total = saturating_add s.scratch_total (bytes - slot);
      scratch = set_slot s.scratch depth bytes;
    })
    else check_limit s

unfoldable pub record_scratch : ℕ → ℕ → Scan (Unit {0})
unfolding grow_slot
record_scratch depth bytes s = grow_slot depth bytes (get_slot s.scratch depth) s

-- `size_of::<String>()` is one of the sizes.
unfoldable pub record_discriminator_error : Sizes → ℕ → Scan (Unit {0})
unfolding check_limit
record_discriminator_error Z raw_length s = check_limit (record s {
  discriminator_error_peak =
      max s.discriminator_error_peak
        (saturating_add (saturating_add (saturating_mul raw_length 2) (2 * Z.of_string)) 256);
})

abbrev pub is_json_space : ℕ → Bool
is_json_space b = b == b' ' || b == b'\n' || b == b'\r' || b == b'\t'

abbrev pub skip_spaces : Bytes → Bytes
skip_spaces [] = []
skip_spaces (b ∷ bs) = let later = skip_spaces bs in if is_json_space b then later else b ∷ bs

unfoldable pub skip_whitespace : Scan (Unit {0})
skip_whitespace s = ok (tt, record s { rest = skip_spaces s.rest })

-- What `consume` does after white space.
unfoldable pub consume_at : ℕ → Bytes → Preflight → Bool × Preflight
consume_at byte [] s = (false, record s { rest = [] })
consume_at byte (b ∷ bs) s =
    if b == byte then (true, record s { rest = bs }) else (false, record s { rest = b ∷ bs })

unfoldable pub consume : ℕ → Scan Bool
unfolding consume_at
consume byte s = ok (consume_at byte (skip_spaces s.rest) s)

unfoldable pub literal : Bytes → Scan (Unit {0})
unfolding charge refuse
literal value s =
    if bytes_eq (take (length value) s.rest) value
    then charge 16 (record s { rest = drop (length value) s.rest })
    else refuse s

abbrev pub is_digit : ℕ → Bool
is_digit b = in_range b'0' b'9' b

abbrev pub skip_digits : Bytes → Bytes
skip_digits [] = []
skip_digits (b ∷ bs) = let later = skip_digits bs in if is_digit b then later else b ∷ bs

-- At least one digit.
unfoldable pub some_digits : Bytes → Option Bytes
some_digits [] = none
some_digits (b ∷ bs) = if is_digit b then some (skip_digits bs) else none

unfoldable pub number_sign : Bytes → Bytes
number_sign [] = []
number_sign (b ∷ bs) = if b == b'-' then bs else b ∷ bs

-- A zero, or digits that do not start with one.
unfoldable pub number_whole : Bytes → Option Bytes
number_whole [] = none
number_whole (b ∷ bs) =
    if b == b'0' then some bs else if in_range b'1' b'9' b then some (skip_digits bs) else none

unfoldable pub number_fraction : Bytes → Option Bytes
unfolding some_digits
number_fraction [] = some []
number_fraction (b ∷ bs) = if b == b'.' then some_digits bs else some (b ∷ bs)

unfoldable pub exponent_sign : Bytes → Bytes
exponent_sign [] = []
exponent_sign (b ∷ bs) = if b == b'+' || b == b'-' then bs else b ∷ bs

unfoldable pub number_exponent : Bytes → Option Bytes
unfolding some_digits exponent_sign
number_exponent [] = some []
number_exponent (b ∷ bs) =
    if b == b'e' || b == b'E' then some_digits (exponent_sign bs) else some (b ∷ bs)

-- A part of a number, which moves the cursor or is refused.
unfoldable pub advance_by : (Bytes → Option Bytes) → Scan (Unit {0})
unfolding refuse
advance_by part s = elim (part s.rest) [
  | none ↦ refuse s
  | some bs ↦ ok (tt, record s { rest = bs })
]

unfoldable pub number : Scan (Unit {0})
unfolding ◌>>=◌ advance_by number_sign number_whole number_fraction number_exponent charge
number = do
  advance_by (λ bs. some (number_sign bs))
  advance_by number_whole
  advance_by number_fraction
  advance_by number_exponent
  charge 16
