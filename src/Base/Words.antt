-- ===== src/Base/Words.antt =====
-- `usize` (64 bit) with its saturating addition, and little-endian words as the code lays them out.
use Prim.Native.Nat.{ℕ, ◌+◌, ◌*◌, ◌/◌, ◌%◌, ◌<◌, ◌≤◌, min}
use mathlib.Core.Path.{◌≡◌}
use mathlib.Core.List.{[], ◌∷◌}
use native.Mathlib.Omega.{arith}
use bash_lume.Base.Lists.{Bytes}

abbrev pub usize_max : ℕ
usize_max = 18446744073709551615

-- one more than `u32::MAX`
abbrev pub u32_end : ℕ
u32_end = 4294967296

-- `a.saturating_add(b)`, `a.saturating_mul(b)`
unfoldable pub saturating_add : ℕ → ℕ → ℕ
saturating_add a b = min (a + b) usize_max

unfoldable pub saturating_mul : ℕ → ℕ → ℕ
saturating_mul a b = min (a * b) usize_max

pub saturating_add-eq-add : (a b : ℕ) → a + b ≤ usize_max → saturating_add a b ≡ a + b
unfolding saturating_add
saturating_add-eq-add a b h = omega arith

pub saturating_mul-eq-mul : (a b : ℕ) → a * b ≤ usize_max → saturating_mul a b ≡ a * b
unfolding saturating_mul
saturating_mul-eq-mul a b h = omega arith

-- `value.to_le_bytes()` of a u16 and of a u32
unfoldable pub le16 : ℕ → Bytes
le16 n = (n % 256) ∷ (n / 256 % 256) ∷ []

unfoldable pub le32 : ℕ → Bytes
le32 n = (n % 256) ∷ (n / 256 % 256) ∷ (n / 65536 % 256) ∷ (n / 16777216 % 256) ∷ []

-- `from_le_bytes`
abbrev pub word16 : ℕ → ℕ → ℕ
word16 a b = a + 256 * b

abbrev pub word32 : ℕ → ℕ → ℕ → ℕ → ℕ
word32 a b c d = a + 256 * b + 65536 * c + 16777216 * d

pub word16-le16 : (n : ℕ) → n < 65536 → word16 (n % 256) (n / 256 % 256) ≡ n
word16-le16 n h = omega arith

pub word32-le32 :
    (n : ℕ)
    → n < u32_end
    → word32 (n % 256) (n / 256 % 256) (n / 65536 % 256) (n / 16777216 % 256) ≡ n
word32-le32 n h = omega arith
