-- ===== src/Base/Int.antt =====
-- Signed 64-bit integers: the values of `i64` with its comparison, sum and saturating sum.
use Prim.Native.Nat.{ℕ, ◌+◌, ◌-◌, min, compare, Ordering}
use bash_lume.Base.Tests.{leb, if◌then◌else◌}

-- `negsuc n` is -(n + 1).
pub data ℤ : Type 0 where
  pos : ℕ → ℤ
  negsuc : ℕ → ℤ

abbrev pub i64_max : ℕ
i64_max = 9223372036854775807

-- a - b
abbrev pub sub_ℕ : ℕ → ℕ → ℤ
sub_ℕ a b = if leb b a then pos (a - b) else negsuc (b - a - 1)

infixl 65 ◌+ℤ◌
unfoldable pub ◌+ℤ◌ : ℤ → ℤ → ℤ
pos a +ℤ pos b = pos (a + b)
pos a +ℤ negsuc b = sub_ℕ a (b + 1)
negsuc a +ℤ pos b = sub_ℕ b (a + 1)
negsuc a +ℤ negsuc b = negsuc (a + b + 1)

-- `a.saturating_add(n)` for a summand that is not negative
unfoldable pub saturating_plus : ℤ → ℕ → ℤ
saturating_plus (pos a) n = pos (min (a + n) i64_max)
saturating_plus (negsuc a) n = sub_ℕ n (a + 1)

unfoldable pub compare_ℤ : ℤ → ℤ → Ordering
compare_ℤ (pos a) (pos b) = compare a b
compare_ℤ (pos a) (negsuc b) = Ordering.gt
compare_ℤ (negsuc a) (pos b) = Ordering.lt
compare_ℤ (negsuc a) (negsuc b) = compare b a
