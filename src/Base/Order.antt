-- ===== src/Base/Order.antt =====
-- `std::cmp::Ordering` and `then_with`, the comparison of byte strings, and what makes a comparison fair:
-- exchanging the arguments reverses it.
use Prim.Native.Nat.{ℕ, compare, Ordering}
use mathlib.Core.Path.{◌≡◌, refl}
use mathlib.Core.Bool.{Bool, true, false}
use mathlib.Core.List.{[], ◌∷◌}
use native.Mathlib.Omega.{arith}
use bash_lume.Base.Lists.{Bytes}
use bash_lume.Base.Int.{ℤ, pos, negsuc, compare_ℤ}

abbrev pub then_with : Ordering → Ordering → Ordering
then_with Ordering.eq o = o
then_with Ordering.lt o = Ordering.lt
then_with Ordering.gt o = Ordering.gt

abbrev pub reverse_order : Ordering → Ordering
reverse_order Ordering.lt = Ordering.gt
reverse_order Ordering.eq = Ordering.eq
reverse_order Ordering.gt = Ordering.lt

-- `str::cmp` and `[u8]::cmp`: byte by byte, a prefix first
unfoldable pub compare_bytes : Bytes → Bytes → Ordering
compare_bytes [] [] = Ordering.eq
compare_bytes [] (y ∷ ys) = Ordering.lt
compare_bytes (x ∷ xs) [] = Ordering.gt
compare_bytes (x ∷ xs) (y ∷ ys) = then_with (compare x y) (compare_bytes xs ys)

-- The left argument does not come after the right one.
abbrev pub not_after : Ordering → Bool
not_after Ordering.gt = false
not_after _ = true

pub compare-reverse : (a b : ℕ) → compare b a ≡ reverse_order (compare a b)
compare-reverse a b = ground arith

pub then_with-reverse :
    (o p o' p' : Ordering)
    → o' ≡ reverse_order o
    → p' ≡ reverse_order p
    → then_with o' p' ≡ reverse_order (then_with o p)
then_with-reverse Ordering.eq p o' p' h k = ground arith
then_with-reverse Ordering.lt p o' p' h k = ground arith
then_with-reverse Ordering.gt p o' p' h k = ground arith

pub compare_ℤ-reverse : (a b : ℤ) → compare_ℤ b a ≡ reverse_order (compare_ℤ a b)
unfolding compare_ℤ
compare_ℤ-reverse (pos a) (pos b) = compare-reverse a b
compare_ℤ-reverse (pos a) (negsuc b) = refl
compare_ℤ-reverse (negsuc a) (pos b) = refl
compare_ℤ-reverse (negsuc a) (negsuc b) = compare-reverse b a

pub compare_bytes-reverse :
    (xs ys : Bytes) → compare_bytes ys xs ≡ reverse_order (compare_bytes xs ys)
unfolding compare_bytes
compare_bytes-reverse [] [] = refl
compare_bytes-reverse [] (y ∷ ys) = refl
compare_bytes-reverse (x ∷ xs) [] = refl
compare_bytes-reverse (x ∷ xs) (y ∷ ys) =
    then_with-reverse (compare x y) (compare_bytes xs ys) _ _ (compare-reverse x y)
      (compare_bytes-reverse xs ys)

pub not_after-reverse : (o : Ordering) → not_after o ≡ false → not_after (reverse_order o) ≡ true
not_after-reverse Ordering.gt h = refl
not_after-reverse Ordering.lt h = cc
not_after-reverse Ordering.eq h = refl
