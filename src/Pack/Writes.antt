-- ===== src/Pack/Writes.antt =====
-- A write into a buffer, as `PackBuilder::build` of rules/format.rs makes it: what each range holds after it.
use bash_lume.Base.{
  ℕ, zero, suc, ◌+◌, ◌≤◌, ◌≡◌, refl, ap, [], ◌∷◌, ◌++◌, Bytes, ok, arith, length, take, drop,
  take-append_length, length-append, length-take, length-drop,
}
use bash_lume.Pack.Words.{slice, copy_at, write_at}
use bash_lume.Pack.Header.{zeros}

copy_at-suc :
    (p : ℕ) (v : Bytes) (x : ℕ) (bytes : Bytes)
    → copy_at (suc p) v (x ∷ bytes) ≡ x ∷ copy_at p v bytes
unfolding copy_at
copy_at-suc p v x bytes = let e : suc p + length v ≡ suc (p + length v) = omega arith in rw e refl

copy_at-zero : (v bytes : Bytes) → copy_at 0 v bytes ≡ v ++ drop (length v) bytes
unfolding copy_at
copy_at-zero v bytes = let e : 0 + length v ≡ length v = omega arith in rw e refl

pub length-copy_at :
    (p : ℕ) (v bytes : Bytes)
    → p + length v ≤ length bytes
    → length (copy_at p v bytes) ≡ length bytes
unfolding copy_at
length-copy_at p v bytes h =
    let size : length (copy_at p v bytes)
        ≡ length (take p bytes ++ v) + length (drop (p + length v) bytes) =
      length-append (take p bytes ++ v) (drop (p + length v) bytes) in
    let rest = length-append (take p bytes) v in
    let front : length (take p bytes) ≡ p = length-take p bytes (omega arith) in
    let back = length-drop (p + length v) bytes in omega (arith, size, rest, front, back)

pub slice-copy_at :
    (p : ℕ) (v bytes : Bytes) → p ≤ length bytes → slice p (length v) (copy_at p v bytes) ≡ v
unfolding slice
slice-copy_at zero v bytes h =
    rw (copy_at-zero v bytes) (take-append_length v (drop (length v) bytes))
slice-copy_at (suc p) v [] h = ground arith
slice-copy_at (suc p) v (x ∷ bytes) h =
    rw (copy_at-suc p v x bytes) (slice-copy_at p v bytes (omega arith))

pub take-copy_at :
    (n p : ℕ) (v bytes : Bytes)
    → n ≤ p
    → p ≤ length bytes
    → take n (copy_at p v bytes) ≡ take n bytes
take-copy_at zero p v bytes le h = refl
take-copy_at (suc n) zero v bytes le h = ground arith
take-copy_at (suc n) (suc p) v [] le h = ground arith
take-copy_at (suc n) (suc p) v (x ∷ bytes) le h =
    rw (copy_at-suc p v x bytes)
      (ap (λ t. x ∷ t) (take-copy_at n p v bytes (omega arith) (omega arith)))

pub slice-copy_at_before :
    (o n p : ℕ) (v bytes : Bytes)
    → o + n ≤ p
    → p ≤ length bytes
    → slice o n (copy_at p v bytes) ≡ slice o n bytes
unfolding slice
slice-copy_at_before zero n p v bytes le h = take-copy_at n p v bytes (omega arith) h
slice-copy_at_before (suc o) n zero v bytes le h = ground arith
slice-copy_at_before (suc o) n (suc p) v [] le h = ground arith
slice-copy_at_before (suc o) n (suc p) v (x ∷ bytes) le h =
    rw (copy_at-suc p v x bytes) (slice-copy_at_before o n p v bytes (omega arith) (omega arith))

drop-behind :
    (o : ℕ) (v bytes : Bytes)
    → length v ≤ o
    → length v ≤ length bytes
    → drop o (v ++ drop (length v) bytes) ≡ drop o bytes
drop-behind o [] bytes le h = refl
drop-behind zero (y ∷ v) bytes le h = ground arith
drop-behind (suc o) (y ∷ v) [] le h = ground arith
drop-behind (suc o) (y ∷ v) (x ∷ bytes) le h = drop-behind o v bytes (omega arith) (omega arith)

pub slice-copy_at_after :
    (o n p : ℕ) (v bytes : Bytes)
    → p + length v ≤ o
    → p + length v ≤ length bytes
    → slice o n (copy_at p v bytes) ≡ slice o n bytes
unfolding slice
slice-copy_at_after o n zero v bytes le h =
    rw (copy_at-zero v bytes) (ap (take n) (drop-behind o v bytes (omega arith) (omega arith)))
slice-copy_at_after zero n (suc p) v bytes le h = ground arith
slice-copy_at_after (suc o) n (suc p) v [] le h = ground arith
slice-copy_at_after (suc o) n (suc p) v (x ∷ bytes) le h =
    rw (copy_at-suc p v x bytes) (slice-copy_at_after o n p v bytes (omega arith) (omega arith))

-- A second write of the same length hides the first.
pub copy_at-copy_at :
    (p : ℕ) (v w bytes : Bytes)
    → length v ≡ length w
    → p + length v ≤ length bytes
    → copy_at p w (copy_at p v bytes) ≡ copy_at p w bytes
copy_at-copy_at zero v w bytes same h =
    rw (copy_at-zero v bytes, copy_at-zero w (v ++ drop (length v) bytes), copy_at-zero w bytes)
      (ap (λ t. w ++ t) (drop-behind (length w) v bytes (omega arith) (omega arith)))
copy_at-copy_at (suc p) v w [] same h = ground arith
copy_at-copy_at (suc p) v w (x ∷ bytes) same h =
    rw (copy_at-suc p v x bytes, copy_at-suc p w x (copy_at p v bytes), copy_at-suc p w x bytes)
      (ap (λ t. x ∷ t) (copy_at-copy_at p v w bytes same (omega arith)))

pub length-zeros : (n : ℕ) → length (zeros n) ≡ n
length-zeros zero = refl
length-zeros (suc n) = omega (arith, length-zeros n)

pub take-zeros : (n m : ℕ) → n ≤ m → take n (zeros m) ≡ zeros n
take-zeros zero m h = refl
take-zeros (suc n) zero h = ground arith
take-zeros (suc n) (suc m) h = ap (λ t. 0 ∷ t) (take-zeros n m (omega arith))

pub slice-zeros : (o n m : ℕ) → o + n ≤ m → slice o n (zeros m) ≡ zeros n
unfolding slice
slice-zeros zero n m h = take-zeros n m (omega arith)
slice-zeros (suc o) n zero h = ground arith
slice-zeros (suc o) n (suc m) h = slice-zeros o n m (omega arith)

take-append_within :
    (n : ℕ) (v bytes : Bytes)
    → length v ≤ n
    → length v ≤ length bytes
    → take n (v ++ drop (length v) bytes) ≡ v ++ drop (length v) (take n bytes)
take-append_within n [] bytes le h = refl
take-append_within zero (y ∷ v) bytes le h = ground arith
take-append_within (suc n) (y ∷ v) [] le h = ground arith
take-append_within (suc n) (y ∷ v) (x ∷ bytes) le h =
    ap (λ t. y ∷ t) (take-append_within n v bytes (omega arith) (omega arith))

pub take-copy_at_within :
    (n p : ℕ) (v bytes : Bytes)
    → p + length v ≤ n
    → n ≤ length bytes
    → take n (copy_at p v bytes) ≡ copy_at p v (take n bytes)
take-copy_at_within n zero v bytes le h =
    rw (copy_at-zero v bytes, copy_at-zero v (take n bytes))
      (take-append_within n v bytes (omega arith) (omega arith))
take-copy_at_within zero (suc p) v bytes le h = ground arith
take-copy_at_within (suc n) (suc p) v [] le h = ground arith
take-copy_at_within (suc n) (suc p) v (x ∷ bytes) le h =
    rw (copy_at-suc p v x bytes, copy_at-suc p v x (take n bytes))
      (ap (λ t. x ∷ t) (take-copy_at_within n p v bytes (omega arith) (omega arith)))

pub write_at-eq-ok :
    (o : ℕ) (v bytes : Bytes) (output : Bytes)
    → write_at o v bytes ≡ ok output
    → output ≡ copy_at o v bytes
write_at-eq-ok o v bytes output h = ground (arith, h)
