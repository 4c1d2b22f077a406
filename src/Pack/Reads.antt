-- ===== src/Pack/Reads.antt =====
-- The index decoder of rules/format.rs at bytes that are laid out as it reads them.
use bash_lume.Base.{
  ℕ, ◌+◌, ◌≤◌, ◌<◌, ◌≡◌, refl, ap, ◌∙◌, true, [], ◌++◌, Bytes, Result, ok, err, arith, ltb, length,
  length-append, drop, usize_max, u32_end, le32, le→ltb, if◌then◌else◌, take-append_length,
  drop-append_length, length-drop, drop-add, word32-le32, word32, ◌%◌, ◌/◌,
}
use mathlib.Core.List.{append_assoc}
use bash_lume.Base.Utf8.{valid_utf8}
use bash_lume.Pack.Types.{PackError}
use bash_lume.Pack.Words.{word64, le64, to_u32, to_u64}
use bash_lume.Pack.Index.{
  IndexDecoder, Parse, ◌>>=◌, pure, lift, remaining, take_bytes, u32, u64, count, string,
}

abbrev pub advance : IndexDecoder → ℕ → IndexDecoder
advance d n = record d { position = d.position + n }

-- The decoder stands before `v` in an input that can be addressed.
pub record IsAt (d : IndexDecoder) (v : Bytes) : Type 0 where
  pub left : remaining d ≡ v
  pub inside : d.position ≤ length d.bytes
  pub addressable : length d.bytes ≤ usize_max

-- Before `v`, the parser gives `a` and stands behind `v`.
pub record Reads {A : Type 0} (m : Parse A) (v : Bytes) (a : A) : Type 0 where
  pub run :
      (d : IndexDecoder) (rest : Bytes) → IsAt d (v ++ rest) → m d ≡ ok (a, advance d (length v))

pub room :
    (d : IndexDecoder) (v rest : Bytes)
    → IsAt d (v ++ rest)
    → d.position + length v ≤ length d.bytes
unfolding remaining
room d v rest h = omega (
  arith,
  h.inside,
  length-drop d.position d.bytes,
  ap (length {A = ℕ}) h.left,
  length-append v rest,
)

pub IsAt-advance :
    (d : IndexDecoder) (v rest : Bytes) → IsAt d (v ++ rest) → IsAt (advance d (length v)) rest
unfolding remaining
IsAt-advance d v rest h = record {
  left =
      drop-add d.position (length v) d.bytes
      ∙ ap (drop (length v)) h.left
      ∙ drop-append_length v rest;
  inside = room d v rest h;
  addressable = h.addressable;
}

pub Reads-pure : {A : Type 0} (a : A) → Reads (pure a) [] a
unfolding pure
Reads-pure a = record {
  run = λ d rest h. ap (λ n. ok (a, record d { position = n })) (omega arith);
}

pub Reads->>= :
    {A B : Type 0} {m : Parse A} (f : A → Parse B) {v w : Bytes} {a : A} {b : B}
    → Reads m v a
    → Reads (f a) w b
    → Reads (m >>= f) (v ++ w) b
unfolding ◌>>=◌
Reads->>= {m} f {v} {w} {a} {b} hm hf = record {
  run = λ d rest h.
      let here : IsAt d (v ++ (w ++ rest)) = record {
        left = h.left ∙ append_assoc v w rest;
        inside = h.inside;
        addressable = h.addressable;
      } in
      let n : d.position + length v + length w ≡ d.position + length (v ++ w) =
        omega (arith, length-append v w) in
      rw (hm.run d (w ++ rest) here) (
        hf.run (advance d (length v)) rest (IsAt-advance d v (w ++ rest) here)
        ∙ ap (λ p. ok (b, record d { position = p })) n);
}

-- A step that reads nothing.
pub Reads-lift :
    {A B : Type 0} {r : Result PackError A} {a : A} (f : A → Parse B) {w : Bytes} {b : B}
    → r ≡ ok a
    → Reads (f a) w b
    → Reads (lift r >>= f) w b
unfolding ◌>>=◌ lift
Reads-lift f e hf = record { run = λ d rest h. rw e (hf.run d rest h) }

-- The last parser of a chain.
pub Reads-last :
    {A B : Type 0} {m : Parse A} (f : A → B) {v : Bytes} {a : A}
    → Reads m v a
    → Reads (m >>= λ x. pure (f x)) v (f a)
unfolding ◌>>=◌ pure
Reads-last f h = record { run = λ d rest k. rw (h.run d rest k) refl }

pub Reads-take : (v : Bytes) → Reads (take_bytes (length v)) v v
unfolding take_bytes
Reads-take v = record {
  run = λ d rest h.
      let fits = room d v rest h in
      rw
        (
          le→ltb (d.position + length v) usize_max (omega (arith, fits, h.addressable)),
          le→ltb (d.position + length v) (length d.bytes) fits,
          h.left,
          take-append_length v rest,
        )
        refl;
}

-- A check of what was read.
pub Reads-checked :
    {A B : Type 0} {m : Parse A} (r : A → Result PackError B) {v : Bytes} {a : A} {b : B}
    → Reads m v a
    → r a ≡ ok b
    → Reads (m >>= λ x. lift (r x)) v b
unfolding ◌>>=◌ lift
Reads-checked r h e = record { run = λ d rest k. rw (h.run d rest k) (rw e refl) }

pub Reads-u32 : (n : ℕ) → n < u32_end → Reads u32 (le32 n) n
unfolding u32 le32
Reads-u32 n h = Reads-checked to_u32 (Reads-take (le32 n)) (ap ok (word32-le32 n h))

pub word64-le64 :
    (n : ℕ)
    → n ≤ usize_max
    → word64 (word32 (n % 256) (n / 256 % 256) (n / 65536 % 256) (n / 16777216 % 256)) (
        word32
          (n / 4294967296 % 256)
          (n / 4294967296 / 256 % 256)
          (n / 4294967296 / 65536 % 256)
          (n / 4294967296 / 16777216 % 256))
      ≡ n
word64-le64 n h = omega arith

pub Reads-u64 : (n : ℕ) → n ≤ usize_max → Reads u64 (le64 n) n
unfolding u64 le64 le32
Reads-u64 n h = Reads-checked to_u64 (Reads-take (le64 n)) (ap ok (word64-le64 n h))

pub Reads-count : (maximum n : ℕ) → n ≤ maximum → n < u32_end → Reads (count maximum) (le32 n) n
unfolding count
Reads-count maximum n le h =
    Reads-checked
      (λ value. if ltb maximum value then err (PackError.limit "index count") else ok value)
      (Reads-u32 n h) (rw (le→ltb n maximum le) refl)

pub Reads-string :
    (maximum : ℕ) (s : Bytes)
    → length s ≤ maximum
    → maximum < u32_end
    → valid_utf8 s ≡ true
    → Reads (string maximum) (le32 (length s) ++ (s ++ [])) s
unfolding string
Reads-string maximum s le small good =
    Reads->>= _ (Reads-count maximum (length s) le (omega arith))
      (Reads->>= _ (Reads-take s) (Reads-lift _ (rw good refl) (Reads-pure s)))
