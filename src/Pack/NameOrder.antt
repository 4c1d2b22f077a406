-- ===== src/Pack/NameOrder.antt =====
-- The order of names in rules/format.rs, and the binary search of the standard library in an ordered index.
use Prim.Native.Nat.{Ordering}
use native.Mathlib.Decide.{dec_lt}
use bash_lume.Base.{
  ℕ, zero, suc, ◌+◌, ◌-◌, ◌/◌, ◌≤◌, ◌<◌, ◌≡◌, ◌⊎◌, refl, sym, ◌∙◌, true, false, Option, none, some,
  List, [], ◌∷◌, Bytes, arith, ltb, ltb→lt, ltb→le, length, bytes_eq, if◌then◌else◌, Bool-cases,
  inl, inr,
}
use bash_lume.Base.Order.{compare_bytes}
use bash_lume.Pack.Types.{NameEntry}
use bash_lume.Pack.Index.{out_of_order}
use bash_lume.Pack.Load.{is_gt, search_base, order_at, block_at, find_block}

pub compare_bytes_trans :
    (a b c : Bytes)
    → compare_bytes a b ≡ Ordering.lt
    → is_gt (compare_bytes b c) ≡ false
    → compare_bytes a c ≡ Ordering.lt
unfolding compare_bytes
compare_bytes_trans [] [] c h k = cc
compare_bytes_trans (x ∷ a) [] c h k = cc
compare_bytes_trans [] (y ∷ b) [] h k = cc
compare_bytes_trans [] (y ∷ b) (z ∷ c) h k = refl
compare_bytes_trans (x ∷ a) (y ∷ b) [] h k = cc
compare_bytes_trans (x ∷ a) (y ∷ b) (z ∷ c) h k = ground (arith, compare_bytes_trans a b c)

pub compare_bytes-bytes_eq : (a b : Bytes) → bytes_eq a b ≡ true → compare_bytes a b ≡ Ordering.eq
unfolding compare_bytes
compare_bytes-bytes_eq [] [] h = refl
compare_bytes-bytes_eq [] (y ∷ b) h = cc
compare_bytes-bytes_eq (x ∷ a) [] h = cc
compare_bytes-bytes_eq (x ∷ a) (y ∷ b) h = ground (arith, compare_bytes-bytes_eq a b)

-- Each name after the one before it, as `parse_index` tests them.
abbrev pub IsChain : Option Bytes → List NameEntry → Type 0
IsChain previous [] = Unit
IsChain previous (entry ∷ names) =
    (out_of_order previous entry.name ≡ false) × IsChain (some entry.name) names

pub text_lt-compare :
    (a b : Bytes) → out_of_order (some a) b ≡ false → compare_bytes a b ≡ Ordering.lt
text_lt-compare a b h = ground arith

order_at-before :
    (previous command : Bytes) (names : List NameEntry) (j : ℕ)
    → IsChain (some previous) names
    → is_gt (order_at names command j) ≡ false
    → compare_bytes previous command ≡ Ordering.lt
unfolding order_at
order_at-before previous command [] j c h = cc
order_at-before previous command (entry ∷ names) zero c h =
    compare_bytes_trans previous entry.name command (text_lt-compare previous entry.name c.0) h
order_at-before previous command (entry ∷ names) (suc j) c h =
    compare_bytes_trans previous entry.name command (text_lt-compare previous entry.name c.0)
      (rw (order_at-before entry.name command names j c.1 h) refl)

-- Before an entry that is not greater, all are less.
abbrev Falls : (ℕ → Ordering) → Type 0
Falls order = (i j : ℕ) → i < j → is_gt (order j) ≡ false → order i ≡ Ordering.lt

order_at-Falls :
    (previous : Option Bytes) (command : Bytes) (names : List NameEntry)
    → IsChain previous names
    → Falls (order_at names command)
unfolding order_at
order_at-Falls previous command [] c i j lt h = cc
order_at-Falls previous command (entry ∷ names) c i zero lt h = ground (arith, lt)
order_at-Falls previous command (entry ∷ names) c zero (suc j) lt h =
    order_at-before entry.name command names j c.1 h
order_at-Falls previous command (entry ∷ names) c (suc i) (suc j) lt h =
    order_at-Falls (some entry.name) command names c.1 i j (omega arith) h

place-lt :
    (order : ℕ → Ordering) (i middle : ℕ)
    → Falls order
    → order i ≡ Ordering.eq
    → is_gt (order middle) ≡ true
    → i < middle
place-lt order i middle falls e above = elim (dec_lt i middle) [
  | yes lt ↦ lt
  | no ge ↦ elim (dec_lt middle i) [
    | yes gt ↦ cc (falls middle i gt (rw e refl), above)
    | no le ↦ let same : i ≡ middle = omega arith in cc (rw same at e, above)
  ]
]

place-ge :
    (order : ℕ → Ordering) (i middle : ℕ)
    → Falls order
    → order i ≡ Ordering.eq
    → is_gt (order middle) ≡ false
    → middle ≤ i
place-ge order i middle falls e below = elim (dec_lt i middle) [
  | yes lt ↦ cc (falls i middle lt below, e)
  | no ge ↦ omega arith
]

-- The search ends at the place of an equal entry, if there is one in its range.
pub search_base-eq :
    (order : ℕ → Ordering) (fuel base size i : ℕ)
    → Falls order
    → size ≤ fuel
    → base ≤ i
    → i < base + size
    → order i ≡ Ordering.eq
    → search_base order fuel base size ≡ i
unfolding search_base
search_base-eq order zero base size i falls h le lt e = omega arith
search_base-eq order (suc fuel) base size i falls h le lt e =
    let middle = base + size / 2 in
    elim (Bool-cases (ltb 1 size)) [
      | inr small ↦ rw small (omega (arith, ltb→le size 1 small))
      | inl large ↦ elim (Bool-cases (is_gt (order middle))) [
        | inl above ↦
            rw (large, above)
              (search_base-eq order fuel base (size - size / 2) i falls
                (omega (arith, ltb→lt 1 size large)) le
                (omega (arith, place-lt order i middle falls e above)) e)
        | inr below ↦
            rw (large, below)
              (search_base-eq order fuel middle (size - size / 2) i falls
                (omega (arith, ltb→lt 1 size large)) (place-ge order i middle falls e below)
                (omega arith) e)
      ]
    ]

-- The block of the first entry with a name.
abbrev pub lookup_block : List NameEntry → Bytes → Option ℕ
lookup_block [] command = none
lookup_block (entry ∷ names) command =
    if bytes_eq entry.name command then some entry.block_id else lookup_block names command

-- A looked up block stands at the one place that compares equal.
lookup_block-place :
    (names : List NameEntry) (command : Bytes)
    → ((i : ℕ) × (i < length names)
        × (order_at names command i ≡ Ordering.eq)
        × (lookup_block names command ≡ block_at names command i))
      ⊎ ((lookup_block names command ≡ none) × ((i : ℕ) → block_at names command i ≡ none))
unfolding order_at
lookup_block-place [] command = inr (refl, λ i. refl)
lookup_block-place (entry ∷ names) command = elim (Bool-cases (bytes_eq entry.name command)) [
  | inl same ↦ inl (0, omega arith, compare_bytes-bytes_eq entry.name command same, rw same refl)
  | inr other ↦ elim (lookup_block-place names command) [
    | inl (i, lt, e, found) ↦ inl (suc i, omega arith, e, rw other found)
    | inr (absent, nowhere) ↦ inr (rw other absent, nothing other nowhere)
  ]
]
  where
    nothing :
        bytes_eq entry.name command ≡ false
        → ((i : ℕ) → block_at names command i ≡ none)
        → (i : ℕ) → block_at (entry ∷ names) command i ≡ none
    nothing other nowhere zero = rw other refl
    nothing other nowhere (suc i) = nowhere i

-- In an index with names in strict order, the binary search finds a command exactly as a search for the first entry
-- of its name does.
pub find_block-eq-lookup_block :
    (names : List NameEntry) (command : Bytes)
    → IsChain none names
    → find_block names command ≡ lookup_block names command
unfolding find_block
find_block-eq-lookup_block names command chain = elim (lookup_block-place names command) [
  | inl (i, lt, e, found) ↦
      rw
        (search_base-eq (order_at names command) (length names) 0 (length names) i
          (order_at-Falls none command names chain) (omega arith) (omega arith) (omega arith) e)
        (sym found)
  | inr (absent, nowhere) ↦ nowhere _ ∙ sym absent
]
