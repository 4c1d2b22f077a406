-- ===== src/Matcher/Entries.antt =====
-- The candidate set of completion/matcher.rs as a set keyed by value: lookups, removals and sorting.
use Prim.Native.Nat.{Ordering}
use mathlib.Core.Path.{subst}
use bash_lume.Base.{
  suc, ◌≤◌, ◌≡◌, ap, ◌∙◌, true, false, Bool-cases, inl, inr, Option, none, some, List, [], ◌∷◌,
  Bytes, arith, length, All, bytes_eq, bytes_eq_comm,
}
use bash_lume.Base.Order.{not_after}
use bash_lume.Matcher.Candidate.{Candidate}
use bash_lume.Matcher.Sink.{find_entry, remove_entry, remove_all, insert_by, sort_by}

some_injective : (x y : Candidate) → ◌≡◌ {A = Option Candidate} (some x) (some y) → x ≡ y
some_injective x y h = ap (λ o. elim o [ none ↦ x | some z ↦ z ]) h

-- No two entries have the same value.
abbrev pub IsFresh : Bytes → List Candidate → Type 0
IsFresh key = All (λ c. bytes_eq c.value key ≡ false)

abbrev pub IsDistinct : List Candidate → Type 0
IsDistinct [] = Unit
IsDistinct (c ∷ cs) = IsFresh c.value cs × IsDistinct cs

-- No entry comes after its successor.
abbrev pub IsFirst : (Candidate → Candidate → Ordering) → Candidate → List Candidate → Type 0
IsFirst cmp c [] = Unit
IsFirst cmp c (x ∷ xs) = not_after (cmp c x) ≡ true

abbrev pub IsOrdered : (Candidate → Candidate → Ordering) → List Candidate → Type 0
IsOrdered cmp [] = Unit
IsOrdered cmp (c ∷ cs) = IsFirst cmp c cs × IsOrdered cmp cs

pub find_entry-none :
    (key : Bytes) (cs : List Candidate) → find_entry key cs ≡ none → IsFresh key cs
unfolding find_entry
find_entry-none key [] h = tt
find_entry-none key (c ∷ cs) h = elim (Bool-cases (bytes_eq c.value key)) [
  | inl same ↦ cc (h, same)
  | inr other ↦ (other, find_entry-none key cs (rw other at h))
]

module _ (P : Candidate → Type 0) where
  pub All-find_entry :
      (key : Bytes) (cs : List Candidate) (c : Candidate)
      → find_entry key cs ≡ some c
      → All P cs
      → P c × (bytes_eq c.value key ≡ true)
  unfolding find_entry
  All-find_entry key [] c h ps = cc
  All-find_entry key (x ∷ xs) c h ps = elim (Bool-cases (bytes_eq x.value key)) [
    | inl same ↦
        let e : x ≡ c = some_injective x c (rw same at h) in
        subst (λ y. P y × (bytes_eq y.value key ≡ true)) e (ps.0, same)
    | inr other ↦ All-find_entry key xs c (rw other at h) ps.1
  ]

  pub All-remove_entry :
      (key : Bytes) (cs : List Candidate) → All P cs → All P (remove_entry key cs)
  unfolding remove_entry
  All-remove_entry key [] ps = tt
  All-remove_entry key (c ∷ cs) ps = elim (Bool-cases (bytes_eq c.value key)) [
    | inl same ↦ rw same (All-remove_entry key cs ps.1)
    | inr other ↦ rw other (ps.0, All-remove_entry key cs ps.1)
  ]

  pub All-remove_all :
      (keys : List Bytes) (cs : List Candidate) → All P cs → All P (remove_all keys cs)
  unfolding remove_all
  All-remove_all [] cs ps = ps
  All-remove_all (key ∷ keys) cs ps =
      All-remove_all keys (remove_entry key cs) (All-remove_entry key cs ps)

  All-insert_by :
      (cmp : Candidate → Candidate → Ordering) (c : Candidate) (xs : List Candidate)
      → P c
      → All P xs
      → All P (insert_by cmp c xs)
  unfolding insert_by
  All-insert_by cmp c [] p ps = (p, tt)
  All-insert_by cmp c (x ∷ xs) p ps = elim (Bool-cases (not_after (cmp c x))) [
    | inl before ↦ rw before (p, ps)
    | inr after ↦ rw after (ps.0, All-insert_by cmp c xs p ps.1)
  ]

  pub All-sort_by :
      (cmp : Candidate → Candidate → Ordering) (cs : List Candidate)
      → All P cs
      → All P (sort_by cmp cs)
  unfolding sort_by
  All-sort_by cmp [] ps = tt
  All-sort_by cmp (c ∷ cs) ps = All-insert_by cmp c (sort_by cmp cs) ps.0 (All-sort_by cmp cs ps.1)

pub IsFresh-remove_entry : (key : Bytes) (cs : List Candidate) → IsFresh key (remove_entry key cs)
unfolding remove_entry
IsFresh-remove_entry key [] = tt
IsFresh-remove_entry key (c ∷ cs) = elim (Bool-cases (bytes_eq c.value key)) [
  | inl same ↦ rw same (IsFresh-remove_entry key cs)
  | inr other ↦ rw other (other, IsFresh-remove_entry key cs)
]

pub IsDistinct-remove_entry :
    (key : Bytes) (cs : List Candidate) → IsDistinct cs → IsDistinct (remove_entry key cs)
unfolding remove_entry
IsDistinct-remove_entry key [] d = tt
IsDistinct-remove_entry key (c ∷ cs) d = elim (Bool-cases (bytes_eq c.value key)) [
  | inl same ↦ rw same (IsDistinct-remove_entry key cs d.1)
  | inr other ↦ rw other (
    All-remove_entry (λ x. bytes_eq x.value c.value ≡ false) key cs d.0,
    IsDistinct-remove_entry key cs d.1,
  )
]

pub IsDistinct-remove_all :
    (keys : List Bytes) (cs : List Candidate) → IsDistinct cs → IsDistinct (remove_all keys cs)
unfolding remove_all
IsDistinct-remove_all [] cs d = d
IsDistinct-remove_all (key ∷ keys) cs d =
    IsDistinct-remove_all keys (remove_entry key cs) (IsDistinct-remove_entry key cs d)

IsDistinct-insert_by :
    (cmp : Candidate → Candidate → Ordering) (c : Candidate) (xs : List Candidate)
    → IsFresh c.value xs
    → IsDistinct xs
    → IsDistinct (insert_by cmp c xs)
unfolding insert_by
IsDistinct-insert_by cmp c [] f d = (tt, tt)
IsDistinct-insert_by cmp c (x ∷ xs) f d = elim (Bool-cases (not_after (cmp c x))) [
  | inl before ↦ rw before (f, d)
  | inr after ↦ rw after (
    All-insert_by (λ y. bytes_eq y.value x.value ≡ false) cmp c xs
        (bytes_eq_comm c.value x.value ∙ f.0) d.0,
    IsDistinct-insert_by cmp c xs f.1 d.1,
  )
]

pub IsDistinct-sort_by :
    (cmp : Candidate → Candidate → Ordering) (cs : List Candidate)
    → IsDistinct cs
    → IsDistinct (sort_by cmp cs)
unfolding sort_by
IsDistinct-sort_by cmp [] d = tt
IsDistinct-sort_by cmp (c ∷ cs) d =
    IsDistinct-insert_by cmp c (sort_by cmp cs)
      (All-sort_by (λ x. bytes_eq x.value c.value ≡ false) cmp cs d.0)
      (IsDistinct-sort_by cmp cs d.1)

pub length-remove_entry :
    (key : Bytes) (cs : List Candidate) → length (remove_entry key cs) ≤ length cs
unfolding remove_entry
length-remove_entry key [] = omega arith
length-remove_entry key (c ∷ cs) = ground (arith, length-remove_entry key cs)

-- Removing an entry that is there makes room for one.
pub length-remove_entry_found :
    (key : Bytes) (cs : List Candidate) (c : Candidate)
    → find_entry key cs ≡ some c
    → suc (length (remove_entry key cs)) ≤ length cs
unfolding find_entry remove_entry
length-remove_entry_found key [] c h = cc
length-remove_entry_found key (x ∷ xs) c h = elim (Bool-cases (bytes_eq x.value key)) [
  | inl same ↦ rw same (omega (arith, length-remove_entry key xs))
  | inr other ↦ rw other (omega (arith, length-remove_entry_found key xs c (rw other at h)))
]
