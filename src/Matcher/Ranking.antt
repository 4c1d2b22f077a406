-- ===== src/Matcher/Ranking.antt =====
-- Sorting and cutting back the candidates, in `finish` and `truncate` of completion/matcher.rs.
use Prim.Native.Nat.{Ordering}
use bash_lume.Base.{
  ℕ, zero, suc, ◌+◌, ◌≤◌, ◌≡◌, refl, ap, ◌∙◌, Bool, true, false, Bool-cases, inl, inr, List, [],
  ◌∷◌, Bytes, arith, length, drop, map, any, bytes_eq, bytes_eq_refl, leb, if◌then◌else◌,
}
use bash_lume.Base.Order.{
  not_after, reverse_order, not_after-reverse, then_with-reverse, compare-reverse,
  compare_ℤ-reverse, compare_bytes-reverse,
}
use bash_lume.Matcher.Candidate.{
  Candidate, sort_tier, compare_candidates, compare_ranked_candidates, order_within_class,
}
use bash_lume.Matcher.Sink.{
  CandidateSink, remove_entry, remove_all, insert_by, sort_by, beyond_limit, truncate,
}
use bash_lume.Matcher.Entries.{IsOrdered, IsFirst}

remove_entry-remove_entry :
    (a b : Bytes) (cs : List Candidate)
    → remove_entry a (remove_entry b cs) ≡ remove_entry b (remove_entry a cs)
unfolding remove_entry
remove_entry-remove_entry a b [] = refl
remove_entry-remove_entry a b (c ∷ cs) = ground (arith, remove_entry-remove_entry a b cs)

remove_entry-remove_all :
    (v : Bytes) (keys : List Bytes) (cs : List Candidate)
    → remove_all keys (remove_entry v cs) ≡ remove_entry v (remove_all keys cs)
unfolding remove_all
remove_entry-remove_all v [] cs = refl
remove_entry-remove_all v (key ∷ keys) cs =
    ap (remove_all keys) (remove_entry-remove_entry key v cs)
    ∙ remove_entry-remove_all v keys (remove_entry key cs)

-- Removing the keys of all entries leaves none.
remove_all-own : (cs : List Candidate) → remove_all (map (λ c. c.value) cs) cs ≡ []
unfolding remove_all remove_entry
remove_all-own [] = refl
remove_all-own (c ∷ cs) =
    let keys = map (λ (x : Candidate). x.value) cs in
    let others = remove_entry c.value cs in
    ap (λ b. remove_all keys (if b then others else c ∷ others)) (bytes_eq_refl c.value)
    ∙ remove_entry-remove_all c.value keys cs
    ∙ ap (remove_entry c.value) (remove_all-own cs)

-- What one entry adds to the number of those left.
abbrev survives : List Bytes → Candidate → ℕ
survives keys c = if any (bytes_eq c.value) keys then 0 else 1

length-remove_all-cons :
    (keys : List Bytes) (c : Candidate) (cs : List Candidate)
    → length (remove_all keys (c ∷ cs)) ≡ survives keys c + length (remove_all keys cs)
unfolding remove_all remove_entry
length-remove_all-cons [] c cs = omega arith
length-remove_all-cons (key ∷ keys) c cs = elim (Bool-cases (bytes_eq c.value key)) [
  | inl same ↦ rw same (omega arith)
  | inr other ↦ rw other (length-remove_all-cons keys c (remove_entry key cs))
]

length-remove_all-insert_by :
    (cmp : Candidate → Candidate → Ordering) (keys : List Bytes) (c : Candidate)
    (xs : List Candidate)
    → length (remove_all keys (insert_by cmp c xs)) ≡ length (remove_all keys (c ∷ xs))
unfolding insert_by
length-remove_all-insert_by cmp keys c [] = refl
length-remove_all-insert_by cmp keys c (x ∷ xs) = elim (Bool-cases (not_after (cmp c x))) [
  | inl before ↦ rw before refl
  | inr after ↦ rw after (
      omega (
        arith,
        length-remove_all-insert_by cmp keys c xs,
        length-remove_all-cons keys x (insert_by cmp c xs),
        length-remove_all-cons keys c (x ∷ xs),
        length-remove_all-cons keys x xs,
        length-remove_all-cons keys c xs,
      ))
]

length-remove_all-sort_by :
    (cmp : Candidate → Candidate → Ordering) (keys : List Bytes) (cs : List Candidate)
    → length (remove_all keys (sort_by cmp cs)) ≡ length (remove_all keys cs)
unfolding sort_by
length-remove_all-sort_by cmp keys [] = refl
length-remove_all-sort_by cmp keys (c ∷ cs) = omega (
  arith,
  length-remove_all-insert_by cmp keys c (sort_by cmp cs),
  length-remove_all-cons keys c (sort_by cmp cs),
  length-remove_all-cons keys c cs,
  length-remove_all-sort_by cmp keys cs,
)

pub length-sort_by :
    (cmp : Candidate → Candidate → Ordering) (cs : List Candidate)
    → length (sort_by cmp cs) ≡ length cs
unfolding remove_all
length-sort_by cmp cs = length-remove_all-sort_by cmp [] cs

-- Without the keys from some position on, at most the entries before it are left.
length-remove_all-drop :
    (n : ℕ) (cs : List Candidate) → length (remove_all (map (λ c. c.value) (drop n cs)) cs) ≤ n
unfolding remove_all
length-remove_all-drop zero cs = rw (remove_all-own cs) (omega arith)
length-remove_all-drop (suc n) [] = omega arith
length-remove_all-drop (suc n) (c ∷ cs) = ground (
  arith,
  length-remove_all-drop n cs,
  length-remove_all-cons (map (λ x. x.value) (drop n cs)) c cs,
)

pub length-truncate : (s : CandidateSink) → length (truncate s).candidates ≤ s.limit
unfolding truncate beyond_limit
length-truncate s = elim (Bool-cases (leb (length s.candidates) s.limit)) [
  | inl fits ↦ rw fits (ground arith)
  | inr over ↦
      let ranked = sort_by compare_candidates s.candidates in
      let keys = map (λ (c : Candidate). c.value) (drop s.limit ranked) in
      rw over (
        omega (
          arith,
          length-remove_all-drop s.limit ranked,
          length-remove_all-sort_by compare_candidates keys s.candidates,
        ))
]

module _ (cmp : Candidate → Candidate → Ordering) where
  insert_by-IsFirst :
      (c x : Candidate) (xs : List Candidate)
      → not_after (cmp x c) ≡ true
      → IsFirst cmp x xs
      → IsFirst cmp x (insert_by cmp c xs)
  unfolding insert_by
  insert_by-IsFirst c x [] h first = h
  insert_by-IsFirst c x (y ∷ ys) h first = elim (Bool-cases (not_after (cmp c y))) [
    | inl before ↦ rw before h
    | inr after ↦ rw after first
  ]

  module _ (fair : (a b : Candidate) → cmp b a ≡ reverse_order (cmp a b)) where
    insert_by-IsOrdered :
        (c : Candidate) (xs : List Candidate)
        → IsOrdered cmp xs
        → IsOrdered cmp (insert_by cmp c xs)
    unfolding insert_by
    insert_by-IsOrdered c [] h = (tt, tt)
    insert_by-IsOrdered c (x ∷ xs) h = elim (Bool-cases (not_after (cmp c x))) [
      | inl before ↦ rw before (before, h)
      | inr after ↦
          let x_first : not_after (cmp x c) ≡ true =
            rw (fair c x) (not_after-reverse (cmp c x) after) in
          rw after (insert_by-IsFirst c x xs x_first h.0, insert_by-IsOrdered c xs h.1)
    ]

    pub sort_by-IsOrdered : (cs : List Candidate) → IsOrdered cmp (sort_by cmp cs)
    unfolding sort_by
    sort_by-IsOrdered [] = tt
    sort_by-IsOrdered (c ∷ cs) = insert_by-IsOrdered c (sort_by cmp cs) (sort_by-IsOrdered cs)

pub compare_ranked_candidates-reverse :
    (a b : Candidate)
    → compare_ranked_candidates b a ≡ reverse_order (compare_ranked_candidates a b)
unfolding compare_ranked_candidates
compare_ranked_candidates-reverse a b =
    then_with-reverse _ _ _ _ (compare_ℤ-reverse b.score a.score) (
      then_with-reverse _ _ _ _ (compare-reverse (length a.display) (length b.display)) (
        then_with-reverse _ _ _ _ (compare_bytes-reverse a.display b.display)
          (compare_bytes-reverse a.value b.value)))

order_within_class-reverse :
    (p q : Bool) (a b : Candidate)
    → order_within_class q p b a ≡ reverse_order (order_within_class p q a b)
order_within_class-reverse true true a b = compare-reverse a.insertion_order b.insertion_order
order_within_class-reverse true false a b = refl
order_within_class-reverse false true a b = refl
order_within_class-reverse false false a b = compare_ranked_candidates-reverse a b

pub compare_candidates-reverse :
    (a b : Candidate) → compare_candidates b a ≡ reverse_order (compare_candidates a b)
unfolding compare_candidates
compare_candidates-reverse a b =
    then_with-reverse _ _ _ _ (compare-reverse (sort_tier b.match_class) (sort_tier a.match_class))
      (order_within_class-reverse a.preserve_order b.preserve_order a b)
