-- ===== src/Context/LeafLaws.antt =====
-- The parent and the leaf of a query, in completion/context.rs.
use mathlib.Core.Path.{subst}
use mathlib.Core.List.{append_assoc}
use bash_lume.Base.{
  length-append, take-append_length, drop-append_length, eq→==, ℕ, zero, suc, ◌≡◌, ◌⊎◌, ◌↔◌, refl,
  ap, ◌∙◌, false, Option, none, some, [], ◌∷◌, ◌++◌, arith, length, drop, take, ◌==◌, ==→eq,
  or-eq-false, Bool-cases, inl, inr, if◌then◌else◌,
}
use bash_lume.Context.Quoting.{Text}
use bash_lume.Context.Words.{contains}
use bash_lume.Context.Segment.{rfind, split_after, typed_parent_and_leaf}

-- Nothing, or a text that ends with the character.
abbrev pub IsClosed : ℕ → Text → Type 0
IsClosed c text = (text ≡ []) ⊎ ((inner : Text) × (text ≡ inner ++ c ∷ []))

-- A text in two parts: the first one is nothing or ends with the character, the second one does not have it.
pub record IsSplit (c : ℕ) (text first second : Text) : Type 0 where
  pub joined : first ++ second ≡ text
  pub closed : IsClosed c first
  pub without : contains c second ≡ false

take-drop : (n : ℕ) (xs : Text) → take n xs ++ drop n xs ≡ xs
take-drop zero xs = refl
take-drop (suc n) [] = refl
take-drop (suc n) (x ∷ xs) = ap (λ t. x ∷ t) (take-drop n xs)

-- The last occurrence ends a part, and the rest does not have the character, as the whole does not if there is none.
abbrev IsLast : ℕ → Text → Option ℕ → Type 0
IsLast c text none = contains c text ≡ false
IsLast c text (some index) =
    ((inner : Text) × (take (suc index) text ≡ inner ++ c ∷ []))
    × (contains c (drop (suc index) text) ≡ false)

rfind-step :
    (c d : ℕ) (rest : Text) (found : Option ℕ)
    → IsLast c rest found
    → IsLast c
        (d ∷ rest)
        (elim found [ some index ↦ some (suc index) | none ↦ if d == c then some 0 else none ])
rfind-step c d rest (some index) ((inner, e), h) = ((d ∷ inner, ap (λ t. d ∷ t) e), h)
rfind-step c d rest none h = elim (Bool-cases (d == c)) [
  | inl same ↦ rw same (([], ap (λ n. n ∷ []) (==→eq d c same)), h)
  | inr other ↦ rw (other, other) h
]

rfind-IsLast : (c : ℕ) (text : Text) → IsLast c text (rfind c text)
unfolding rfind
rfind-IsLast c [] = refl
rfind-IsLast c (d ∷ rest) = rfind-step c d rest (rfind c rest) (rfind-IsLast c rest)

split_after-IsSplit :
    (c : ℕ) (text : Text) (found : Option ℕ)
    → IsLast c text found
    → IsSplit c text (split_after text found).0 (split_after text found).1
unfolding split_after
split_after-IsSplit c text (some index) (closed, without) = record {
  joined = take-drop (suc index) text;
  closed = inr closed;
  without = without;
}
split_after-IsSplit c text none h = record { joined = refl; closed = inl refl; without = h }

rfind-none : (c : ℕ) (text : Text) → contains c text ≡ false → rfind c text ≡ none
unfolding rfind
rfind-none c [] h = refl
rfind-none c (d ∷ rest) h =
    let (other, later) = or-eq-false (d == c) (contains c rest) h in
    rw (rfind-none c rest later, other) refl

rfind-some :
    (c : ℕ) (inner second : Text)
    → contains c second ≡ false
    → rfind c (inner ++ c ∷ second) ≡ some (length inner)
unfolding rfind
rfind-some c [] second h = rw (rfind-none c second h, eq→== c c refl) refl
rfind-some c (d ∷ inner) second h = rw (rfind-some c inner second h) refl

split_after_unique :
    (c : ℕ) (first second : Text)
    → IsClosed c first
    → contains c second ≡ false
    → split_after (first ++ second) (rfind c (first ++ second)) ≡ (first, second)
unfolding split_after
split_after_unique c first second (inl e) h = rw e (rw (rfind-none c second h) refl)
split_after_unique c first second (inr (inner, e)) h =
    let found : rfind c (first ++ second) ≡ some (length inner) =
      ap (λ t. rfind c (t ++ second)) e
      ∙ (ap (rfind c) (append_assoc inner (c ∷ []) second) ∙ rfind-some c inner second h) in
    let size : suc (length inner) ≡ length first =
      let n = length-append inner (c ∷ []) in let m = ap length e in omega (arith, n, m) in
    ap (split_after (first ++ second)) found
    ∙ (ap (λ n. (take n (first ++ second), drop n (first ++ second))) size
        ∙ (ap (λ t. (t, drop (length first) (first ++ second))) (take-append_length first second)
            ∙ ap (λ t. (first, t)) (drop-append_length first second)))

-- The typed parent and leaf of a query are those two texts, and no others, that together are the query, of which the
-- parent is nothing or ends with a slash, and the leaf has no slash.
pub typed_parent_and_leaf-IsSplit :
    (query parent leaf : Text)
    → (typed_parent_and_leaf query ≡ (parent, leaf)) ↔ IsSplit b'/' query parent leaf
unfolding typed_parent_and_leaf
typed_parent_and_leaf-IsSplit query parent leaf = (
  (λ e.
      subst (λ s. IsSplit b'/' query s.0 s.1) e
        (split_after-IsSplit b'/' query (rfind b'/' query) (rfind-IsLast b'/' query))),
  (λ (h : IsSplit b'/' query parent leaf).
      subst (λ q. split_after q (rfind b'/' q) ≡ (parent, leaf)) h.joined
        (split_after_unique b'/' parent leaf h.closed h.without)),
)
