-- ===== src/Matcher/FuzzyLaws.antt =====
-- The fuzzy search of completion/matcher.rs against subsequences.
use mathlib.Core.Logic.{◌↔◌}
use bash_lume.Base.{
  ℕ, ◌+◌, ◌≡◌, ◌⊎◌, refl, false, Bool-cases, inl, inr, some, List, [], ◌∷◌, Bytes, arith, length,
  ◌==◌, ==→eq,
}
use bash_lume.Base.Int.{ℤ}
use bash_lume.Base.Utf8.{chars}
use bash_lume.Matcher.Score.{
  Tally, no_matches, count_match, tally_score, fuzzy_from, fuzzy_folded, flat_map,
}
use bash_lume.Matcher.Match.{Casing, fuzzy_score}

-- The wanted characters occur in the text in their order.
abbrev pub IsSubsequence : List ℕ → List ℕ → Type 0
IsSubsequence [] text = Unit
IsSubsequence (w ∷ ws) [] = ⊥
IsSubsequence (w ∷ ws) (c ∷ cs) = ((c ≡ w) × IsSubsequence ws cs) ⊎ IsSubsequence (w ∷ ws) cs

IsSubsequence-tail : (w : ℕ) (ws cs : List ℕ) → IsSubsequence (w ∷ ws) cs → IsSubsequence ws cs
IsSubsequence-tail w [] cs h = tt
IsSubsequence-tail w (v ∷ ws) [] h = h
IsSubsequence-tail w (v ∷ ws) (c ∷ cs) (inl (e, h)) = inr h
IsSubsequence-tail w (v ∷ ws) (c ∷ cs) (inr h) = inr (IsSubsequence-tail w (v ∷ ws) cs h)

-- After a match of the first wanted character the rest is wanted of what follows.
IsSubsequence-greedy :
    (w : ℕ) (ws : List ℕ) (c : ℕ) (cs : List ℕ)
    → IsSubsequence (w ∷ ws) (c ∷ cs)
    → IsSubsequence ws cs
IsSubsequence-greedy w ws c cs (inl (e, h)) = h
IsSubsequence-greedy w ws c cs (inr h) = IsSubsequence-tail w ws cs h

IsSubsequence-skip :
    (w : ℕ) (ws : List ℕ) (c : ℕ) (cs : List ℕ)
    → (c == w) ≡ false
    → IsSubsequence (w ∷ ws) (c ∷ cs)
    → IsSubsequence (w ∷ ws) cs
IsSubsequence-skip w ws c cs other (inl (e, h)) = absurd (ground arith)
IsSubsequence-skip w ws c cs other (inr h) = h

fuzzy_from-some :
    (size index current : ℕ) (wanted : List ℕ) (t : Tally) (text : List ℕ)
    → IsSubsequence (current ∷ wanted) text
    → (score : ℤ) × (fuzzy_from size index current wanted t text ≡ some score)
unfolding fuzzy_from
fuzzy_from-some size index current wanted t [] h = absurd h
fuzzy_from-some size index current [] t (c ∷ cs) h = elim (Bool-cases (c == current)) [
  | inl same ↦ (tally_score (count_match index t) size, rw (same, fuzzy_from) refl)
  | inr other ↦
      rw (other, fuzzy_from)
        (fuzzy_from-some size (index + 1) current [] t cs
          (IsSubsequence-skip current [] c cs other h))
]
fuzzy_from-some size index current (next ∷ rest) t (c ∷ cs) h = elim (Bool-cases (c == current)) [
  | inl same ↦
      rw (same, fuzzy_from)
        (fuzzy_from-some size (index + 1) next rest (count_match index t) cs
          (IsSubsequence-greedy current (next ∷ rest) c cs h))
  | inr other ↦
      rw (other, fuzzy_from)
        (fuzzy_from-some size (index + 1) current (next ∷ rest) t cs
          (IsSubsequence-skip current (next ∷ rest) c cs other h))
]

fuzzy_from-IsSubsequence :
    (size index current : ℕ) (wanted : List ℕ) (t : Tally) (text : List ℕ) (score : ℤ)
    → fuzzy_from size index current wanted t text ≡ some score
    → IsSubsequence (current ∷ wanted) text
unfolding fuzzy_from
fuzzy_from-IsSubsequence size index current wanted t [] score h = cc
fuzzy_from-IsSubsequence size index current [] t (c ∷ cs) score h =
    elim (Bool-cases (c == current)) [
      | inl same ↦ inl (==→eq c current same, tt)
      | inr other ↦ inr (
          fuzzy_from-IsSubsequence size (index + 1) current [] t cs score
            (rw (other, fuzzy_from) at h))
    ]
fuzzy_from-IsSubsequence size index current (next ∷ rest) t (c ∷ cs) score h =
    elim (Bool-cases (c == current)) [
      | inl same ↦ inl (
        ==→eq c current same,
        fuzzy_from-IsSubsequence size (index + 1) next rest (count_match index t) cs score
            (rw (same, fuzzy_from) at h),
      )
      | inr other ↦ inr (
          fuzzy_from-IsSubsequence size (index + 1) current (next ∷ rest) t cs score
            (rw (other, fuzzy_from) at h))
    ]

-- For a query whose folded characters are not empty: the fuzzy search gives a score exactly where they occur in
-- this order among the folded characters of the candidate.
pub fuzzy_score-IsSubsequence :
    (C : Casing) (b : ℕ) (query candidate : Bytes) (w : ℕ) (ws : List ℕ)
    → flat_map C.char_lower (chars (b ∷ query)) ≡ w ∷ ws
    → ((score : ℤ) × (fuzzy_score C (b ∷ query) candidate ≡ some score))
      ↔ IsSubsequence (w ∷ ws) (flat_map C.char_lower (chars candidate))
unfolding fuzzy_score fuzzy_folded
fuzzy_score-IsSubsequence C b query candidate w ws e =
    let text = flat_map C.char_lower (chars candidate) in
    let size = length (chars candidate) in
    rw e (
      λ (score, h). fuzzy_from-IsSubsequence size 0 w ws no_matches text score h,
      λ h. fuzzy_from-some size 0 w ws no_matches text h,
    )
