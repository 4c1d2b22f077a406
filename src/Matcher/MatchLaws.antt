-- ===== src/Matcher/MatchLaws.antt =====
-- The classes that `match_score` of completion/matcher.rs gives.
use bash_lume.Base.{
  ℕ, ◌-◌, ◌≡◌, refl, sym, ap, ◌∙◌, Bool, true, false, ◌&&◌, not, Bool-cases, inl, inr, if-All,
  Option, none, some, [], ◌∷◌, Bytes, arith, length, take, ◌==◌, bytes_eq, bytes_eq→eq,
  bytes_eq_refl, if◌then◌else◌, leb,
}
use bash_lume.Base.Int.{ℤ, pos, sub_ℕ}
use bash_lume.Matcher.Candidate.{MatchClass}
use bash_lume.Matcher.Score.{
  is_ascii, has_last, eq_ignore_ascii_case, starts_with, find_from, ascii_result, fuzzy_class,
  substring_score, match_ascii_substring_and_fuzzy,
}
use bash_lume.Matcher.Match.{
  Casing, prefix_class, fuzzy_score, match_folded, match_ascii, match_unicode, match_score,
}

starts_with-take :
    (text prefix : Bytes) → starts_with text prefix ≡ bytes_eq (take (length prefix) text) prefix
unfolding starts_with
starts_with-take [] [] = refl
starts_with-take (b ∷ text) [] = refl
starts_with-take [] (p ∷ prefix) = refl
starts_with-take (b ∷ text) (p ∷ prefix) = ap (λ t. b == p && t) (starts_with-take text prefix)

eq_ignore_ascii_case_refl : (text : Bytes) → eq_ignore_ascii_case text text ≡ true
unfolding eq_ignore_ascii_case
eq_ignore_ascii_case_refl [] = refl
eq_ignore_ascii_case_refl (b ∷ text) = ground (arith, eq_ignore_ascii_case_refl text)

abbrev pub is_strong : MatchClass → Bool
is_strong MatchClass.exact = true
is_strong MatchClass.prefix = true
is_strong _ = false

-- No exact match and no prefix match.
abbrev IsWeak : Option (MatchClass × ℤ) → Type 0
IsWeak none = Unit
IsWeak (some (class, score)) = is_strong class ≡ false

fuzzy_class-IsWeak : (score : Option ℤ) → IsWeak (fuzzy_class score)
fuzzy_class-IsWeak none = tt
fuzzy_class-IsWeak (some s) = refl

ascii_result-IsWeak :
    (position : Option ℕ) (score : Option ℤ) (size : ℕ) → IsWeak (ascii_result position score size)
ascii_result-IsWeak none score size = fuzzy_class-IsWeak score
ascii_result-IsWeak (some p) score size = refl

match_ascii_substring_and_fuzzy-IsWeak :
    (query candidate : Bytes) → IsWeak (match_ascii_substring_and_fuzzy query candidate).1
unfolding match_ascii_substring_and_fuzzy
match_ascii_substring_and_fuzzy-IsWeak [] candidate = tt
match_ascii_substring_and_fuzzy-IsWeak (b ∷ rest) candidate =
    let WeakScore : Bool × Option (MatchClass × ℤ) → Type 0 = λ r. IsWeak r.1 in
    if-All WeakScore (not (is_ascii candidate)) (λ _. tt)
      (λ _.
        if-All WeakScore (leb 3 (length (b ∷ rest)) && not (has_last b rest candidate)) (λ _. tt)
          (λ _. ascii_result-IsWeak _ _ (length candidate)))

module _ (C : Casing) where
  match_folded-IsWeak : (query candidate : Bytes) → IsWeak (match_folded C query candidate)
  unfolding match_folded
  match_folded-IsWeak query candidate =
      folded (find_from 0 (C.text_lower candidate) (C.text_lower query))
    where
      folded :
          (found : Option ℕ)
          → IsWeak (elim found [
            | some position ↦ some (substring_score position (length candidate))
            | none ↦ fuzzy_class (fuzzy_score C query candidate)
          ])
      folded none = fuzzy_class-IsWeak (fuzzy_score C query candidate)
      folded (some p) = refl

  -- A candidate that starts with the query is an exact match if the query is all of it, and else a prefix match,
  -- on both branches.
  match_score-prefix :
      (query candidate : Bytes)
      → starts_with candidate query ≡ true
      → match_score C query candidate ≡ prefix_class true query candidate
  unfolding match_score match_ascii match_unicode
  match_score-prefix query candidate h =
      let same : bytes_eq (take (length query) candidate) query ≡ true =
        sym (starts_with-take candidate query) ∙ h in
      let e = bytes_eq→eq (take (length query) candidate) query same in
      elim (Bool-cases (is_ascii query)) [
        | inl ascii ↦
            rw ascii (rw e (rw (eq_ignore_ascii_case_refl query, bytes_eq_refl query) refl))
        | inr other ↦ rw (other, h) refl
      ]

  match_score-IsWeak :
      (query candidate : Bytes)
      → starts_with candidate query ≡ false
      → IsWeak (match_score C query candidate)
  unfolding match_score match_ascii match_unicode prefix_class
  match_score-IsWeak query candidate h =
      let other : bytes_eq (take (length query) candidate) query ≡ false =
        sym (starts_with-take candidate query) ∙ h in
      let folded = match_folded-IsWeak query candidate in
      rw (h, other)
        (if-All IsWeak (is_ascii query)
          (λ ascii.
            if-All IsWeak (eq_ignore_ascii_case (take (length query) candidate) query) (λ _. refl)
              (λ _.
                if-All IsWeak (match_ascii_substring_and_fuzzy query candidate).0
                  (λ _. match_ascii_substring_and_fuzzy-IsWeak query candidate) (λ _. folded)))
          (λ unicode.
            if-All IsWeak (eq_ignore_ascii_case (take (length query) candidate) query) (λ _. refl)
              (λ _. folded)))

  -- A candidate that starts with the query is an exact match with score 5000000 if it is as long as the query, and
  -- else a prefix match, whose score is 4000000 less the number of bytes that follow the query.
  pub match_score-starts_with :
      (query candidate : Bytes)
      → starts_with candidate query ≡ true
      → match_score C query candidate ≡ (
          if length candidate == length query
          then some (MatchClass.exact, pos 5000000)
          else some (MatchClass.prefix, sub_ℕ 4000000 (length candidate - length query)))
  unfolding prefix_class
  match_score-starts_with query candidate h = match_score-prefix query candidate h

  -- A candidate that does not start with the query matches it neither exactly nor as a prefix.
  pub match_score_weak :
      (query candidate : Bytes) (class : MatchClass) (score : ℤ)
      → starts_with candidate query ≡ false
      → match_score C query candidate ≡ some (class, score)
      → is_strong class ≡ false
  match_score_weak query candidate class score h e = rw e at (match_score-IsWeak query candidate h)
