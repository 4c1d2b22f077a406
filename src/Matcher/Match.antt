-- ===== src/Matcher/Match.antt =====
-- `match_score` and the constructors of `Candidate` in completion/matcher.rs. The mappings to lower case of
-- `char` and `str`, which Unicode's tables define, are a parameter.
use bash_lume.Base.{
  ℕ, ◌+◌, ◌-◌, Bool, true, false, ◌&&◌, ◌||◌, not, Option, none, some, List, [], ◌∷◌, Bytes, length,
  ltb, leb, ◌==◌, any, take, map, bytes_eq, if◌then◌else◌,
}
use bash_lume.Base.Int.{ℤ, pos, sub_ℕ}
use bash_lume.Base.Utf8.{chars, utf8_bytes, is_control, is_whitespace}
use bash_lume.Matcher.Candidate.{MatchClass, CandidateKind, Candidate, matched}
use bash_lume.Matcher.Score.{
  is_ascii, eq_ignore_ascii_case, starts_with, find_from, flat_map, fuzzy_folded, fuzzy_class,
  substring_score, match_ascii_substring_and_fuzzy,
}

pub record Casing : Type 0 where
  pub char_lower : ℕ → List ℕ
  pub text_lower : Bytes → Bytes

abbrev pub max_candidate_text_bytes : ℕ
max_candidate_text_bytes = 65536

unfoldable pub candidate_text_size_is_safe : Bytes → Bool
candidate_text_size_is_safe value =
    ltb 0 (length value) && leb (length value) max_candidate_text_bytes

-- `is_ascii_control`
abbrev pub is_ascii_control : ℕ → Bool
is_ascii_control b = ltb b 32 || b == 127

unfoldable pub candidate_text_has_control : Bytes → Bool
candidate_text_has_control value =
    any is_ascii_control value || (not (is_ascii value) && any is_control (chars value))

abbrev pub prefix_result : MatchClass → ℕ → Bytes → Bytes → Option (MatchClass × ℤ)
prefix_result class base query candidate =
    some (class, sub_ℕ base (length candidate - length query))

abbrev pub exact_result : Option (MatchClass × ℤ)
exact_result = some (MatchClass.exact, pos 5000000)

-- A candidate that starts with the query, in these bytes or up to case.
unfoldable pub prefix_class : Bool → Bytes → Bytes → Option (MatchClass × ℤ)
prefix_class same query candidate =
    if same
    then (if length candidate == length query
        then exact_result
        else prefix_result MatchClass.prefix 4000000 query candidate)
    else prefix_result MatchClass.case_insensitive_prefix 3000000 query candidate

module _ (C : Casing) where
  open C use {char_lower, text_lower}

  unfoldable pub fuzzy_score : Bytes → Bytes → Option ℤ
  unfolding fuzzy_folded flat_map
  fuzzy_score [] candidate = some (sub_ℕ 0 (length candidate))
  fuzzy_score (b ∷ query) candidate =
      fuzzy_folded (length (chars candidate)) (flat_map char_lower (chars (b ∷ query)))
        (flat_map char_lower (chars candidate))

  unfoldable pub match_folded : Bytes → Bytes → Option (MatchClass × ℤ)
  unfolding fuzzy_score find_from
  match_folded query candidate = elim (find_from 0 (text_lower candidate) (text_lower query)) [
    | some position ↦ some (substring_score position (length candidate))
    | none ↦ fuzzy_class (fuzzy_score query candidate)
  ]

  -- The branch of an ASCII query. A prefix as long as the query is compared.
  unfoldable pub match_ascii : Bytes → Bytes → Option (MatchClass × ℤ)
  unfolding match_folded prefix_class match_ascii_substring_and_fuzzy eq_ignore_ascii_case
  match_ascii query candidate =
      let prefix = take (length query) candidate in
      if eq_ignore_ascii_case prefix query
      then prefix_class (bytes_eq prefix query) query candidate
      else (let (candidate_is_ascii, score) = match_ascii_substring_and_fuzzy query candidate in
          if candidate_is_ascii then score else match_folded query candidate)

  -- The branch of any other query. A prefix that equals the query up to ASCII case ends at a character
  -- boundary, as the query does.
  unfoldable pub match_unicode : Bytes → Bytes → Option (MatchClass × ℤ)
  unfolding match_folded prefix_class starts_with eq_ignore_ascii_case
  match_unicode query candidate =
      if starts_with candidate query
      then prefix_class true query candidate
      else if eq_ignore_ascii_case (take (length query) candidate) query
      then prefix_class false query candidate
      else match_folded query candidate

  unfoldable pub match_score : Bytes → Bytes → Option (MatchClass × ℤ)
  unfolding match_ascii match_unicode
  match_score query candidate =
      if is_ascii query then match_ascii query candidate else match_unicode query candidate

  -- With the score of the display text; a text that is both is tested once.
  unfoldable pub scored :
      Bytes → Bytes → CandidateKind → Bool → ℤ → Bool → Option (MatchClass × ℤ) → Option Candidate
  unfolding candidate_text_has_control matched
  scored display value kind append_space recency_bonus same_text none = none
  scored display value kind append_space recency_bonus same_text (some (match_class, match_score)) =
      if candidate_text_has_control display || (not same_text && candidate_text_has_control value)
      then none
      else some (matched display value kind append_space recency_bonus match_class match_score)

  -- `Candidate::new`
  unfoldable pub new_candidate : Bytes → Bytes → Bytes → CandidateKind → Bool → ℤ → Option Candidate
  unfolding scored match_score candidate_text_size_is_safe
  new_candidate query display value kind append_space recency_bonus =
      if not (candidate_text_size_is_safe display) || not (candidate_text_size_is_safe value)
      then none
      else scored display value kind append_space recency_bonus (bytes_eq display value)
          (match_score query display)

  -- `Candidate::from_borrowed`; `same_text` says that both texts are one piece of memory.
  unfoldable pub from_borrowed :
      Bytes → Bytes → Bytes → Bool → CandidateKind → Bool → ℤ → Option Candidate
  unfolding scored match_score candidate_text_size_is_safe
  from_borrowed query display value same_text kind append_space recency_bonus =
      if not (candidate_text_size_is_safe display) || not (candidate_text_size_is_safe value)
      then none
      else scored display value kind append_space recency_bonus same_text
          (match_score query display)

unfoldable pub with_source_mask : Candidate → ℕ → Candidate
with_source_mask c source_mask = record c { source_mask = source_mask }

unfoldable pub with_preserve_order : Candidate → Bool → Candidate
with_preserve_order c preserve_order = record c { preserve_order = preserve_order }

-- The largest start of a character up to the limit, with the start of the next one.
unfoldable pub cut_at : ℕ → ℕ → List ℕ → ℕ
cut_at limit index [] = 0
cut_at limit index (c ∷ cs) =
    let later = cut_at limit (index + length (utf8_bytes (c ∷ []))) cs in
    if leb index limit then (if leb later index then index else later) else 0

-- `trim_end`
unfoldable pub trim_end : List ℕ → List ℕ
trim_end [] = []
trim_end (c ∷ cs) = elim (trim_end cs) [
  | [] ↦ if is_whitespace c then [] else c ∷ []
  | d ∷ ds ↦ c ∷ d ∷ ds
]

-- Control characters become spaces; a long description is cut at a character and trimmed.
unfoldable pub clean_description : Bytes → Bytes
unfolding cut_at trim_end
clean_description description =
    let text = map (λ c. if is_control c then b' ' else c) (chars description) in
    let bytes = utf8_bytes text in
    if ltb max_candidate_text_bytes (length bytes)
    then utf8_bytes (trim_end (chars (take (cut_at max_candidate_text_bytes 0 text) bytes)))
    else bytes

unfoldable pub described : Candidate → Bytes → Candidate
described c [] = c
described c (b ∷ bs) = record c { description = some (b ∷ bs) }

unfoldable pub with_description : Candidate → Bytes → Candidate
unfolding clean_description described
with_description c description = described c (clean_description description)
