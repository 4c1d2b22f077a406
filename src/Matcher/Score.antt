-- ===== src/Matcher/Score.antt =====
-- `match_score`, `match_ascii_substring_and_fuzzy` and `fuzzy_score` of completion/matcher.rs. Texts are their
-- bytes. Scores are i64 in the source; texts of candidates are short enough that no score leaves its range.
use bash_lume.Base.{
  ℕ, ◌+◌, ◌-◌, ◌*◌, Bool, true, false, ◌&&◌, ◌||◌, not, Option, none, some, List, [], ◌∷◌, ◌++◌,
  Bytes, length, ltb, leb, ◌==◌, any, all, map, take, if◌then◌else◌,
}
use bash_lume.Base.Int.{ℤ, pos, sub_ℕ, ◌+ℤ◌}
use bash_lume.Matcher.Candidate.{MatchClass}

abbrev pub max_ascii_substring_comparisons : ℕ
max_ascii_substring_comparisons = 65536

-- `to_ascii_lowercase`
abbrev pub ascii_lower : ℕ → ℕ
ascii_lower b = if leb b'A' b && leb b b'Z' then b + 32 else b

abbrev pub is_ascii : Bytes → Bool
is_ascii = all (λ b. ltb b 128)

-- `eq_ignore_ascii_case`
unfoldable pub eq_ignore_ascii_case : Bytes → Bytes → Bool
eq_ignore_ascii_case [] [] = true
eq_ignore_ascii_case [] (b ∷ bs) = false
eq_ignore_ascii_case (a ∷ as') [] = false
eq_ignore_ascii_case (a ∷ as') (b ∷ bs) =
    ascii_lower a == ascii_lower b && eq_ignore_ascii_case as' bs

-- `text.starts_with(prefix)`
unfoldable pub starts_with : Bytes → Bytes → Bool
starts_with text [] = true
starts_with [] (p ∷ ps) = false
starts_with (b ∷ bs) (p ∷ ps) = b == p && starts_with bs ps

-- `text.find(pattern)`, from an index on
unfoldable pub find_from : ℕ → Bytes → Bytes → Option ℕ
unfolding starts_with
find_from index [] pattern = if starts_with [] pattern then some index else none
find_from index (b ∷ bs) pattern =
    let later = find_from (index + 1) bs pattern in
    if starts_with (b ∷ bs) pattern then some index else later

-- What both fuzzy loops count of their matches.
pub record Tally : Type 0 where
  pub matched : ℕ
  pub gap_penalty : ℕ
  pub consecutive : ℕ
  pub previous_match : Option ℕ

abbrev pub no_matches : Tally
no_matches = record { matched = 0; gap_penalty = 0; consecutive = 0; previous_match = none }

-- The gap before a match.
abbrev pub gap_before : Option ℕ → ℕ → ℕ
gap_before none index = index
gap_before (some previous) index = index - (previous + 1)

abbrev pub is_next : Option ℕ → ℕ → Bool
is_next none index = false
is_next (some previous) index = previous == index - 1

unfoldable pub count_match : ℕ → Tally → Tally
count_match index t =
    if is_next t.previous_match index
    then record t {
      matched = t.matched + 1;
      consecutive = t.consecutive + 1;
      previous_match = some index;
    }
    else record t {
      matched = t.matched + 1;
      gap_penalty = t.gap_penalty + gap_before t.previous_match index;
      previous_match = some index;
    }

-- The score for a candidate of the given size.
unfoldable pub tally_score : Tally → ℕ → ℤ
tally_score t size = sub_ℕ (t.matched * 100 + t.consecutive * 25) (t.gap_penalty * 10 + size)

-- The loop of `fuzzy_score` over the folded characters of the candidate, with the wanted character and those
-- that remain.
unfoldable pub fuzzy_from : ℕ → ℕ → ℕ → List ℕ → Tally → List ℕ → Option ℤ
unfolding count_match tally_score
fuzzy_from size index current wanted t [] = none
fuzzy_from size index current wanted t (c ∷ cs) = elim (c == current) [
  | false ↦ fuzzy_from size (index + 1) current wanted t cs
  | true ↦ elim wanted [
    | [] ↦ some (tally_score (count_match index t) size)
    | next ∷ rest ↦ fuzzy_from size (index + 1) next rest (count_match index t) cs
  ]
]

-- `flat_map(char::to_lowercase)`
unfoldable pub flat_map : (ℕ → List ℕ) → List ℕ → List ℕ
flat_map f [] = []
flat_map f (c ∷ cs) = f c ++ flat_map f cs

-- From the folded query on.
unfoldable pub fuzzy_folded : ℕ → List ℕ → List ℕ → Option ℤ
unfolding fuzzy_from
fuzzy_folded size [] candidate = none
fuzzy_folded size (current ∷ wanted) candidate =
    fuzzy_from size 0 current wanted no_matches candidate

-- The variables of the loop of `match_ascii_substring_and_fuzzy`; `wanted` is the query from `query_index` on.
pub record AsciiMatch : Type 0 where
  pub substring_position : Option ℕ
  pub substring_work_remaining : ℕ
  pub substring_search_deferred : Bool
  pub current : ℕ
  pub wanted : Bytes
  pub tally : Tally
  pub fuzzy : Option ℤ

abbrev pub is_none {ℓ} : {A : Type ℓ} → Option A → Bool
is_none none = true
is_none (some x) = false

module _ (query : Bytes) (first size : ℕ) where
  -- A window is compared while there is work left for it.
  unfoldable pub try_window : ℕ → Bytes → AsciiMatch → AsciiMatch
  unfolding eq_ignore_ascii_case
  try_window index rest s =
      if ltb s.substring_work_remaining (length query)
      then record s { substring_search_deferred = true }
      else record s {
        substring_work_remaining = s.substring_work_remaining - length query;
        substring_position =
            if eq_ignore_ascii_case (take (length query) rest) query
            then some index
            else s.substring_position;
      }

  unfoldable pub substring_turn : ℕ → Bytes → ℕ → AsciiMatch → AsciiMatch
  unfolding try_window
  substring_turn index rest folded s =
      if not (index == 0)
        && is_none s.substring_position
        && not s.substring_search_deferred
        && folded == first
      then try_window index rest s
      else s

  -- A match of the wanted byte: the score, once the query is used up, or else the next wanted byte.
  unfoldable pub fuzzy_match : ℕ → Bytes → AsciiMatch → AsciiMatch
  unfolding count_match tally_score
  fuzzy_match index [] s = record s {
    tally = count_match index s.tally;
    fuzzy = some (tally_score (count_match index s.tally) size);
  }
  fuzzy_match index (next ∷ rest) s = record s {
    tally = count_match index s.tally;
    current = ascii_lower next;
    wanted = rest;
  }

  unfoldable pub fuzzy_turn : ℕ → ℕ → AsciiMatch → AsciiMatch
  unfolding fuzzy_match
  fuzzy_turn index folded s =
      if not (is_none s.fuzzy) || not (folded == s.current) then s else fuzzy_match index s.wanted s

  unfoldable pub ascii_loop : ℕ → Bytes → AsciiMatch → AsciiMatch
  unfolding substring_turn fuzzy_turn
  ascii_loop index [] s = s
  ascii_loop index (c ∷ cs) s =
      ascii_loop (index + 1) cs
        (fuzzy_turn index (ascii_lower c) (substring_turn index (c ∷ cs) (ascii_lower c) s))

-- The last byte of the query occurs in the candidate, up to case.
abbrev pub last_of : ℕ → Bytes → ℕ
last_of b [] = b
last_of b (c ∷ cs) = last_of c cs

abbrev pub has_last : ℕ → Bytes → Bytes → Bool
has_last first rest candidate =
    let last = ascii_lower (last_of first rest) in
    if leb b'a' last && leb last b'z'
    then any (λ c. ascii_lower c == last) candidate
    else any (λ c. c == last) candidate

-- The search over the whole folded candidate, where the windows cost too much.
unfoldable pub found_substring : Bytes → Bytes → AsciiMatch → Option ℕ
unfolding find_from
found_substring query candidate s =
    if is_none s.substring_position && s.substring_search_deferred
    then find_from 0 (map ascii_lower candidate) (map ascii_lower query)
    else s.substring_position

abbrev pub substring_score : ℕ → ℕ → MatchClass × ℤ
substring_score position size = (MatchClass.substring, sub_ℕ 2000000 (position * 32 + size))

abbrev pub fuzzy_class : Option ℤ → Option (MatchClass × ℤ)
fuzzy_class none = none
fuzzy_class (some score) = some (MatchClass.fuzzy, pos 1000000 +ℤ score)

abbrev pub ascii_result : Option ℕ → Option ℤ → ℕ → Option (MatchClass × ℤ)
ascii_result (some position) fuzzy size = some (substring_score position size)
ascii_result none fuzzy size = fuzzy_class fuzzy

abbrev pub ascii_start : ℕ → Bytes → AsciiMatch
ascii_start first rest = record {
  substring_position = none;
  substring_work_remaining = max_ascii_substring_comparisons;
  substring_search_deferred = false;
  current = first;
  wanted = rest;
  tally = no_matches;
  fuzzy = none;
}

unfoldable pub match_ascii_substring_and_fuzzy : Bytes → Bytes → Bool × Option (MatchClass × ℤ)
unfolding ascii_loop found_substring
match_ascii_substring_and_fuzzy [] candidate = (is_ascii candidate, none)
match_ascii_substring_and_fuzzy (b ∷ rest) candidate =
    let query = b ∷ rest in
    let first = ascii_lower b in
    if not (is_ascii candidate)
    then (false, none)
    else if leb 3 (length query) && not (has_last b rest candidate)
    then (true, none)
    else (let end =
          ascii_loop query first (length candidate) 0 candidate (ascii_start first rest) in
        (true, ascii_result (found_substring query candidate end) end.fuzzy (length candidate)))
