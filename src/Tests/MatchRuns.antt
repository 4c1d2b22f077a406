-- ===== src/Tests/MatchRuns.antt =====
-- Matches of a query, with the case of ASCII letters folded.
use mathlib.Core.Logic.{◌↔◌}
use bash_lume.Base.{◌≡◌, refl, false, some, [], ◌∷◌, map}
use bash_lume.Base.Int.{ℤ, pos, sub_ℕ}
use bash_lume.Base.Utf8.{chars}
use bash_lume.Base.Codes.{codes}
use bash_lume.Matcher.Candidate.{MatchClass}
use bash_lume.Matcher.Score.{ascii_lower, flat_map, starts_with}
use bash_lume.Matcher.Match.{Casing, fuzzy_score, match_score}
use bash_lume.Matcher.FuzzyLaws.{IsSubsequence, fuzzy_score-IsSubsequence}
use bash_lume.Matcher.MatchLaws.{is_strong, match_score-starts_with, match_score_weak}

abbrev casing : Casing
casing = record { char_lower = λ c. ascii_lower c ∷ []; text_lower = map ascii_lower }

fuzzy_score-IsSubsequence_example :
    ((score : ℤ) × (fuzzy_score casing (codes "gC") (codes "git-Commit") ≡ some score))
    ↔ IsSubsequence (codes "gc") (codes "git-commit")
unfolding flat_map chars
fuzzy_score-IsSubsequence_example =
    fuzzy_score-IsSubsequence casing b'g' (codes "C") (codes "git-Commit") b'g' (codes "c") refl

match_score-starts_with_example :
    match_score casing (codes "git") (codes "git-gui") ≡ some (MatchClass.prefix, sub_ℕ 4000000 4)
unfolding starts_with
match_score-starts_with_example =
    match_score-starts_with casing (codes "git") (codes "git-gui") refl

contained :
    match_score casing (codes "gui") (codes "git-gui") ≡ some (MatchClass.substring, pos 1999865)
unfolding match_score
contained = refl

match_score_weak_example : is_strong MatchClass.substring ≡ false
unfolding starts_with
match_score_weak_example =
    match_score_weak casing (codes "gui") (codes "git-gui") MatchClass.substring (pos 1999865) refl
      contained
