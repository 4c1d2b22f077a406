-- ===== src/Tests/LineRuns.antt =====
-- Lines of a shell, split into tokens and analysed, and the candidates applied to them.
use bash_lume.Base.{
  ◌+◌, ◌≡◌, refl, true, false, none, [], ◌∷◌, ◌++◌, Bytes, length, take, drop, arith,
}
use bash_lume.Base.Int.{pos}
use bash_lume.Base.Utf8.{chars}
use bash_lume.Base.Codes.{codes}
use bash_lume.Matcher.Candidate.{MatchClass, CandidateKind, Candidate}
use bash_lume.Context.Quoting.{dequote_prefix}
use bash_lume.Context.Words.{TokenKind}
use bash_lume.Context.Lexer.{lex_loop, lex_start, lex_shell}
use bash_lume.Context.WordBounds.{current_word_start_and_quote, current_word_end}
use bash_lume.Context.Analysis.{analyze_with_interactive_comments, replacement_for, apply}
use bash_lume.Context.TokenOrder.{IsSorted}
use bash_lume.Context.LexerLaws.{lex_loop-ends, lex_shell-IsSorted}
use bash_lume.Context.AnalysisLaws.{IsWithin, analyze-IsWithin, apply-analyze}
use bash_lume.Context.CommandLaws.{current_word_end-single}

abbrev line : Bytes
line = codes "x=1 git add 'a b' >out # c"

lex_loop-ends_example : (lex_loop line 26 true 26 lex_start).index ≡ 26
lex_loop-ends_example = lex_loop-ends line 26 true

lex_shell-IsSorted_example : IsSorted 0 26 (lex_shell line 26 true).0
lex_shell-IsSorted_example = lex_shell-IsSorted line 26 true

analyze-IsWithin_example : IsWithin line (analyze_with_interactive_comments line 14 true)
analyze-IsWithin_example = analyze-IsWithin line 14 true

abbrev added : Candidate
added = record {
  display = codes "a c";
  value = codes "a c";
  description = none;
  source_mask = 0;
  kind = CandidateKind.file;
  append_space = true;
  score = pos 1;
  match_class = MatchClass.prefix;
  preserve_order = false;
  insertion_order = 0;
}

apply-analyze_example :
    let c = analyze_with_interactive_comments line 14 true in
    let (changed, new_point) = apply c added in
    (new_point ≡ c.replace_start + length (replacement_for c added))
    × (take new_point changed ≡ take c.replace_start line ++ replacement_for c added)
    × (drop new_point changed ≡ drop c.replace_end line)
apply-analyze_example = apply-analyze line 14 true added

-- The quote that is closed before the position.
abbrev quoted : Bytes
quoted = codes "'ab'cd next"

current_word_end-single_example :
    current_word_end quoted 6 (current_word_start_and_quote quoted 6 true).1 ≡ 11
unfolding current_word_start_and_quote
current_word_end-single_example = current_word_end-single quoted 6 true (omega arith) refl refl

-- A delimiter behind an escaped character of two bytes is part of the word.
escaped_delimiter :
    (lex_shell (b'\\' ∷ 0xc3 ∷ 0xa9 ∷ codes ";ls") 6 true).0
    ≡ record { start = 0; kind = TokenKind.word (dequote_prefix (0xe9 ∷ codes ";ls")) } ∷ []
unfolding lex_shell chars dequote_prefix
escaped_delimiter = refl
