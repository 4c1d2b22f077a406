-- ===== src/Context/Analysis.antt =====
-- `CompletionContext` of completion/context.rs: the analysis of a line, the replacement of a candidate and
-- `existing_directory_target`. The words are texts of characters, the line is its bytes.
use bash_lume.Base.{
  ℕ, zero, suc, ◌-◌, Bool, true, false, ◌&&◌, ◌||◌, not, Option, none, some, List, [], ◌∷◌, ◌++◌,
  Bytes, length, take, drop, min, ltb, ◌==◌, if◌then◌else◌,
}
use bash_lume.Base.Utf8.{chars, utf8_bytes}
use bash_lume.Context.Quoting.{Text, QuoteMode, dequote_prefix, quote_shell_word}
use bash_lume.Context.Words.{
  TokenKind, Token, is_one_of, is_assignment, is_command_wrapper, wrapper_option_takes_value,
  starts_with_dash, command_position_before,
}
use bash_lume.Context.Segment.{completion_words}
use bash_lume.Context.Lexer.{slice, lex_shell}
use bash_lume.Context.WordBounds.{
  current_word_start_and_quote, current_word_end, floor_char_boundary,
}
use bash_lume.Matcher.Candidate.{CandidateKind, Candidate}

abbrev pub max_completion_context_bytes : ℕ
max_completion_context_bytes = 262144

pub record CompletionContext : Type 0 where
  pub line : Bytes
  pub point : ℕ
  pub replace_start : ℕ
  pub replace_end : ℕ
  pub query : Text
  pub quote : QuoteMode
  pub command_position : Bool
  pub in_comment : Bool
  pub words : List Text
  pub word_index : ℕ
  pub command_name : Option Text
  pub command_path : List Text

-- `words.iter().position(|word| !is_assignment(word))`
unfoldable pub command_position_of : List Text → Option ℕ
command_position_of [] = none
command_position_of (w ∷ ws) =
    if not (is_assignment w)
    then some 0
    else elim (command_position_of ws) [ none ↦ none | some i ↦ some (suc i) ]

abbrev pub get_elem? {ℓ} : {A : Type ℓ} → List A → ℕ → Option A
get_elem? [] i = none
get_elem? (x ∷ xs) zero = some x
get_elem? (x ∷ xs) (suc i) = get_elem? xs i

-- The words that are neither options nor assignments.
unfoldable pub path_words : List Text → List Text
path_words [] = []
path_words (w ∷ ws) =
    let rest = path_words ws in
    if not (starts_with_dash w) && not (is_assignment w) then w ∷ rest else rest

unfoldable pub command_name_of : List Text → Option ℕ → Option Text
command_name_of words none = none
command_name_of words (some index) = get_elem? words index

-- `words[index..word_index]`, filtered
unfoldable pub command_path_of : List Text → ℕ → Option ℕ → List Text
unfolding path_words
command_path_of words word_index none = []
command_path_of words word_index (some index) =
    path_words (take (word_index - index) (drop index words))

-- The context of a line that is too long.
abbrev oversized : Bytes → ℕ → CompletionContext
oversized line point = record {
  line = line;
  point = point;
  replace_start = point;
  replace_end = point;
  query = [];
  quote = QuoteMode.unquoted;
  command_position = false;
  in_comment = false;
  words = [];
  word_index = 0;
  command_name = none;
  command_path = [];
}

-- The words and the index of the current one; none in a comment.
unfoldable pub context_words : Bool → List Token → ℕ → Text → List Text × ℕ
context_words in_comment tokens start query =
    if in_comment then ([], 0) else completion_words tokens start query

-- The analysis with the position on a character boundary of a line that is short enough.
unfoldable pub analyze_at : Bytes → ℕ → Bool → CompletionContext
unfolding command_position_of command_name_of command_path_of context_words
analyze_at line point interactive_comments =
    let (tokens, in_comment) = lex_shell line point interactive_comments in
    let (replace_start, quote) = current_word_start_and_quote line point interactive_comments in
    let query = dequote_prefix (chars (slice line replace_start point)) in
    let (words, word_index) = context_words in_comment tokens replace_start query in
    let command_index = command_position_of words in
    record {
      line = line;
      point = point;
      replace_start = replace_start;
      replace_end = current_word_end line point quote;
      query = query;
      quote = quote;
      command_position = not in_comment && command_position_before tokens replace_start;
      in_comment = in_comment;
      words = words;
      word_index = word_index;
      command_name = command_name_of words command_index;
      command_path = command_path_of words word_index command_index;
    }

unfoldable pub analyze_with_interactive_comments : Bytes → ℕ → Bool → CompletionContext
unfolding analyze_at
analyze_with_interactive_comments line point interactive_comments =
    let point' = floor_char_boundary line (min point (length line)) in
    if ltb max_completion_context_bytes (length line)
    then oversized line point'
    else analyze_at line point' interactive_comments

unfoldable pub analyze : Bytes → ℕ → CompletionContext
unfolding analyze_with_interactive_comments
analyze line point = analyze_with_interactive_comments line point true

abbrev starts_with_tilde : Text → Bool
starts_with_tilde [] = false
starts_with_tilde (c ∷ rest) = c == b'~'

-- The match on the candidate's kind; `value` is the candidate's.
unfoldable pub quoted_value : CandidateKind → Text → QuoteMode → Text
quoted_value CandidateKind.variable value quote = value
quoted_value CandidateKind.user value quote =
    if starts_with_tilde value then value else quote_shell_word value quote
quoted_value _ value quote = quote_shell_word value quote

unfoldable pub replacement_for : CompletionContext → Candidate → Bytes
unfolding quoted_value
replacement_for context candidate =
    utf8_bytes (quoted_value candidate.kind (chars candidate.value) context.quote)
    ++ (if candidate.append_space then b' ' ∷ [] else [])

unfoldable pub apply : CompletionContext → Candidate → Bytes × ℕ
unfolding replacement_for
apply context candidate =
    let before = take context.replace_start context.line ++ replacement_for context candidate in
    (before ++ drop context.replace_end context.line, length before)

-- The words before the first operator.
unfoldable pub leading_words : List Token → List Text
leading_words [] = []
leading_words (t ∷ ts) = elim t.kind [
  | TokenKind.operator op ↦ []
  | TokenKind.word text ↦ text ∷ leading_words ts
  | TokenKind.redirect ↦ leading_words ts
  | TokenKind.comment ↦ leading_words ts
]

unfoldable pub skip_assignments : List Text → List Text
skip_assignments [] = []
skip_assignments (w ∷ ws) =
    let rest = skip_assignments ws in if is_assignment w then rest else w ∷ ws

-- What follows a wrapper, with `skip_value`: its options and their values, assignments, and the next command,
-- which may be a wrapper again.
unfoldable pub skip_wrapped : Text → Bool → List Text → List Text
skip_wrapped command skip_value [] = []
skip_wrapped command skip_value (w ∷ ws) =
    elim (not skip_value
      && not (is_assignment w)
      && not (starts_with_dash w)
      && not (is_command_wrapper w)) [
        | true ↦ w ∷ ws
        | false ↦
            let wraps = not skip_value && not (is_assignment w) && not (starts_with_dash w) in
            skip_wrapped (if wraps then w else command)
              (not skip_value
                && not (is_assignment w)
                && not wraps
                && wrapper_option_takes_value command w)
              ws
      ]

-- The loop over wrappers, from the first word that is no assignment.
unfoldable pub skip_wrappers : List Text → List Text
unfolding skip_wrapped
skip_wrappers [] = []
skip_wrappers (w ∷ ws) = if is_command_wrapper w then skip_wrapped w false ws else w ∷ ws

-- The first word that is no option; a single dash is none.
unfoldable pub first_target : List Text → Option Text
first_target [] = none
first_target (w ∷ ws) =
    let rest = first_target ws in
    if is_one_of w ("--" ∷ []) || (starts_with_dash w && not (is_one_of w ("-" ∷ [])))
    then rest
    else some w

unfoldable pub directory_target : List Text → Option Text
unfolding first_target
directory_target [] = none
directory_target (command ∷ ws) =
    if is_one_of command ("cd" ∷ "pushd" ∷ []) then first_target ws else none

unfoldable pub existing_directory_target : Bytes → Option Text
unfolding leading_words skip_assignments skip_wrappers directory_target
existing_directory_target line =
    if ltb max_completion_context_bytes (length line)
    then none
    else directory_target
        (skip_wrappers (skip_assignments (leading_words (lex_shell line (length line) true).0)))
