-- ===== src/Context/Lexer.antt =====
-- `lex_shell` of completion/context.rs over the bytes of a line. The loop reads only below `point`, which is
-- at most the line's length, so the byte that `byte_at` gives beyond the line is never used.
use bash_lume.Base.{
  ℕ, zero, suc, ◌+◌, ◌-◌, Bool, true, false, ◌&&◌, ◌||◌, not, Option, none, some, List, [], ◌∷◌,
  ◌++◌, Bytes, ltb, ◌==◌, take, drop, min, saturating_add, if◌then◌else◌,
}
use bash_lume.Base.Utf8.{chars}
use bash_lume.Context.Quoting.{QuoteMode, dequote_prefix}
use bash_lume.Context.Words.{TokenKind, Token, codes}

abbrev pub byte_at : Bytes → ℕ → ℕ
byte_at [] index = 0
byte_at (b ∷ bs) zero = b
byte_at (b ∷ bs) (suc index) = byte_at bs index

-- `line[start..end]`
abbrev pub slice : Bytes → ℕ → ℕ → Bytes
slice line start end = take (end - start) (drop start line)

unfoldable pub utf8_char_len : ℕ → ℕ
utf8_char_len first =
    if ltb first 0x80 then 1 else if ltb first 0xe0 then 2 else if ltb first 0xf0 then 3 else 4

-- The variables of the loop.
pub record LexState : Type 0 where
  pub tokens : List Token
  pub index : ℕ
  pub word_start : Option ℕ
  pub quote : QuoteMode
  pub escaped : Bool
  pub parameter_depth : ℕ
  pub in_comment : Bool

abbrev pub is_unquoted : QuoteMode → Bool
is_unquoted QuoteMode.unquoted = true
is_unquoted _ = false

abbrev pub is_none : Option ℕ → Bool
is_none none = true
is_none (some n) = false

-- `get_or_insert`
abbrev pub get_or_insert : Option ℕ → ℕ → Option ℕ
get_or_insert none n = some n
get_or_insert (some m) n = some m

-- The quote and the escape after a byte inside quotes.
unfoldable pub after_quoted : QuoteMode → ℕ → QuoteMode × Bool
after_quoted QuoteMode.unquoted byte = (QuoteMode.unquoted, false)
after_quoted QuoteMode.single byte =
    (if byte == b'\'' then QuoteMode.unquoted else QuoteMode.single, false)
after_quoted QuoteMode.double byte =
    if byte == b'"' then (QuoteMode.unquoted, false) else (QuoteMode.double, byte == b'\\')
after_quoted QuoteMode.ansi_c byte =
    if byte == b'\'' then (QuoteMode.unquoted, false) else (QuoteMode.ansi_c, byte == b'\\')

-- `index > 0 && bytes[index - 1] == b'$'`
abbrev pub follows_dollar : Bytes → ℕ → Bool
follows_dollar line index = ltb 0 index && byte_at line (index - 1) == b'$'

abbrev pub is_blank : ℕ → Bool
is_blank byte = byte == b' ' || byte == b'\t' || byte == b'\r'

abbrev pub is_operator : ℕ → Bool
is_operator byte =
    byte == b';'
    || byte == b'&'
    || byte == b'|'
    || byte == b'('
    || byte == b')'
    || byte == b'{'
    || byte == b'}'

abbrev pub is_angle : ℕ → Bool
is_angle byte = byte == b'<' || byte == b'>'

-- `(b'&', b'&') | (b'|', b'|') | (b';', b';')`
abbrev pub is_doubled : ℕ → ℕ → Bool
is_doubled a b = (a == b'&' && b == b'&') || (a == b'|' && b == b'|') || (a == b';' && b == b';')

module _ (line : Bytes) (point : ℕ) where
  -- `flush_word(end, ..)`
  unfoldable pub flush_word : ℕ → LexState → LexState
  flush_word end s = elim s.word_start [
    | none ↦ s
    | some start ↦ record s {
      tokens =
          s.tokens
          ++ record {
            start = start;
            kind = TokenKind.word (dequote_prefix (chars (slice line start end)));
          }
            ∷ [];
      word_start = none;
    }
  ]

  -- The character at an index, or what is left of it before `point`, is passed.
  unfoldable pub next_character : ℕ → ℕ
  unfolding utf8_char_len
  next_character index = index + min (utf8_char_len (byte_at line index)) (point - index)

  -- The inner loop over a comment.
  unfoldable pub comment_end : ℕ → ℕ → ℕ
  unfolding next_character
  comment_end zero index = index
  comment_end (suc fuel) index =
      let rest = comment_end fuel (next_character index) in
      if ltb index point && not (byte_at line index == b'\n') then rest else index

  unfoldable pub push_token : ℕ → TokenKind → ℕ → LexState → LexState
  push_token start kind index s = record s {
    tokens = s.tokens ++ record { start = start; kind = kind } ∷ [];
    index = index;
  }

  unfoldable pub lex_comment : LexState → LexState
  unfolding push_token comment_end
  lex_comment s =
      let end = comment_end point s.index in
      record (push_token s.index TokenKind.comment end s) {
        in_comment = end == point || s.in_comment;
      }

  unfoldable pub operator_end : ℕ → ℕ → ℕ
  operator_end byte index =
      if ltb (index + 1) point && is_doubled byte (byte_at line (index + 1))
      then index + 2
      else index + 1

  unfoldable pub redirect_end : ℕ → ℕ → ℕ
  redirect_end byte index =
      if ltb (index + 1) point && byte_at line (index + 1) == byte then index + 2 else index + 1

  -- The match on an unquoted byte.
  unfoldable pub lex_unquoted : Bool → ℕ → LexState → LexState
  unfolding flush_word push_token lex_comment operator_end redirect_end next_character
  lex_unquoted interactive_comments byte s =
      let i = s.index in
      if byte == b'{' && follows_dollar line i
      then record s {
        word_start = get_or_insert s.word_start (i - 1);
        parameter_depth = saturating_add s.parameter_depth 1;
        index = i + 1;
      }
      else if byte == b'}' && ltb 0 s.parameter_depth
      then record s { parameter_depth = s.parameter_depth - 1; index = i + 1 }
      else if byte == b'#' && interactive_comments && is_none s.word_start
      then lex_comment s
      else if byte == b'\\'
      then record s { word_start = get_or_insert s.word_start i; escaped = true; index = i + 1 }
      else if byte == b'\''
      then record s {
        word_start = get_or_insert s.word_start i;
        quote = if follows_dollar line i then QuoteMode.ansi_c else QuoteMode.single;
        index = i + 1;
      }
      else if byte == b'"'
      then record s {
        word_start = get_or_insert s.word_start i;
        quote = QuoteMode.double;
        index = i + 1;
      }
      else if is_blank byte
      then record (flush_word i s) { index = i + 1 }
      else if byte == b'\n'
      then push_token i (TokenKind.operator (codes ";")) (i + 1) (flush_word i s)
      else if is_operator byte
      then (let end = operator_end byte i in
          push_token i (TokenKind.operator (chars (slice line i end))) end (flush_word i s))
      else if is_angle byte
      then push_token i TokenKind.redirect (redirect_end byte i) (flush_word i s)
      else record s { word_start = get_or_insert s.word_start i; index = next_character i }

  -- One turn of the outer loop.
  unfoldable pub lex_turn : Bool → LexState → LexState
  unfolding after_quoted lex_unquoted
  lex_turn interactive_comments s =
      let byte = byte_at line s.index in
      if s.escaped
      then record s { escaped = false; index = s.index + 1 }
      else if is_unquoted s.quote
      then lex_unquoted interactive_comments byte s
      else (let (quote, escaped) = after_quoted s.quote byte in
          record s { quote = quote; escaped = escaped; index = s.index + 1 })

  -- `while index < point`, for at most as many turns as the fuel has. A comment up to `point` ends the loop
  -- by this test too.
  unfoldable pub lex_loop : Bool → ℕ → LexState → LexState
  unfolding lex_turn
  lex_loop interactive_comments zero s = s
  lex_loop interactive_comments (suc fuel) s =
      let rest = lex_loop interactive_comments fuel (lex_turn interactive_comments s) in
      if ltb s.index point then rest else s

abbrev pub lex_start : LexState
lex_start = record {
  tokens = [];
  index = 0;
  word_start = none;
  quote = QuoteMode.unquoted;
  escaped = false;
  parameter_depth = 0;
  in_comment = false;
}

-- Every turn passes a byte, so `point` turns are enough.
unfoldable pub lex_shell : Bytes → ℕ → Bool → List Token × Bool
unfolding lex_loop flush_word
lex_shell line point interactive_comments =
    let end = lex_loop line point interactive_comments point lex_start in
    ((flush_word line point point end).tokens, end.in_comment)
