-- ===== src/Context/WordBounds.antt =====
-- `current_word_start_and_quote`, `current_word_end` and `floor_char_boundary` of completion/context.rs.
use bash_lume.Base.{
  ℕ, zero, suc, ◌+◌, ◌-◌, Bool, true, false, ◌&&◌, ◌||◌, not, [], ◌∷◌, Bytes, length, ltb, leb,
  ◌==◌, drop, saturating_add, if◌then◌else◌,
}
use bash_lume.Context.Quoting.{QuoteMode}
use bash_lume.Context.Lexer.{byte_at, is_unquoted, after_quoted, is_blank, is_angle, comment_end}

-- The bytes that end a word: white space, `;`, `&`, `|`, `(`, `)`, `<` and `>`.
abbrev pub is_word_break : ℕ → Bool
is_word_break byte =
    is_blank byte
    || byte == b'\n'
    || byte == b';'
    || byte == b'&'
    || byte == b'|'
    || byte == b'('
    || byte == b')'
    || is_angle byte

-- The variables of the loop of `current_word_start_and_quote`.
pub record WordScan : Type 0 where
  pub index : ℕ
  pub start : ℕ
  pub quote : QuoteMode
  pub escaped : Bool
  pub at_word_start : Bool
  pub parameter_depth : ℕ

abbrev pub scan_start : WordScan
scan_start = record {
  index = 0;
  start = 0;
  quote = QuoteMode.unquoted;
  escaped = false;
  at_word_start = true;
  parameter_depth = 0;
}

module _ (line : Bytes) (point : ℕ) where
  -- The branch of a comment, which may run up to `point`.
  unfoldable pub scan_comment : WordScan → WordScan
  unfolding comment_end
  scan_comment s =
      let end = comment_end line point point s.index in
      if ltb end point
      then record s {
        start = end + 1;
        at_word_start = true;
        quote = QuoteMode.unquoted;
        index = end + 1;
      }
      else record s { index = end }

  -- The match on an unquoted byte; all branches but the comment's go on to the next byte.
  unfoldable pub scan_unquoted : Bool → ℕ → WordScan → WordScan
  unfolding scan_comment
  scan_unquoted interactive_comments byte s =
      let i = s.index in
      if byte == b'{' && ltb 0 i && byte_at line (i - 1) == b'$'
      then record s {
        parameter_depth = saturating_add s.parameter_depth 1;
        at_word_start = false;
        index = i + 1;
      }
      else if byte == b'}' && ltb 0 s.parameter_depth
      then record s {
        parameter_depth = s.parameter_depth - 1;
        at_word_start = false;
        index = i + 1;
      }
      else if byte == b'#' && interactive_comments && s.at_word_start
      then scan_comment s
      else if byte == b'\\'
      then record s { escaped = true; at_word_start = false; index = i + 1 }
      else if byte == b'\''
      then record s {
        quote =
            if ltb s.start i && byte_at line (i - 1) == b'$'
            then QuoteMode.ansi_c
            else QuoteMode.single;
        at_word_start = false;
        index = i + 1;
      }
      else if byte == b'"'
      then record s { quote = QuoteMode.double; at_word_start = false; index = i + 1 }
      else if is_word_break byte
      then record s { start = i + 1; at_word_start = true; index = i + 1 }
      else record s { at_word_start = false; index = i + 1 }

  unfoldable pub scan_turn : Bool → WordScan → WordScan
  unfolding scan_unquoted after_quoted
  scan_turn interactive_comments s =
      let byte = byte_at line s.index in
      if s.escaped
      then record s { escaped = false; at_word_start = false; index = s.index + 1 }
      else if is_unquoted s.quote
      then scan_unquoted interactive_comments byte s
      else (let (quote, escaped) = after_quoted s.quote byte in
          record s { quote = quote; escaped = escaped; at_word_start = false; index = s.index + 1 })

  -- `while index < point`, for at most as many turns as the fuel has.
  unfoldable pub scan_loop : Bool → ℕ → WordScan → WordScan
  unfolding scan_turn
  scan_loop interactive_comments zero s = s
  scan_loop interactive_comments (suc fuel) s =
      let rest = scan_loop interactive_comments fuel (scan_turn interactive_comments s) in
      if ltb s.index point then rest else s

-- The quote of the byte at the start of the word, or else the one that is open; `line.get(start)` is the head
-- of what the line has from `start` on.
unfoldable pub preferred_quote : Bytes → QuoteMode → QuoteMode
preferred_quote [] quote = quote
preferred_quote (b ∷ rest) quote =
    if b == b'\''
    then QuoteMode.single
    else if b == b'"'
    then QuoteMode.double
    else if b == b'$' && byte_at rest 0 == b'\''
    then QuoteMode.ansi_c
    else quote

unfoldable pub current_word_start_and_quote : Bytes → ℕ → Bool → ℕ × QuoteMode
unfolding scan_loop preferred_quote
current_word_start_and_quote line point interactive_comments =
    let end = scan_loop line point interactive_comments point scan_start in
    (end.start, preferred_quote (drop end.start line) end.quote)

-- The quote and the escape after an unquoted byte that does not end the word.
unfoldable pub after_unquoted : ℕ → QuoteMode × Bool
after_unquoted byte =
    if byte == b'\\'
    then (QuoteMode.unquoted, true)
    else if byte == b'\''
    then (QuoteMode.single, false)
    else if byte == b'"'
    then (QuoteMode.double, false)
    else (QuoteMode.unquoted, false)

-- The loop of `current_word_end` over the bytes from an index on.
unfoldable pub word_end_from : Bytes → ℕ → QuoteMode → Bool → ℕ
unfolding after_quoted after_unquoted
word_end_from [] index quote escaped = index
word_end_from (byte ∷ rest) index quote escaped =
    let ends = not escaped && is_unquoted quote && is_word_break byte in
    let (next, opened) =
      if escaped
      then (quote, false)
      else if is_unquoted quote
      then after_unquoted byte
      else after_quoted quote byte in
    let end = word_end_from rest (index + 1) next opened in if ends then index else end

unfoldable pub current_word_end : Bytes → ℕ → QuoteMode → ℕ
unfolding word_end_from
current_word_end line point initial_quote =
    word_end_from (drop point line) point initial_quote false

-- `str::is_char_boundary` below the end of the text
abbrev pub is_char_boundary : Bytes → ℕ → Bool
is_char_boundary text index =
    index == 0
    || index == length text
    || (ltb index (length text)
        && not (leb 0x80 (byte_at text index) && ltb (byte_at text index) 0xc0))

unfoldable pub floor_char_boundary : Bytes → ℕ → ℕ
floor_char_boundary text zero = 0
floor_char_boundary text (suc index) =
    let below = floor_char_boundary text index in
    if is_char_boundary text (suc index) then suc index else below
