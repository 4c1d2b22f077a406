-- ===== src/Context/Quoting.antt =====
-- `QuoteMode`, `dequote_prefix` and `quote_shell_word` of completion/context.rs. A text is the list of its
-- characters' code points.
use bash_lume.Base.{
  ℕ, zero, suc, Bool, false, ◌||◌, ◌&&◌, List, [], ◌∷◌, ◌++◌, ◌==◌, take, if◌then◌else◌,
}
use bash_lume.Base.Utf8.{is_whitespace}

abbrev pub Text : Type 0
Text = List ℕ

pub data QuoteMode : Type 0 where
  unquoted single double ansi_c : QuoteMode

-- The characters with a meaning of their own.
abbrev pub backslash : ℕ
backslash = 92

abbrev pub apostrophe : ℕ
apostrophe = 39

abbrev pub quotation : ℕ
quotation = 34

abbrev pub dollar : ℕ
dollar = 36

abbrev pub backtick : ℕ
backtick = 96

-- `characters.peek() == Some(&'\'')`
abbrev pub peeks_apostrophe : Text → Bool
peeks_apostrophe [] = false
peeks_apostrophe (c ∷ rest) = c == apostrophe

-- One turn of the loop: the next mode, what is pushed, and how many characters more are consumed.
unfoldable pub turn : QuoteMode → ℕ → Text → QuoteMode × Text × ℕ
turn QuoteMode.unquoted c rest =
    if c == backslash
    then (QuoteMode.unquoted, take 1 rest, 1)
    else if c == apostrophe
    then (QuoteMode.single, [], 0)
    else if c == quotation
    then (QuoteMode.double, [], 0)
    else if c == dollar && peeks_apostrophe rest
    then (QuoteMode.ansi_c, [], 1)
    else (QuoteMode.unquoted, c ∷ [], 0)
turn QuoteMode.single c rest =
    if c == apostrophe then (QuoteMode.unquoted, [], 0) else (QuoteMode.single, c ∷ [], 0)
turn QuoteMode.double c rest =
    if c == quotation
    then (QuoteMode.unquoted, [], 0)
    else if c == backslash
    then (QuoteMode.double, take 1 rest, 1)
    else (QuoteMode.double, c ∷ [], 0)
turn QuoteMode.ansi_c c rest =
    if c == apostrophe
    then (QuoteMode.unquoted, [], 0)
    else if c == backslash
    then (QuoteMode.ansi_c, take 1 rest, 1)
    else (QuoteMode.ansi_c, c ∷ [], 0)

-- The loop in a mode, with a number of characters that are consumed already.
unfoldable pub dequote_from : QuoteMode → ℕ → Text → Text
unfolding turn
dequote_from mode consumed [] = []
dequote_from mode (suc consumed) (c ∷ rest) = dequote_from mode consumed rest
dequote_from mode zero (c ∷ rest) =
    let (next, pushed, consumed) = turn mode c rest in pushed ++ dequote_from next consumed rest

unfoldable pub dequote_prefix : Text → Text
unfolding dequote_from
dequote_prefix raw = dequote_from QuoteMode.unquoted 0 raw

-- `str::replace` of a character
unfoldable pub replace : ℕ → Text → Text → Text
replace from to [] = []
replace from to (c ∷ cs) =
    let rest = replace from to cs in if c == from then to ++ rest else c ∷ rest

-- The characters that stand behind a backslash outside quotes: `;&|()<>*?[]{}!`, quotes and white space.
unfoldable pub is_escaped : ℕ → Bool
unfolding is_whitespace
is_escaped c =
    is_whitespace c
    || c == backslash
    || c == apostrophe
    || c == quotation
    || c == dollar
    || c == backtick
    || c == 59
    || c == 38
    || c == 124
    || c == 40
    || c == 41
    || c == 60
    || c == 62
    || c == 42
    || c == 63
    || c == 91
    || c == 93
    || c == 123
    || c == 125
    || c == 33

unfoldable pub escape_unquoted : Text → Text
unfolding is_escaped
escape_unquoted [] = []
escape_unquoted (c ∷ cs) =
    let rest = escape_unquoted cs in if is_escaped c then backslash ∷ c ∷ rest else c ∷ rest

unfoldable pub escape_double : Text → Text
unfolding replace
escape_double value = replace quotation (backslash ∷ quotation ∷ []) (
    replace backtick (backslash ∷ backtick ∷ []) (
      replace dollar (backslash ∷ dollar ∷ [])
        (replace backslash (backslash ∷ backslash ∷ []) value)))

unfoldable pub quote_shell_word : Text → QuoteMode → Text
unfolding replace escape_unquoted escape_double
quote_shell_word value QuoteMode.single =
    apostrophe ∷ replace apostrophe (apostrophe ∷ backslash ∷ apostrophe ∷ apostrophe ∷ []) value
    ++ apostrophe ∷ []
quote_shell_word value QuoteMode.double = quotation ∷ escape_double value ++ quotation ∷ []
quote_shell_word value QuoteMode.ansi_c =
    dollar
      ∷ apostrophe
      ∷ replace apostrophe (backslash ∷ apostrophe ∷ [])
          (replace backslash (backslash ∷ backslash ∷ []) value)
    ++ apostrophe ∷ []
quote_shell_word value QuoteMode.unquoted = escape_unquoted value
