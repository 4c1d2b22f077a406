-- ===== src/Context/Words.antt =====
-- `command_position_before` and its helpers in completion/context.rs, over the tokens of a line. A token's
-- `start` is its byte position.
use Prim.Native.String.{String}
use bash_lume.Base.{
  ℕ, Bool, true, false, ◌&&◌, ◌||◌, not, Option, none, some, List, [], ◌∷◌, ltb, leb, ◌==◌, any,
  all, bytes_eq, if◌then◌else◌,
}
pub use bash_lume.Base.Codes.{codes}
use bash_lume.Context.Quoting.{Text}

-- `matches!(word, "…" | "…")`
abbrev pub is_one_of : Text → List String → Bool
is_one_of text = any (λ s. bytes_eq text (codes s))

pub data TokenKind : Type 0 where
  word : Text → TokenKind
  operator : Text → TokenKind
  redirect comment : TokenKind

pub record Token : Type 0 where
  pub start : ℕ
  pub kind : TokenKind

unfoldable pub is_command_wrapper : Text → Bool
is_command_wrapper name = is_one_of name (
    "command" ∷ "builtin" ∷ "exec" ∷ "env" ∷ "sudo" ∷ "doas" ∷ "nohup" ∷ "nice" ∷ "setsid"
    ∷ "stdbuf" ∷ [])

abbrev pub sudo_options : List String
sudo_options =
    "-u" ∷ "--user" ∷ "-g" ∷ "--group" ∷ "-h" ∷ "--host" ∷ "-p" ∷ "--prompt" ∷ "-C" ∷ "--close-from"
    ∷ "-T" ∷ "--command-timeout" ∷ "-R" ∷ "--chroot" ∷ "-D" ∷ "--chdir" ∷ []

abbrev pub env_options : List String
env_options = "-u" ∷ "--unset" ∷ "-C" ∷ "--chdir" ∷ "-S" ∷ "--split-string" ∷ []

abbrev pub stdbuf_options : List String
stdbuf_options = "-i" ∷ "--input" ∷ "-o" ∷ "--output" ∷ "-e" ∷ "--error" ∷ []

-- `text.contains(c)`
abbrev pub contains : ℕ → Text → Bool
contains c = any (λ d. d == c)

unfoldable pub wrapper_option_takes_value : Text → Text → Bool
wrapper_option_takes_value wrapper option =
    if contains b'=' option
    then false
    else if is_one_of wrapper ("sudo" ∷ [])
    then is_one_of option sudo_options
    else if is_one_of wrapper ("env" ∷ [])
    then is_one_of option env_options
    else if is_one_of wrapper ("nice" ∷ [])
    then is_one_of option ("-n" ∷ "--adjustment" ∷ [])
    else is_one_of wrapper ("stdbuf" ∷ []) && is_one_of option stdbuf_options

-- `text.split_once(c)`, its first part
unfoldable pub before_first : ℕ → Text → Option Text
before_first c [] = none
before_first c (d ∷ rest) =
    let found = before_first c rest in
    if d == c then some [] else elim found [ none ↦ none | some name ↦ some (d ∷ name) ]

abbrev pub is_name_start : ℕ → Bool
is_name_start c = c == b'_' || (leb b'a' c && leb c b'z') || (leb b'A' c && leb c b'Z')

abbrev pub is_name_character : ℕ → Bool
is_name_character c = is_name_start c || (leb b'0' c && leb c b'9')

abbrev pub is_name : Option Text → Bool
is_name none = false
is_name (some []) = false
is_name (some (c ∷ rest)) = is_name_start c && all is_name_character rest

unfoldable pub is_assignment : Text → Bool
unfolding before_first
is_assignment text = is_name (before_first b'=' text)

-- The variables of the loop of `command_position_before`.
pub record CommandState : Type 0 where
  pub expect_command : Bool
  pub expect_redirect_target : Bool
  pub wrapper : Option Text
  pub skip_wrapper_value : Bool

abbrev pub initial_state : CommandState
initial_state = record {
  expect_command = true;
  expect_redirect_target = false;
  wrapper = none;
  skip_wrapper_value = false;
}

-- The operators after which a command is expected.
abbrev pub starts_command : Text → Bool
starts_command op = is_one_of op (";" ∷ "&" ∷ "&&" ∷ "|" ∷ "||" ∷ "(" ∷ "{" ∷ [])

abbrev pub starts_with_dash : Text → Bool
starts_with_dash [] = false
starts_with_dash (c ∷ rest) = c == b'-'

-- A word after a wrapper, or in a command position, that is no redirect target, skipped value or assignment.
unfoldable pub read_plain_word : CommandState → Text → Option Text → CommandState
unfolding is_command_wrapper wrapper_option_takes_value
read_plain_word s text (some name) =
    if starts_with_dash text
    then record s { skip_wrapper_value = wrapper_option_takes_value name text }
    else if is_command_wrapper text
    then record s { wrapper = some text }
    else record s { wrapper = none; expect_command = false }
read_plain_word s text none =
    if is_command_wrapper text
    then record s { wrapper = some text; expect_command = true }
    else if is_one_of text ("then" ∷ "do" ∷ "else" ∷ "elif" ∷ [])
    then record s { expect_command = true }
    else if is_one_of text ("if" ∷ "while" ∷ "until" ∷ "time" ∷ "!" ∷ [])
    then s
    else record s { expect_command = false }

unfoldable pub read_word : CommandState → Text → CommandState
unfolding is_assignment read_plain_word
read_word s text =
    if s.expect_redirect_target
    then record s { expect_redirect_target = false }
    else if s.skip_wrapper_value
    then record s { skip_wrapper_value = false }
    else if s.expect_command && is_assignment text
    then s
    else read_plain_word s text s.wrapper

unfoldable pub read_token : CommandState → TokenKind → CommandState
unfolding read_word
read_token s TokenKind.redirect = record s { expect_redirect_target = true }
read_token s TokenKind.comment = s
read_token s (TokenKind.operator op) =
    if starts_command op
    then record s {
      expect_redirect_target = false;
      expect_command = true;
      wrapper = none;
      skip_wrapper_value = false;
    }
    else record s { expect_redirect_target = false }
read_token s (TokenKind.word text) = read_word s text

unfoldable pub read_tokens : CommandState → ℕ → List Token → CommandState
unfolding read_token
read_tokens s current_start [] = s
read_tokens s current_start (t ∷ ts) =
    read_tokens (if ltb t.start current_start then read_token s t.kind else s) current_start ts

unfoldable pub command_position_before : List Token → ℕ → Bool
unfolding read_tokens
command_position_before tokens current_start =
    let s = read_tokens initial_state current_start tokens in
    s.expect_command && not s.expect_redirect_target
