-- ===== src/Tests/ContextRuns.antt =====
-- Quoting and the words of a line with two commands.
use bash_lume.Base.{◌↔◌, ◌≡◌, refl, List, [], ◌∷◌, ◌++◌}
use bash_lume.Context.Quoting.{QuoteMode, dequote_prefix, quote_shell_word}
use bash_lume.Context.QuotingLaws.{dequote_prefix-quote_shell_word}
use bash_lume.Context.Words.{TokenKind, Token, codes, command_position_before}
use bash_lume.Context.Segment.{completion_words, typed_parent_and_leaf}
use bash_lume.Context.WordsLaws.{command_position_before-append, completion_words-append}
use bash_lume.Context.LeafLaws.{IsSplit, typed_parent_and_leaf-IsSplit}

dequote_prefix-quote_shell_word_example :
    dequote_prefix (quote_shell_word (codes "it's $5 `a`") QuoteMode.double) ≡ codes "it's $5 `a`"
dequote_prefix-quote_shell_word_example =
    dequote_prefix-quote_shell_word (codes "it's $5 `a`") QuoteMode.double

-- `echo > x; sudo -u`
abbrev before : List Token
before =
    record { start = 0; kind = TokenKind.word (codes "echo") }
    ∷ record { start = 5; kind = TokenKind.redirect }
    ∷ record { start = 7; kind = TokenKind.word (codes "x") }
    ∷ []

abbrev separator : Token
separator = record { start = 8; kind = TokenKind.operator (codes ";") }

abbrev after : List Token
after =
    record { start = 10; kind = TokenKind.word (codes "sudo") }
    ∷ record { start = 15; kind = TokenKind.word (codes "-u") }
    ∷ []

command_position_before-append_example :
    command_position_before (before ++ separator ∷ after) 18 ≡ command_position_before after 18
command_position_before-append_example =
    command_position_before-append 18 8 (codes ";") before after refl refl

completion_words-append_example :
    completion_words (before ++ separator ∷ after) 15 (codes "-u")
    ≡ completion_words after 15 (codes "-u")
completion_words-append_example =
    completion_words-append 15 (codes "-u") before separator after refl

typed_parent_and_leaf-IsSplit_example :
    (typed_parent_and_leaf (codes "src/lib") ≡ (codes "src/", codes "lib"))
    ↔ IsSplit b'/' (codes "src/lib") (codes "src/") (codes "lib")
typed_parent_and_leaf-IsSplit_example =
    typed_parent_and_leaf-IsSplit (codes "src/lib") (codes "src/") (codes "lib")
