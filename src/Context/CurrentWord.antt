-- ===== src/Context/CurrentWord.antt =====
-- The words of an analysed line in completion/context.rs: those before the current word, the current word and the
-- command.
use Prim.Native.Nat.{max}
use bash_lume.Base.{
  suc, ◌≡◌, true, false, Option, none, some, List, [], ◌∷◌, ◌++◌, length, all, All,
}
use bash_lume.Context.Quoting.{Text}
use bash_lume.Context.Words.{Token, is_assignment}
use bash_lume.Context.TypedWords.{segment_words, typed_words}
use bash_lume.Context.Analysis.{CompletionContext}

-- The command is the first word that is no assignment.
abbrev pub IsCommand : List Text → Option Text → Type 0
IsCommand words none = all is_assignment words ≡ true
IsCommand words (some name) =
    (before : List Text) × (after : List Text) × (words ≡ before ++ name ∷ after)
    × (all is_assignment before ≡ true)
    × (is_assignment name ≡ false)

-- The words of a context: the typed words, then the current word, once or as often as words start at its place; its
-- index is the last, and the command.
pub record IsCurrent (tokens : List Token) (c : CompletionContext) : Type 0 where
  pub repeats : List Text
  pub same : All (λ w. w ≡ c.query) repeats
  pub words : c.words ≡ typed_words tokens c.replace_start ++ (repeats ++ c.query ∷ [])
  pub count :
      length c.words
      ≡ max
          (suc (length (typed_words tokens c.replace_start)))
          (length (segment_words tokens c.replace_start (suc c.replace_start)))
  pub index : length c.words ≡ suc c.word_index
  pub command : IsCommand c.words c.command_name
