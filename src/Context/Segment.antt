-- ===== src/Context/Segment.antt =====
-- `completion_words` and `typed_parent_and_leaf` of completion/context.rs.
use Prim.Native.Nat.{compare, Ordering}
use bash_lume.Base.{
  ℕ, suc, ◌-◌, Bool, true, false, ◌&&◌, Option, none, some, List, [], ◌∷◌, ◌++◌, length, take, ltb,
  ◌==◌, drop, if◌then◌else◌,
}
use bash_lume.Context.Quoting.{Text}
use bash_lume.Context.Words.{TokenKind, Token, is_one_of}

-- The operators that end a simple command.
abbrev pub ends_segment : TokenKind → Bool
ends_segment (TokenKind.operator op) = is_one_of op (";" ∷ "&" ∷ "&&" ∷ "|" ∷ "||" ∷ "(" ∷ [])
ends_segment (TokenKind.word text) = false
ends_segment TokenKind.redirect = false
ends_segment TokenKind.comment = false

-- The position after the last such operator before the current word, from a token with its index on.
unfoldable pub segment_from : ℕ → ℕ → ℕ → List Token → ℕ
segment_from current_start index found [] = found
segment_from current_start index found (t ∷ ts) =
    segment_from current_start (suc index)
      (if ltb t.start current_start && ends_segment t.kind then suc index else found) ts

-- `words`, without the query that is pushed where the current word is missing, and `current_present`.
unfoldable pub words_from : ℕ → Text → Bool → List Token → List Text × Bool
words_from current_start current_query redirect_target [] = ([], false)
words_from current_start current_query redirect_target (t ∷ ts) = elim t.kind [
  | TokenKind.redirect ↦ words_from current_start current_query true ts
  | TokenKind.operator op ↦ words_from current_start current_query redirect_target ts
  | TokenKind.comment ↦ words_from current_start current_query redirect_target ts
  | TokenKind.word text ↦
      let (words, present) = words_from current_start current_query false ts in
      if redirect_target then (words, present) else elim (compare t.start current_start) [
        | Ordering.eq ↦ (current_query ∷ words, true)
        | Ordering.lt ↦ (text ∷ words, present)
        | Ordering.gt ↦ (words, present)
      ]
]

unfoldable pub completion_words : List Token → ℕ → Text → List Text × ℕ
unfolding segment_from words_from
completion_words tokens current_start current_query =
    let segment = drop (segment_from current_start 0 0 tokens) tokens in
    let (before, present) = words_from current_start current_query false segment in
    let words = if present then before else before ++ current_query ∷ [] in
    (words, length words - 1)

-- `query.rfind(c)`
unfoldable pub rfind : ℕ → Text → Option ℕ
rfind c [] = none
rfind c (d ∷ rest) = elim (rfind c rest) [
  | some index ↦ some (suc index)
  | none ↦ if d == c then some 0 else none
]

-- The text up to and with the index, and the rest.
unfoldable pub split_after : Text → Option ℕ → Text × Text
split_after query (some index) = (take (suc index) query, drop (suc index) query)
split_after query none = ([], query)

unfoldable pub typed_parent_and_leaf : Text → Text × Text
unfolding rfind split_after
typed_parent_and_leaf query = split_after query (rfind b'/' query)
