-- ===== src/Context/TokenOrder.antt =====
-- The order of the tokens, and the parts of the loop of `lex_shell` in completion/context.rs that keep it.
use bash_lume.Base.{
  ℕ, zero, suc, ◌+◌, ◌≤◌, ◌<◌, ◌≡◌, refl, true, ◌&&◌, not, Option, none, some, List, [], ◌∷◌, ◌++◌,
  Bytes, arith, ltb, ltb→lt, ◌==◌, and-eq-true, Bool-cases, inl, inr,
}
use bash_lume.Context.Words.{TokenKind, Token}
use bash_lume.Context.Lexer.{
  byte_at, LexState, get_or_insert, utf8_char_len, flush_word, next_character, comment_end,
}

-- Tokens from `lo` on and before `end`, in the order of their starts.
abbrev pub IsSorted : ℕ → ℕ → List Token → Type 0
IsSorted lo end [] = Unit
IsSorted lo end (t ∷ ts) = (lo ≤ t.start) × (t.start < end) × IsSorted t.start end ts

pub IsSorted-widen :
    (lo end end' : ℕ) (ts : List Token) → end ≤ end' → IsSorted lo end ts → IsSorted lo end' ts
IsSorted-widen lo end end' [] le h = tt
IsSorted-widen lo end end' (t ∷ ts) le h =
    (h.0, omega (arith, h.1), IsSorted-widen t.start end end' ts le h.2)

pub IsSorted-append :
    (lo end start end' : ℕ) (kind : TokenKind) (ts : List Token)
    → IsSorted lo end ts
    → lo ≤ start
    → end ≤ start + 1
    → start < end'
    → IsSorted lo end' (ts ++ record { start = start; kind = kind } ∷ [])
IsSorted-append lo end start end' kind [] h low le lt = (low, lt, tt)
IsSorted-append lo end start end' kind (t ∷ ts) h low le lt = (
  h.0,
  omega (arith, h.1),
  IsSorted-append t.start end start end' kind ts h.2 (omega (arith, h.1)) le lt,
)

-- Before which position the tokens start: the current one, or up to the word that is open.
abbrev pub edge : Option ℕ → ℕ → ℕ
edge none index = index
edge (some start) index = start + 1

abbrev pub IsPlaced : List Token → Option ℕ → ℕ → Type 0
IsPlaced ts word_start index =
    IsSorted 0 (edge word_start index) ts × (edge word_start index ≤ index)

pub IsPlaced-insert :
    (ts : List Token) (word_start : Option ℕ) (start i j : ℕ)
    → start ≤ i
    → i ≤ start + 1
    → i < j
    → IsPlaced ts word_start i
    → IsPlaced ts (get_or_insert word_start start) j
IsPlaced-insert ts none start i j low high lt h =
    (IsSorted-widen 0 i (start + 1) ts high h.0, omega arith)
IsPlaced-insert ts (some w) start i j low high lt h = (h.0, omega (arith, h.1))

pub IsPlaced-keep :
    (ts : List Token) (word_start : Option ℕ) (i j : ℕ)
    → i < j
    → IsPlaced ts word_start i
    → IsPlaced ts word_start j
IsPlaced-keep ts none i j lt h = (IsSorted-widen 0 i j ts (omega arith) h.0, omega arith)
IsPlaced-keep ts (some w) i j lt h = (h.0, omega (arith, h.1))

module _ (line : Bytes) (point : ℕ) where
  pub next_character_bounds :
      (index : ℕ)
      → index < point
      → (index < next_character line point index) × (next_character line point index ≤ point)
  unfolding next_character utf8_char_len
  next_character_bounds index h = ground arith

  pub comment_end_bounds :
      (fuel index : ℕ)
      → index ≤ point
      → (index ≤ comment_end line point fuel index) × (comment_end line point fuel index ≤ point)
  unfolding comment_end
  comment_end_bounds zero index h = omega arith
  comment_end_bounds (suc fuel) index h =
      elim (Bool-cases (ltb index point && not (byte_at line index == b'\n'))) [
        | inl goes ↦
            let (later, inside) =
              next_character_bounds index
                (ltb→lt index point (and-eq-true (ltb index point) _ goes).0) in
            let rest = comment_end_bounds fuel (next_character line point index) inside in
            rw goes (omega (arith, rest, later))
        | inr ends ↦ rw ends (omega arith)
      ]

  -- A comment takes at least its first character.
  pub comment_end_progress :
      (fuel index : ℕ)
      → index < point
      → (byte_at line index == b'#') ≡ true
      → index < comment_end line point (suc fuel) index
  unfolding comment_end
  comment_end_progress fuel index h hash =
      let (later, inside) = next_character_bounds index h in
      let rest = comment_end_bounds fuel (next_character line point index) inside in
      let goes : (ltb index point && not (byte_at line index == b'\n')) ≡ true = ground arith in
      rw goes (omega (arith, rest, later))

  pub flush_word-IsSorted :
      (end : ℕ) (s : LexState)
      → IsPlaced s.tokens s.word_start s.index
      → IsSorted 0 s.index (flush_word line point end s).tokens
  unfolding flush_word
  flush_word-IsSorted end s h = flushed s.word_start h
    where
      flushed :
          (w : Option ℕ)
          → IsPlaced s.tokens w s.index
          → IsSorted 0 s.index (flush_word line point end (record s { word_start = w })).tokens
      flushed none h = h.0
      flushed (some start) h =
          IsSorted-append 0 (start + 1) start s.index _ s.tokens h.0 (omega arith) (omega arith)
            (omega (arith, h.1))

  pub flush_word-none : (end : ℕ) (s : LexState) → (flush_word line point end s).word_start ≡ none
  unfolding flush_word
  flush_word-none end s =
      elim s.word_start
        as (λ w. (flush_word line point end (record s { word_start = w })).word_start ≡ none) [
          | none ↦ refl
          | some start ↦ refl
        ]

  pub flush_word-index : (end : ℕ) (s : LexState) → (flush_word line point end s).index ≡ s.index
  unfolding flush_word
  flush_word-index end s =
      elim s.word_start
        as (λ w. (flush_word line point end (record s { word_start = w })).index ≡ s.index) [
          | none ↦ refl
          | some start ↦ refl
        ]
