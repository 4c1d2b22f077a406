-- ===== src/Context/TypedWords.antt =====
-- The words that `completion_words` of completion/context.rs gathers, for tokens in order.
use Prim.Native.Nat.{compare, Ordering}
use bash_lume.Base.{
  ℕ, zero, suc, ◌≤◌, ◌<◌, ◌≡◌, inl, inr, refl, ap, ◌∙◌, Bool, true, false, List, [], ◌∷◌, ◌++◌,
  arith, length, length-append, drop, ltb, le→ltb, ltb→lt, ltb→le, All, Bool-cases, if◌then◌else◌,
}
use bash_lume.Context.Quoting.{Text}
use bash_lume.Context.Words.{TokenKind, Token}
use bash_lume.Context.Segment.{segment_from, words_from, completion_words}
use bash_lume.Context.TokenOrder.{IsSorted}

-- The tokens that start before a position.
abbrev pub tokens_before : ℕ → List Token → List Token
tokens_before start [] = []
tokens_before start (t ∷ ts) =
    let rest = tokens_before start ts in if ltb t.start start then t ∷ rest else rest

-- The texts of the words that are no target of a redirection; the first word is one if the flag is set.
abbrev pub argument_words : Bool → List Token → List Text
argument_words target [] = []
argument_words target (t ∷ ts) = elim t.kind [
  | TokenKind.redirect ↦ argument_words true ts
  | TokenKind.operator op ↦ argument_words target ts
  | TokenKind.comment ↦ argument_words target ts
  | TokenKind.word text ↦ let rest = argument_words false ts in if target then rest else text ∷ rest
]

-- The words of the simple command at a position that start before a bound.
abbrev pub segment_words : List Token → ℕ → ℕ → List Text
segment_words tokens start bound =
    argument_words false (tokens_before bound (drop (segment_from start 0 0 tokens) tokens))

abbrev pub typed_words : List Token → ℕ → List Text
typed_words tokens start = segment_words tokens start start

-- The words and the flag of `completion_words`, with the query pushed where it is missing.
abbrev pub finished : Text → List Text × Bool → List Text
finished query (words, present) = if present then words else words ++ query ∷ []

-- The typed words, then the query, once at least.
pub record IsTyped (query : Text) (typed result : List Text) : Type 0 where
  pub repeats : List Text
  pub same : All (λ w. w ≡ query) repeats
  pub words : result ≡ typed ++ (repeats ++ query ∷ [])

IsTyped-cons :
    (query text : Text) (typed words : List Text) (present : Bool)
    → IsTyped query typed (finished query (words, present))
    → IsTyped query (text ∷ typed) (finished query (text ∷ words, present))
IsTyped-cons query text typed words true h = record {
  repeats = h.repeats;
  same = h.same;
  words = ap (λ ws. text ∷ ws) h.words;
}
IsTyped-cons query text typed words false h = record {
  repeats = h.repeats;
  same = h.same;
  words = ap (λ ws. text ∷ ws) h.words;
}

-- From the current word on, only the query is pushed.
abbrev IsRepeated : Text → List Text × Bool → Type 0
IsRepeated query (words, true) =
    (rest : List Text) × (words ≡ query ∷ rest) × All (λ w. w ≡ query) rest
IsRepeated query (words, false) = words ≡ []

same-rotate :
    (query : Text) (rest : List Text)
    → All (λ w. w ≡ query) rest
    → query ∷ rest ≡ rest ++ query ∷ []
same-rotate query [] h = refl
same-rotate query (w ∷ rest) h = rw h.0 (ap (λ ws. query ∷ ws) (same-rotate query rest h.1))

IsRepeated-IsTyped :
    (query : Text) (words : List Text) (present : Bool)
    → IsRepeated query (words, present)
    → IsTyped query [] (finished query (words, present))
IsRepeated-IsTyped query words true (rest, e, same) = record {
  repeats = rest;
  same = same;
  words = e ∙ same-rotate query rest same;
}
IsRepeated-IsTyped query words false h = record {
  repeats = [];
  same = tt;
  words = ap (λ ws. ws ++ query ∷ []) h;
}

IsRepeated-cons :
    (query : Text) (words : List Text) (present : Bool)
    → IsRepeated query (words, present)
    → IsRepeated query (query ∷ words, true)
IsRepeated-cons query words true (rest, e, same) = (words, refl, rw e (refl, same))
IsRepeated-cons query words false h = (words, refl, rw h tt)

module _ (start : ℕ) (query : Text) where
  -- A word that does not start before the current one.
  IsRepeated-word :
      (at : ℕ) (text : Text) (words : List Text) (present : Bool) (o : Ordering)
      → start ≤ at
      → compare at start ≡ o
      → IsRepeated query (words, present)
      → IsRepeated query (elim o [
        | Ordering.eq ↦ (query ∷ words, true)
        | Ordering.lt ↦ (text ∷ words, present)
        | Ordering.gt ↦ (words, present)
      ])
  IsRepeated-word at text words present Ordering.lt le e h =
      let lt : at < start = ground (arith, e) in absurd (omega arith)
  IsRepeated-word at text words present Ordering.eq le e h = IsRepeated-cons query words present h
  IsRepeated-word at text words present Ordering.gt le e h = h

  IsRepeated-step :
      (at : ℕ) (kind : TokenKind) (ts : List Token)
      → start ≤ at
      → ((target : Bool) → IsRepeated query (words_from start query target ts))
      → (target : Bool)
      → IsRepeated query (words_from start query target (record { start = at; kind = kind } ∷ ts))
  unfolding words_from
  IsRepeated-step at TokenKind.redirect ts le ih target = ih true
  IsRepeated-step at (TokenKind.operator op) ts le ih target = ih target
  IsRepeated-step at TokenKind.comment ts le ih target = ih target
  IsRepeated-step at (TokenKind.word text) ts le ih true = ih false
  IsRepeated-step at (TokenKind.word text) ts le ih false =
      let later = words_from start query false ts in
      IsRepeated-word at text later.0 later.1 (compare at start) le refl (ih false)

  IsTyped-step :
      (at : ℕ) (kind : TokenKind) (ts : List Token)
      → at < start
      → ((target : Bool)
          → IsTyped query
              (argument_words target (tokens_before start ts))
              (finished query (words_from start query target ts)))
      → (target : Bool)
      → IsTyped query
          (argument_words target (record { start = at; kind = kind } ∷ tokens_before start ts))
          (finished query (words_from start query target (record { start = at; kind = kind } ∷ ts)))
  unfolding words_from
  IsTyped-step at TokenKind.redirect ts lt ih target = ih true
  IsTyped-step at (TokenKind.operator op) ts lt ih target = ih target
  IsTyped-step at TokenKind.comment ts lt ih target = ih target
  IsTyped-step at (TokenKind.word text) ts lt ih true = ih false
  IsTyped-step at (TokenKind.word text) ts lt ih false =
      let later = words_from start query false ts in
      let e : compare at start ≡ Ordering.lt = ground arith in
      rw e (
        IsTyped-cons query text (argument_words false (tokens_before start ts)) later.0 later.1
          (ih false))

  -- Tokens that all start from the current word on.
  IsRepeated-all :
      (lo end : ℕ) (ts : List Token)
      → start ≤ lo
      → IsSorted lo end ts
      → (target : Bool) → IsRepeated query (words_from start query target ts)
  unfolding words_from
  IsRepeated-all lo end [] le h target = refl
  IsRepeated-all lo end (t ∷ ts) le h target =
      IsRepeated-step t.start t.kind ts (omega (arith, h.0))
        (IsRepeated-all t.start end ts (omega (arith, h.0)) h.2) target

  pub none_before :
      (lo end : ℕ) (ts : List Token) → start ≤ lo → IsSorted lo end ts → tokens_before start ts ≡ []
  none_before lo end [] le h = refl
  none_before lo end (t ∷ ts) le h =
      rw (le→ltb start t.start (omega (arith, h.0)))
        (none_before t.start end ts (omega (arith, h.0)) h.2)

  -- The words of tokens in order are the typed words, then the query.
  words_from-IsTyped :
      (lo end : ℕ) (ts : List Token)
      → IsSorted lo end ts
      → (target : Bool)
      → IsTyped query
          (argument_words target (tokens_before start ts))
          (finished query (words_from start query target ts))
  unfolding words_from
  words_from-IsTyped lo end [] h target = record { repeats = []; same = tt; words = refl }
  words_from-IsTyped lo end (t ∷ ts) h target = elim (Bool-cases (ltb t.start start)) [
    | inl earlier ↦ rw earlier (
        IsTyped-step t.start t.kind ts (ltb→lt t.start start earlier)
          (words_from-IsTyped t.start end ts h.2) target)
    | inr later ↦
        let le = ltb→le start t.start later in
        let r = words_from start query target (t ∷ ts) in
        let nothing = none_before t.start end (t ∷ ts) le (omega arith, h.1, h.2) in
        rw nothing (
          IsRepeated-IsTyped query r.0 r.1
            (IsRepeated-all t.start end (t ∷ ts) le (omega arith, h.1, h.2) target))
  ]

pub IsSorted-drop :
    (n lo end : ℕ) (ts : List Token) → IsSorted lo end ts → (lo' : ℕ) × IsSorted lo' end (drop n ts)
IsSorted-drop zero lo end ts h = (lo, h)
IsSorted-drop (suc n) lo end [] h = (lo, tt)
IsSorted-drop (suc n) lo end (t ∷ ts) h = IsSorted-drop n t.start end ts h.2

pub completion_words-IsTyped :
    (lo end : ℕ) (tokens : List Token) (start : ℕ) (query : Text)
    → IsSorted lo end tokens
    → IsTyped query (typed_words tokens start) (completion_words tokens start query).0
unfolding completion_words
completion_words-IsTyped lo end tokens start query h =
    let n = segment_from start 0 0 tokens in
    let (lo', sorted) = IsSorted-drop n lo end tokens h in
    words_from-IsTyped start query lo' end (drop n tokens) sorted false

pub IsTyped-length :
    (query : Text) (typed result : List Text) → IsTyped query typed result → 1 ≤ length result
IsTyped-length query typed result h =
    let whole = ap length h.words in
    let outer = length-append typed (h.repeats ++ query ∷ []) in
    let inner = length-append h.repeats (query ∷ []) in omega (arith, whole, outer, inner)
