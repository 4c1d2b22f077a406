-- ===== src/Context/WordCounts.antt =====
-- How many words `completion_words` of completion/context.rs gathers.
use Prim.Native.Nat.{compare, max, Ordering}
use bash_lume.Base.{
  ℕ, zero, suc, ◌≤◌, ◌<◌, ◌≡◌, inl, inr, refl, Bool, true, false, List, [], ◌∷◌, arith, length,
  length-append, drop, ltb, lt→ltb, ltb→lt, ltb→le, Bool-cases,
}
use bash_lume.Context.Quoting.{Text}
use bash_lume.Context.Words.{TokenKind, Token}
use bash_lume.Context.Segment.{segment_from, words_from, completion_words}
use bash_lume.Context.TokenOrder.{IsSorted}
use bash_lume.Context.TypedWords.{
  tokens_before, argument_words, segment_words, typed_words, finished, none_before, IsSorted-drop,
}

-- Words with their flag: as many as `upto`, more than `before` exactly if the flag is set.
abbrev IsCounted : ℕ → ℕ → List Text × Bool → Type 0
IsCounted before upto (words, true) = (length words ≡ upto) × (suc before ≤ upto)
IsCounted before upto (words, false) = (length words ≡ upto) × (before ≡ upto)

IsCounted-earlier :
    (before upto : ℕ) (text : Text) (words : List Text) (present : Bool)
    → IsCounted before upto (words, present)
    → IsCounted (suc before) (suc upto) (text ∷ words, present)
IsCounted-earlier before upto text words true h = (omega (arith, h.0), omega (arith, h.1))
IsCounted-earlier before upto text words false h = (omega (arith, h.0), omega (arith, h.1))

IsCounted-equal :
    (before upto : ℕ) (text : Text) (words : List Text) (present : Bool)
    → IsCounted before upto (words, present)
    → IsCounted before (suc upto) (text ∷ words, true)
IsCounted-equal before upto text words true h = (omega (arith, h.0), omega (arith, h.1))
IsCounted-equal before upto text words false h = (omega (arith, h.0), omega (arith, h.1))

finished-length :
    (query : Text) (before upto : ℕ) (words : List Text) (present : Bool)
    → IsCounted before upto (words, present)
    → length (finished query (words, present)) ≡ max (suc before) upto
finished-length query before upto words true h = ground (arith, h.0, h.1)
finished-length query before upto words false h =
    let e = length-append words (query ∷ []) in ground (arith, h.0, h.1, e)

module _ (start : ℕ) (query : Text) where
  -- The words of tokens, counted.
  abbrev WordsCounted : Bool → List Token → Type 0
  WordsCounted target ts =
      IsCounted (length (argument_words target (tokens_before start ts)))
        (length (argument_words target (tokens_before (suc start) ts)))
        (words_from start query target ts)

  later_step :
      (at : ℕ) (kind : TokenKind) (ts : List Token)
      → suc start ≤ at
      → ((target : Bool) → words_from start query target ts ≡ ([], false))
      → (target : Bool)
      → words_from start query target (record { start = at; kind = kind } ∷ ts) ≡ ([], false)
  unfolding words_from
  later_step at TokenKind.redirect ts le ih target = ih true
  later_step at (TokenKind.operator op) ts le ih target = ih target
  later_step at TokenKind.comment ts le ih target = ih target
  later_step at (TokenKind.word text) ts le ih true = ih false
  later_step at (TokenKind.word text) ts le ih false =
      let e : compare at start ≡ Ordering.gt = ground arith in rw e (ih false)

  -- Tokens behind the start of the current word give no words.
  words_from-later :
      (lo end : ℕ) (ts : List Token)
      → suc start ≤ lo
      → IsSorted lo end ts
      → (target : Bool) → words_from start query target ts ≡ ([], false)
  unfolding words_from
  words_from-later lo end [] le h target = refl
  words_from-later lo end (t ∷ ts) le h target =
      later_step t.start t.kind ts (omega (arith, h.0))
        (words_from-later t.start end ts (omega (arith, h.0)) h.2) target

  -- A word that starts before the current one counts twice, and one that starts with it once.
  earlier_step :
      (at : ℕ) (kind : TokenKind) (ts : List Token)
      → at < start
      → ((target : Bool) → WordsCounted target ts)
      → (target : Bool)
      → IsCounted
          (length
            (argument_words target (record { start = at; kind = kind } ∷ tokens_before start ts)))
          (length (
            argument_words target
              (record { start = at; kind = kind } ∷ tokens_before (suc start) ts)))
          (words_from start query target (record { start = at; kind = kind } ∷ ts))
  unfolding words_from
  earlier_step at TokenKind.redirect ts lt ih target = ih true
  earlier_step at (TokenKind.operator op) ts lt ih target = ih target
  earlier_step at TokenKind.comment ts lt ih target = ih target
  earlier_step at (TokenKind.word text) ts lt ih true = ih false
  earlier_step at (TokenKind.word text) ts lt ih false =
      let e : compare at start ≡ Ordering.lt = ground arith in
      let later = words_from start query false ts in
      rw e (IsCounted-earlier _ _ text later.0 later.1 (ih false))

  equal_step :
      (at : ℕ) (kind : TokenKind) (ts : List Token)
      → at ≡ start
      → ((target : Bool)
          → IsCounted zero
              (length (argument_words target (tokens_before (suc start) ts)))
              (words_from start query target ts))
      → (target : Bool)
      → IsCounted zero
          (length (
            argument_words target
              (record { start = at; kind = kind } ∷ tokens_before (suc start) ts)))
          (words_from start query target (record { start = at; kind = kind } ∷ ts))
  unfolding words_from
  equal_step at TokenKind.redirect ts same ih target = ih true
  equal_step at (TokenKind.operator op) ts same ih target = ih target
  equal_step at TokenKind.comment ts same ih target = ih target
  equal_step at (TokenKind.word text) ts same ih true = ih false
  equal_step at (TokenKind.word text) ts same ih false =
      let e : compare at start ≡ Ordering.eq = ground arith in
      let later = words_from start query false ts in
      rw e (IsCounted-equal _ _ query later.0 later.1 (ih false))

  -- Tokens that all start from the current word on.
  IsCounted-from :
      (lo end : ℕ) (ts : List Token)
      → start ≤ lo
      → IsSorted lo end ts
      → (target : Bool)
      → IsCounted zero
          (length (argument_words target (tokens_before (suc start) ts)))
          (words_from start query target ts)
  unfolding words_from
  IsCounted-from lo end [] le h target = (refl, refl)
  IsCounted-from lo end (t ∷ ts) le h target = elim (Bool-cases (ltb t.start (suc start))) [
    | inl equal ↦
        let same : t.start ≡ start =
          let lt = ltb→lt t.start (suc start) equal in omega (arith, h.0) in
        rw equal (
          equal_step t.start t.kind ts same (IsCounted-from t.start end ts (omega (arith, h.0)) h.2)
            target)
    | inr later ↦
        let le' = ltb→le (suc start) t.start later in
        let all_later : IsSorted t.start end (t ∷ ts) = (omega arith, h.1, h.2) in
        let none = none_before (suc start) query t.start end (t ∷ ts) le' all_later in
        let empty = words_from-later t.start end (t ∷ ts) le' all_later target in
        rw empty (rw none (refl, refl))
  ]

  words_from-WordsCounted :
      (lo end : ℕ) (ts : List Token) → IsSorted lo end ts → (target : Bool) → WordsCounted target ts
  unfolding words_from
  words_from-WordsCounted lo end [] h target = (refl, refl)
  words_from-WordsCounted lo end (t ∷ ts) h target = elim (Bool-cases (ltb t.start start)) [
    | inl earlier ↦
        let lt = ltb→lt t.start start earlier in
        rw earlier (
          rw (lt→ltb t.start (suc start) (omega arith))
            (earlier_step t.start t.kind ts lt (words_from-WordsCounted t.start end ts h.2) target))
    | inr later ↦
        let le = ltb→le start t.start later in
        let from : IsSorted t.start end (t ∷ ts) = (omega arith, h.1, h.2) in
        rw (none_before start query t.start end (t ∷ ts) le from)
          (IsCounted-from t.start end (t ∷ ts) le from target)
  ]

-- The words before the current one and one more, or the words up to its place if they are more.
pub completion_words-length :
    (lo end : ℕ) (tokens : List Token) (start : ℕ) (query : Text)
    → IsSorted lo end tokens
    → length (completion_words tokens start query).0
      ≡ max
          (suc (length (typed_words tokens start)))
          (length (segment_words tokens start (suc start)))
unfolding completion_words
completion_words-length lo end tokens start query h =
    let n = segment_from start 0 0 tokens in
    let (lo', sorted) = IsSorted-drop n lo end tokens h in
    let r = words_from start query false (drop n tokens) in
    finished-length query _ _ r.0 r.1
      (words_from-WordsCounted start query lo' end (drop n tokens) sorted false)
