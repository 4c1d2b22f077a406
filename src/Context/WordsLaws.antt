-- ===== src/Context/WordsLaws.antt =====
-- Command positions and words after a separator, in completion/context.rs.
use bash_lume.Base.{
  ℕ, suc, ◌+◌, ◌≡◌, refl, ap, ◌∙◌, true, false, ◌&&◌, not, List, [], ◌∷◌, ◌++◌, arith, length, ltb,
  drop, Bool-cases, inl, inr, if◌then◌else◌,
}
use bash_lume.Context.Quoting.{Text}
use bash_lume.Context.Words.{
  TokenKind, Token, CommandState, initial_state, starts_command, read_token, read_tokens,
  command_position_before,
}
use bash_lume.Context.Segment.{ends_segment, segment_from, completion_words}

read_tokens-append :
    (s : CommandState) (n : ℕ) (before after : List Token)
    → read_tokens s n (before ++ after) ≡ read_tokens (read_tokens s n before) n after
unfolding read_tokens
read_tokens-append s n [] after = refl
read_tokens-append s n (t ∷ ts) after =
    read_tokens-append (if ltb t.start n then read_token s t.kind else s) n ts after

read_tokens-separator :
    (s : CommandState) (n start : ℕ) (op : Text) (after : List Token)
    → starts_command op ≡ true
    → ltb start n ≡ true
    → read_tokens s n (record { start = start; kind = TokenKind.operator op } ∷ after)
      ≡ read_tokens initial_state n after
unfolding read_tokens read_token
read_tokens-separator s n start op after starts earlier =
    ap (λ b. read_tokens (if b then read_token s (TokenKind.operator op) else s) n after) earlier
    ∙ ap
        (λ b.
          read_tokens (if b then initial_state else record s { expect_redirect_target = false }) n
            after)
        starts

-- Whatever tokens stand before an operator that starts a command, itself before the current word, the command
-- position of that word is decided by the tokens after the operator.
pub command_position_before-append :
    (n start : ℕ) (op : Text) (before after : List Token)
    → starts_command op ≡ true
    → ltb start n ≡ true
    → command_position_before
        (before ++ record { start = start; kind = TokenKind.operator op } ∷ after)
        n
      ≡ command_position_before after n
unfolding command_position_before
command_position_before-append n start op before after starts earlier =
    let t : Token = record { start = start; kind = TokenKind.operator op } in
    ap (λ (s : CommandState). s.expect_command && not s.expect_redirect_target)
      (read_tokens-append initial_state n before (t ∷ after)
        ∙ read_tokens-separator (read_tokens initial_state n before) n start op after starts
            earlier)

segment_from-shift :
    (n k index found : ℕ) (ts : List Token)
    → segment_from n (k + index) (k + found) ts ≡ k + segment_from n index found ts
unfolding segment_from
segment_from-shift n k index found [] = refl
segment_from-shift n k index found (t ∷ ts) =
    let next : k + suc index ≡ suc (k + index) = omega arith in
    elim (Bool-cases (ltb t.start n && ends_segment t.kind)) [
      | inl ends ↦ rw ends (rw next at (segment_from-shift n k (suc index) (suc index) ts))
      | inr goes ↦ rw goes (rw next at (segment_from-shift n k (suc index) found ts))
    ]

-- A token that ends a simple command before the current word.
abbrev IsSeparator : ℕ → Token → Type 0
IsSeparator n t = (ltb t.start n && ends_segment t.kind) ≡ true

segment_from-append :
    (n index found : ℕ) (before : List Token) (t : Token) (after : List Token)
    → IsSeparator n t
    → segment_from n index found (before ++ t ∷ after)
      ≡ segment_from n (length before + suc index) (length before + suc index) after
unfolding segment_from
segment_from-append n index found [] t after ends =
    let same : suc index ≡ 0 + suc index = omega arith in
    ap (λ b. segment_from n (suc index) (if b then suc index else found) after) ends
    ∙ ap (λ i. segment_from n i i after) same
segment_from-append n index found (x ∷ xs) t after ends =
    let next : length xs + suc (suc index) ≡ suc (length xs) + suc index = omega arith in
    rw next at (
      segment_from-append n (suc index)
        (if ltb x.start n && ends_segment x.kind then suc index else found) xs t after ends)

drop-append {ℓ} :
    {A : Type ℓ} (before : List A) (m : ℕ) (t : A) (after : List A)
    → drop (length before + suc m) (before ++ t ∷ after) ≡ drop m after
drop-append [] m t after = let e : 0 + suc m ≡ suc m = omega arith in rw e refl
drop-append (x ∷ xs) m t after =
    let e : suc (length xs) + suc m ≡ suc (length xs + suc m) = omega arith in
    rw e (drop-append xs m t after)

segment-append :
    (n : ℕ) (before : List Token) (t : Token) (after : List Token)
    → IsSeparator n t
    → drop (segment_from n 0 0 (before ++ t ∷ after)) (before ++ t ∷ after)
      ≡ drop (segment_from n 0 0 after) after
segment-append n before t after ends =
    let k = length before in
    let m = segment_from n 0 0 after in
    let padded : k + 1 ≡ (k + 1) + 0 = omega arith in
    let moved : (k + 1) + m ≡ k + suc m = omega arith in
    let at_start : segment_from n 0 0 (before ++ t ∷ after) ≡ k + suc m =
      segment_from-append n 0 0 before t after ends
      ∙ ap (λ i. segment_from n i i after) padded
      ∙ segment_from-shift n (k + 1) 0 0 after
      ∙ moved in
    ap (λ i. drop i (before ++ t ∷ after)) at_start ∙ drop-append before m t after

-- Whatever tokens stand before an operator that ends a simple command, itself before the current word, the words
-- and the index of the current one are those that the tokens after the operator give.
pub completion_words-append :
    (n : ℕ) (query : Text) (before : List Token) (t : Token) (after : List Token)
    → (ltb t.start n && ends_segment t.kind) ≡ true
    → completion_words (before ++ t ∷ after) n query ≡ completion_words after n query
unfolding completion_words
completion_words-append n query before t after ends =
    let segment = segment-append n before t after ends in rw segment refl
