-- ===== src/Context/LexerLaws.antt =====
-- The loop of `lex_shell` in completion/context.rs: its progress, and where the tokens stand.
use mathlib.Core.Path.{subst}
use bash_lume.Base.{
  ℕ, zero, suc, ◌+◌, ◌-◌, ◌≤◌, ◌<◌, ◌≡◌, refl, Bool, true, false, ◌&&◌, Option, none, some, [], ◌∷◌,
  ◌++◌, Bytes, arith, ltb, ltb→lt, ltb→le, ◌==◌, if-All, Bool-cases, inl, inr, saturating_add,
  if◌then◌else◌,
}
use bash_lume.Context.Quoting.{QuoteMode}
use bash_lume.Context.Words.{TokenKind, codes}
use bash_lume.Context.Lexer.{
  is_blank, is_operator, is_angle, byte_at, LexState, is_unquoted, is_none, get_or_insert,
  after_quoted, follows_dollar, flush_word, next_character, comment_end, push_token, lex_comment,
  operator_end, redirect_end, lex_unquoted, lex_turn, lex_loop, lex_start, lex_shell,
}
use bash_lume.Context.TokenOrder.{
  IsSorted, IsSorted-widen, IsSorted-append, IsPlaced-insert, IsPlaced-keep, flush_word-IsSorted,
  flush_word-none, IsPlaced, next_character_bounds, comment_end_bounds, comment_end_progress,
}

module _ (line : Bytes) (point : ℕ) where
  -- A state that a turn reaches: later, not past `point`, with its tokens in place.
  record Turns (s t : LexState) : Type 0 where
    later : s.index < t.index
    within : t.index ≤ point
    placed : IsPlaced t.tokens t.word_start t.index

  module _ (s : LexState) (before : s.index < point)
      (placed : IsPlaced s.tokens s.word_start s.index) where
    push_token-Turns :
        (kind : TokenKind) (end : ℕ)
        → s.index < end
        → end ≤ point
        → Turns s (push_token line point s.index kind end (flush_word line point s.index s))
    unfolding push_token
    push_token-Turns kind end lt le = record {
      later = lt;
      within = le;
      placed = rw (flush_word-none line point s.index s) (
        IsSorted-append 0 s.index s.index end kind _
            (flush_word-IsSorted line point s.index s placed) (omega arith) (omega arith) lt,
        omega arith,
      );
    }

    lex_comment-Turns :
        (byte_at line s.index == b'#') ≡ true
        → is_none s.word_start ≡ true
        → Turns s (lex_comment line point s)
    unfolding lex_comment push_token
    lex_comment-Turns hash idle = record {
      later = progress;
      within = (comment_end_bounds line point point s.index (omega arith)).1;
      placed = comment s.word_start idle placed;
    }
      where
        progress : s.index < comment_end line point point s.index
        progress =
            let e : suc (point - 1) ≡ point = omega arith in
            subst (λ f. s.index < comment_end line point f s.index) e
              (comment_end_progress line point (point - 1) s.index before hash)

        comment :
            (w : Option ℕ)
            → is_none w ≡ true
            → IsPlaced s.tokens w s.index
            → IsPlaced
                (s.tokens ++ record { start = s.index; kind = TokenKind.comment } ∷ [])
                w
                (comment_end line point point s.index)
        comment none e h = (
          IsSorted-append 0 s.index s.index _ TokenKind.comment s.tokens h.0 (omega arith)
              (omega arith) progress,
          omega arith,
        )
        comment (some w) e h = cc

    -- A byte that belongs to a word: the word starts there at the latest.
    word-Turns :
        (start end depth : ℕ) (quote : QuoteMode) (escaped : Bool)
        → start ≤ s.index
        → s.index ≤ start + 1
        → s.index < end
        → end ≤ point
        → Turns s (record s {
          word_start = get_or_insert s.word_start start;
          parameter_depth = depth;
          quote = quote;
          escaped = escaped;
          index = end;
        })
    word-Turns start end depth quote escaped low high lt le = record {
      later = lt;
      within = le;
      placed = IsPlaced-insert s.tokens s.word_start start s.index end low high lt placed;
    }

    -- A byte that leaves the tokens and the open word.
    keep-Turns :
        (depth : ℕ) (quote : QuoteMode) (escaped : Bool)
        → Turns s (record s {
          parameter_depth = depth;
          quote = quote;
          escaped = escaped;
          index = s.index + 1;
        })
    keep-Turns depth quote escaped = record {
      later = omega arith;
      within = omega arith;
      placed = IsPlaced-keep s.tokens s.word_start s.index (s.index + 1) (omega arith) placed;
    }

    flush-Turns : Turns s (record (flush_word line point s.index s) { index = s.index + 1 })
    flush-Turns = record {
      later = omega arith;
      within = omega arith;
      placed = rw (flush_word-none line point s.index s) (
        IsSorted-widen 0 s.index (s.index + 1) _ (omega arith)
            (flush_word-IsSorted line point s.index s placed),
        omega arith,
      );
    }

    lex_unquoted-Turns :
        (interactive_comments : Bool) (byte : ℕ)
        → byte ≡ byte_at line s.index
        → Turns s (lex_unquoted line point interactive_comments byte s)
    unfolding lex_unquoted operator_end redirect_end
    lex_unquoted-Turns interactive_comments byte e =
        let i = s.index in
        let (later, inside) = next_character_bounds line point i before in
        if-All (Turns s) (byte == b'{' && follows_dollar line i)
          (λ opens.
            word-Turns (i - 1) (i + 1) (saturating_add s.parameter_depth 1) s.quote s.escaped
              (omega arith) (omega arith) (omega arith) (omega arith))
          (λ _.
            if-All (Turns s) (byte == b'}' && ltb 0 s.parameter_depth)
              (λ closes. keep-Turns (s.parameter_depth - 1) s.quote s.escaped)
              (λ _.
                if-All (Turns s) (byte == b'#' && interactive_comments && is_none s.word_start)
                  (λ comment. lex_comment-Turns (ground arith) (ground arith))
                  (λ _.
                    if-All (Turns s) (byte == b'\\')
                      (λ escapes.
                        word-Turns i (i + 1) s.parameter_depth s.quote true (omega arith)
                          (omega arith) (omega arith) (omega arith))
                      (λ _.
                        if-All (Turns s) (byte == b'\'')
                          (λ quotes.
                            word-Turns i (i + 1) s.parameter_depth
                              (if follows_dollar line i then QuoteMode.ansi_c else QuoteMode.single)
                              s.escaped (omega arith) (omega arith) (omega arith) (omega arith))
                          (λ _.
                            if-All (Turns s) (byte == b'"')
                              (λ quotes.
                                word-Turns i (i + 1) s.parameter_depth QuoteMode.double s.escaped
                                  (omega arith) (omega arith) (omega arith) (omega arith))
                              (λ _.
                                if-All (Turns s) (is_blank byte) (λ blank. flush-Turns)
                                  (λ _.
                                    if-All (Turns s) (byte == b'\n')
                                      (λ newline.
                                        push_token-Turns (TokenKind.operator (codes ";")) (i + 1)
                                          (omega arith) (omega arith))
                                      (λ _.
                                        if-All (Turns s) (is_operator byte)
                                          (λ op. push_token-Turns _ _ (ground arith) (ground arith))
                                          (λ _.
                                            if-All (Turns s) (is_angle byte)
                                              (λ angle.
                                                push_token-Turns TokenKind.redirect _ (ground arith)
                                                  (ground arith))
                                              (λ _.
                                                word-Turns i (next_character line point i)
                                                  s.parameter_depth s.quote s.escaped (omega arith)
                                                  (omega arith) later inside))))))))))

    lex_turn-Turns :
        (interactive_comments : Bool) → Turns s (lex_turn line point interactive_comments s)
    unfolding lex_turn
    lex_turn-Turns interactive_comments =
        if-All (Turns s) s.escaped (λ escaped. keep-Turns s.parameter_depth s.quote false)
          (λ _.
            if-All (Turns s) (is_unquoted s.quote)
              (λ outside. lex_unquoted-Turns interactive_comments (byte_at line s.index) refl)
              (λ inside.
                keep-Turns s.parameter_depth (after_quoted s.quote (byte_at line s.index)).0
                  (after_quoted s.quote (byte_at line s.index)).1))

  lex_loop-IsPlaced :
      (interactive_comments : Bool) (fuel : ℕ) (s : LexState)
      → s.index ≤ point
      → point ≤ s.index + fuel
      → IsPlaced s.tokens s.word_start s.index
      → let t = lex_loop line point interactive_comments fuel s in
        (t.index ≡ point) × IsPlaced t.tokens t.word_start t.index
  unfolding lex_loop
  lex_loop-IsPlaced interactive_comments zero s le enough h = (omega arith, h)
  lex_loop-IsPlaced interactive_comments (suc fuel) s le enough h =
      elim (Bool-cases (ltb s.index point)) [
        | inl goes ↦
            let turn = lex_turn-Turns s (ltb→lt s.index point goes) h interactive_comments in
            rw goes (
              lex_loop-IsPlaced interactive_comments fuel
                (lex_turn line point interactive_comments s) turn.within (omega (arith, turn.later))
                turn.placed)
        | inr ends ↦ rw ends (omega (arith, ltb→le point s.index ends), h)
      ]

  -- The loop of the lexer ends by its own test, at the position: the turns it is given are enough.
  pub lex_loop-ends :
      (interactive_comments : Bool)
      → (lex_loop line point interactive_comments point lex_start).index ≡ point
  lex_loop-ends interactive_comments =
      (lex_loop-IsPlaced interactive_comments point lex_start (omega arith) (omega arith)
        (tt, omega arith)).0

  -- The tokens of a line stand in the order of their starts, all before the position.
  pub lex_shell-IsSorted :
      (interactive_comments : Bool) → IsSorted 0 point (lex_shell line point interactive_comments).0
  unfolding lex_shell
  lex_shell-IsSorted interactive_comments =
      let (ended, placed) =
        lex_loop-IsPlaced interactive_comments point lex_start (omega arith) (omega arith)
          (tt, omega arith) in
      let end = lex_loop line point interactive_comments point lex_start in
      rw ended at (flush_word-IsSorted line point point end placed)
