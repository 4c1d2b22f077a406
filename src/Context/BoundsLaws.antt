-- ===== src/Context/BoundsLaws.antt =====
-- The bounds of the current word in completion/context.rs.
use mathlib.Core.Path.{subst}
use bash_lume.Base.{
  ℕ, zero, suc, ◌+◌, ◌-◌, ◌≤◌, ◌<◌, ◌≡◌, ◌⊎◌, refl, sym, ap, ◌∙◌, Bool, true, false, ◌&&◌, not, [],
  ◌∷◌, Bytes, arith, length, length-drop, drop, ltb, ltb→lt, lt→ltb, ltb→le, ◌==◌, and-eq-true,
  if-All, Bool-cases, inl, inr, saturating_add, if◌then◌else◌,
}
use bash_lume.Context.Quoting.{QuoteMode}
use bash_lume.Context.Lexer.{byte_at, is_unquoted, next_character, comment_end, after_quoted}
use bash_lume.Context.TokenOrder.{next_character_bounds, comment_end_bounds, comment_end_progress}
use bash_lume.Context.WordBounds.{
  is_word_break, WordScan, scan_start, scan_comment, scan_unquoted, scan_turn, scan_loop,
  current_word_start_and_quote, after_unquoted, word_end_from, current_word_end, is_char_boundary,
  floor_char_boundary,
}

-- A position at the start of the line or behind a byte that ends a word.
abbrev pub IsBehindBreak : Bytes → ℕ → Type 0
IsBehindBreak line start = (start ≡ 0) ⊎ (is_word_break (byte_at line (start - 1)) ≡ true)

module _ (line : Bytes) (point : ℕ) where
  -- A comment that ends before `point` ends at a newline.
  comment_end_newline :
      (fuel index : ℕ)
      → index ≤ point
      → point ≤ index + fuel
      → comment_end line point fuel index < point
      → (byte_at line (comment_end line point fuel index) == b'\n') ≡ true
  unfolding comment_end
  comment_end_newline zero index le enough h = absurd (omega arith)
  comment_end_newline (suc fuel) index le enough h =
      elim (Bool-cases (ltb index point && not (byte_at line index == b'\n'))) [
        | inl goes ↦
            let (later, inside) =
              next_character_bounds line point index
                (ltb→lt index point (and-eq-true (ltb index point) _ goes).0) in
            rw goes (
              comment_end_newline fuel (next_character line point index) inside (omega arith)
                (rw goes at h))
        | inr ends ↦
            rw ends (
              newline (byte_at line index == b'\n')
                (rw (lt→ltb index point (rw ends at h)) at ends))
      ]
    where
      newline : (b : Bool) → (true && not b) ≡ false → b ≡ true
      newline true e = refl
      newline false e = cc

  record Scans (s t : WordScan) : Type 0 where
    later : s.index < t.index
    within : t.index ≤ point
    start_le : t.start ≤ t.index
    behind : IsBehindBreak line t.start

  module _ (s : WordScan) (before : s.index < point) (start_le : s.start ≤ s.index)
      (behind : IsBehindBreak line s.start) where
    keep-Scans :
        (depth : ℕ) (quote : QuoteMode) (escaped at_word_start : Bool)
        → Scans s (record s {
          parameter_depth = depth;
          quote = quote;
          escaped = escaped;
          at_word_start = at_word_start;
          index = s.index + 1;
        })
    keep-Scans depth quote escaped at_word_start = record {
      later = omega arith;
      within = omega arith;
      start_le = omega arith;
      behind = behind;
    }

    break-Scans :
        (at_word_start : Bool)
        → is_word_break (byte_at line s.index) ≡ true
        → Scans s
            (record s { start = s.index + 1; at_word_start = at_word_start; index = s.index + 1 })
    break-Scans at_word_start e =
        let back : s.index + 1 - 1 ≡ s.index = omega arith in
        record {
          later = omega arith;
          within = omega arith;
          start_le = omega arith;
          behind = inr (rw back e);
        }

    scan_comment-Scans : (byte_at line s.index == b'#') ≡ true → Scans s (scan_comment line point s)
    unfolding scan_comment
    scan_comment-Scans hash =
        let e : suc (point - 1) ≡ point = omega arith in
        let progress : s.index < comment_end line point point s.index =
          subst (λ f. s.index < comment_end line point f s.index) e
            (comment_end_progress line point (point - 1) s.index before hash) in
        let inside = comment_end_bounds line point point s.index (omega arith) in
        let end = comment_end line point point s.index in
        if-All (Scans s) (ltb end point)
          (λ stops.
            let newline =
              comment_end_newline point s.index (omega arith) (omega arith)
                (ltb→lt end point stops) in
            let back : end + 1 - 1 ≡ end = omega arith in
            record {
              later = omega (arith, progress);
              within = omega (arith, ltb→lt end point stops);
              start_le = omega arith;
              behind = inr (rw back (newline_breaks (byte_at line end) newline));
            })
          (λ goes. record {
            later = progress;
            within = inside.1;
            start_le = omega (arith, progress);
            behind = behind;
          })
      where
        newline_breaks : (b : ℕ) → (b == b'\n') ≡ true → is_word_break b ≡ true
        newline_breaks b h = ground arith

    scan_unquoted-Scans :
        (interactive_comments : Bool) (byte : ℕ)
        → byte ≡ byte_at line s.index
        → Scans s (scan_unquoted line point interactive_comments byte s)
    unfolding scan_unquoted
    scan_unquoted-Scans interactive_comments byte e =
        let i = s.index in
        if-All (Scans s) (byte == b'{' && ltb 0 i && byte_at line (i - 1) == b'$')
          (λ opens. keep-Scans (saturating_add s.parameter_depth 1) s.quote s.escaped false)
          (λ _.
            if-All (Scans s) (byte == b'}' && ltb 0 s.parameter_depth)
              (λ closes. keep-Scans (s.parameter_depth - 1) s.quote s.escaped false)
              (λ _.
                if-All (Scans s) (byte == b'#' && interactive_comments && s.at_word_start)
                  (λ comment. scan_comment-Scans (ground arith))
                  (λ _.
                    if-All (Scans s) (byte == b'\\')
                      (λ escapes. keep-Scans s.parameter_depth s.quote true false)
                      (λ _.
                        if-All (Scans s) (byte == b'\'')
                          (λ quotes.
                            keep-Scans s.parameter_depth
                              (if ltb s.start i && byte_at line (i - 1) == b'$'
                                then QuoteMode.ansi_c
                                else QuoteMode.single)
                              s.escaped false)
                          (λ _.
                            if-All (Scans s) (byte == b'"')
                              (λ quotes.
                                keep-Scans s.parameter_depth QuoteMode.double s.escaped false)
                              (λ _.
                                if-All (Scans s) (is_word_break byte)
                                  (λ breaks. break-Scans true (ap is_word_break (sym e) ∙ breaks))
                                  (λ _. keep-Scans s.parameter_depth s.quote s.escaped false)))))))

    scan_turn-Scans :
        (interactive_comments : Bool) → Scans s (scan_turn line point interactive_comments s)
    unfolding scan_turn
    scan_turn-Scans interactive_comments =
        if-All (Scans s) s.escaped (λ escaped. keep-Scans s.parameter_depth s.quote false false)
          (λ _.
            if-All (Scans s) (is_unquoted s.quote)
              (λ outside. scan_unquoted-Scans interactive_comments (byte_at line s.index) refl)
              (λ inside.
                keep-Scans s.parameter_depth (after_quoted s.quote (byte_at line s.index)).0
                  (after_quoted s.quote (byte_at line s.index)).1 false))

  scan_loop-bounds :
      (interactive_comments : Bool) (fuel : ℕ) (s : WordScan)
      → s.index ≤ point
      → point ≤ s.index + fuel
      → s.start ≤ s.index
      → IsBehindBreak line s.start
      → let t = scan_loop line point interactive_comments fuel s in
        (t.index ≡ point) × (t.start ≤ t.index) × IsBehindBreak line t.start
  unfolding scan_loop
  scan_loop-bounds interactive_comments zero s le enough start_le behind =
      (omega arith, start_le, behind)
  scan_loop-bounds interactive_comments (suc fuel) s le enough start_le behind =
      elim (Bool-cases (ltb s.index point)) [
        | inl goes ↦
            let turn =
              scan_turn-Scans s (ltb→lt s.index point goes) start_le behind interactive_comments in
            rw goes (
              scan_loop-bounds interactive_comments fuel
                (scan_turn line point interactive_comments s) turn.within
                (omega (arith, turn.later)) turn.start_le turn.behind)
        | inr ends ↦ rw ends (omega (arith, ltb→le point s.index ends), start_le, behind)
      ]

  -- The start of the current word is not past the position, and is the start of the line or stands behind a
  -- byte that ends a word.
  pub current_word_start_bounds :
      (interactive_comments : Bool)
      → let start = (current_word_start_and_quote line point interactive_comments).0 in
        (start ≤ point) × IsBehindBreak line start
  unfolding current_word_start_and_quote
  current_word_start_bounds interactive_comments =
      let (ended, start_le, behind) =
        scan_loop-bounds interactive_comments point scan_start (omega arith) (omega arith)
          (omega arith) (inl refl) in
      (omega arith, behind)

word_end_from_bounds :
    (rest : Bytes) (index : ℕ) (quote : QuoteMode) (escaped : Bool)
    → (index ≤ word_end_from rest index quote escaped)
      × (word_end_from rest index quote escaped ≤ index + length rest)
unfolding word_end_from
word_end_from_bounds [] index quote escaped = omega arith
word_end_from_bounds (byte ∷ rest) index quote escaped =
    let (next, opened) : QuoteMode × Bool =
      if escaped
      then (quote, false)
      else if is_unquoted quote
      then after_unquoted byte
      else after_quoted quote byte in
    let later = word_end_from_bounds rest (index + 1) next opened in
    if-All (λ end. (index ≤ end) × (end ≤ index + suc (length rest)))
      (not escaped && is_unquoted quote && is_word_break byte) (λ ends. omega arith)
      (λ goes. omega (arith, later))

-- The end of the current word stands between the position and the end of the line.
pub current_word_end_bounds :
    (line : Bytes) (point : ℕ) (quote : QuoteMode)
    → point ≤ length line
    → (point ≤ current_word_end line point quote)
      × (current_word_end line point quote ≤ length line)
unfolding current_word_end
current_word_end_bounds line point quote h =
    omega (arith, word_end_from_bounds (drop point line) point quote false, length-drop point line)

pub floor_char_boundary_bounds :
    (text : Bytes) (index : ℕ)
    → (floor_char_boundary text index ≤ index)
      × (is_char_boundary text (floor_char_boundary text index) ≡ true)
unfolding floor_char_boundary
floor_char_boundary_bounds text zero = (omega arith, refl)
floor_char_boundary_bounds text (suc index) =
    let below = floor_char_boundary_bounds text index in
    if-All (λ i. (i ≤ suc index) × (is_char_boundary text i ≡ true))
      (is_char_boundary text (suc index)) (λ here. (omega arith, here))
      (λ there. (omega (arith, below.0), below.1))
