-- ===== src/Context/AnalysisLaws.antt =====
-- The context of a position and the line with a candidate applied, in completion/context.rs.
use bash_lume.Base.{
  length-take, ℕ, ◌+◌, ◌≤◌, ◌≡◌, ◌⊎◌, refl, ap, ◌∙◌, Bool, true, ◌++◌, Bytes, arith, length,
  length-append, take, drop, take-append_length, drop-append_length, min, ltb, if-All, inl, inr,
}
use bash_lume.Context.WordBounds.{current_word_start_and_quote, is_char_boundary}
use bash_lume.Context.BoundsLaws.{
  IsBehindBreak, current_word_start_bounds, current_word_end_bounds, floor_char_boundary_bounds,
}
use bash_lume.Context.Analysis.{
  max_completion_context_bytes, CompletionContext, analyze_at, analyze_with_interactive_comments,
  replacement_for, apply,
}
use bash_lume.Matcher.Candidate.{Candidate}

-- The parts of a line that a context names.
pub record IsWithin (text : Bytes) (c : CompletionContext) : Type 0 where
  pub line : c.line ≡ text
  pub start : c.replace_start ≤ c.point
  pub end : c.point ≤ c.replace_end
  pub inside : c.replace_end ≤ length text
  pub boundary : is_char_boundary text c.point ≡ true
  pub behind : (c.replace_start ≡ c.point) ⊎ IsBehindBreak text c.replace_start

analyze_at-IsWithin :
    (text : Bytes) (point : ℕ) (interactive_comments : Bool)
    → point ≤ length text
    → is_char_boundary text point ≡ true
    → IsWithin text (analyze_at text point interactive_comments)
unfolding analyze_at
analyze_at-IsWithin text point interactive_comments le boundary =
    let starts = current_word_start_bounds text point interactive_comments in
    let quote = (current_word_start_and_quote text point interactive_comments).1 in
    let ends = current_word_end_bounds text point quote le in
    record {
      line = refl;
      start = starts.0;
      end = ends.0;
      inside = ends.1;
      boundary = boundary;
      behind = inr starts.1;
    }

-- Whatever the line and the position asked for: the position of the context is a character boundary within the
-- line, the replaced range holds it and lies within the line, and the range starts at the position, at the start
-- of the line or behind a byte that ends a word.
pub analyze-IsWithin :
    (text : Bytes) (point : ℕ) (interactive_comments : Bool)
    → IsWithin text (analyze_with_interactive_comments text point interactive_comments)
unfolding analyze_with_interactive_comments
analyze-IsWithin text point interactive_comments =
    let (below, boundary) = floor_char_boundary_bounds text (min point (length text)) in
    if-All (IsWithin text) (ltb max_completion_context_bytes (length text))
      (λ long. record {
        line = refl;
        start = omega arith;
        end = omega arith;
        inside = omega (arith, below);
        boundary = boundary;
        behind = inl refl;
      })
      (λ short. analyze_at-IsWithin text _ interactive_comments (omega (arith, below)) boundary)

-- Applying a candidate to an analysed line puts the replacement between what stands before the replaced range
-- and what stands after it, and the new position behind the replacement.
pub apply-analyze :
    (text : Bytes) (point : ℕ) (interactive_comments : Bool) (candidate : Candidate)
    → let c = analyze_with_interactive_comments text point interactive_comments in
      let (line, new_point) = apply c candidate in
      (new_point ≡ c.replace_start + length (replacement_for c candidate))
      × (take new_point line ≡ take c.replace_start text ++ replacement_for c candidate)
      × (drop new_point line ≡ drop c.replace_end text)
unfolding apply
apply-analyze text point interactive_comments candidate =
    let c = analyze_with_interactive_comments text point interactive_comments in
    let w = analyze-IsWithin text point interactive_comments in
    let before = take c.replace_start c.line ++ replacement_for c candidate in
    (
      length-append (take c.replace_start c.line) (replacement_for c candidate)
          ∙ ap (λ n. n + length (replacement_for c candidate))
              (length-take c.replace_start c.line
                (rw w.line (omega (arith, w.start, w.end, w.inside)))),
      take-append_length before (drop c.replace_end c.line)
          ∙ ap (λ t. take c.replace_start t ++ replacement_for c candidate) w.line,
      drop-append_length before (drop c.replace_end c.line) ∙ ap (drop c.replace_end) w.line,
    )
