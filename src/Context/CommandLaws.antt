-- ===== src/Context/CommandLaws.antt =====
-- The end of a word that starts with a quote, in completion/context.rs.
use bash_lume.Base.{
  ℕ, zero, suc, ◌+◌, ◌≤◌, ◌≡◌, refl, ◌∙◌, Bool, false, [], ◌∷◌, Bytes, arith, length, length-drop,
  drop, ◌==◌, or-eq-false,
}
use bash_lume.Context.Quoting.{QuoteMode}
use bash_lume.Context.Words.{contains}
use bash_lume.Context.Lexer.{byte_at, after_quoted}
use bash_lume.Context.WordBounds.{
  scan_loop, scan_start, current_word_start_and_quote, preferred_quote, word_end_from,
  current_word_end,
}

single_end :
    (rest : Bytes) (index : ℕ)
    → contains b'\'' rest ≡ false
    → word_end_from rest index QuoteMode.single false ≡ index + length rest
unfolding word_end_from after_quoted
single_end [] index h = omega arith
single_end (b ∷ rest) index h =
    let (other, more) = or-eq-false (b == b'\'') (contains b'\'' rest) h in
    rw other (single_end rest (index + 1) more ∙ omega arith)

preferred_quote-single :
    (rest : Bytes) (quote : QuoteMode)
    → byte_at rest 0 ≡ b'\''
    → preferred_quote rest quote ≡ QuoteMode.single
unfolding preferred_quote
preferred_quote-single [] quote h = absurd (omega arith)
preferred_quote-single (b ∷ rest) quote h = ground arith

byte_at-drop : (line : Bytes) (n : ℕ) → byte_at (drop n line) 0 ≡ byte_at line n
byte_at-drop [] zero = refl
byte_at-drop [] (suc n) = refl
byte_at-drop (b ∷ line) zero = refl
byte_at-drop (b ∷ line) (suc n) = byte_at-drop line n

-- Where the current word starts with an apostrophe and none follows the position, the replaced range goes on to
-- the end of the line, whether the quote is still open at the position or was closed before it.
pub current_word_end-single :
    (line : Bytes) (point : ℕ) (interactive_comments : Bool)
    → point ≤ length line
    → byte_at line (current_word_start_and_quote line point interactive_comments).0 ≡ b'\''
    → contains b'\'' (drop point line) ≡ false
    → current_word_end line point (current_word_start_and_quote line point interactive_comments).1
      ≡ length line
unfolding current_word_start_and_quote current_word_end
current_word_end-single line point interactive_comments le starts rest =
    let end = scan_loop line point interactive_comments point scan_start in
    let e =
      preferred_quote-single (drop end.start line) end.quote
        (byte_at-drop line end.start ∙ starts) in
    rw e (single_end (drop point line) point rest ∙ omega (arith, length-drop point line))
