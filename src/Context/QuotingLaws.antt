-- ===== src/Context/QuotingLaws.antt =====
-- Quoting and dequoting in completion/context.rs.
use bash_lume.Base.{ℕ, ◌≡◌, refl, ap, false, [], ◌∷◌, ◌++◌, arith, ◌==◌, Bool-cases, inl, inr}
use bash_lume.Context.Quoting.{
  Text, QuoteMode, backslash, apostrophe, quotation, dollar, backtick, turn, dequote_from,
  dequote_prefix, replace, is_escaped, escape_unquoted, escape_double, quote_shell_word,
}

plain-escape :
    (c : ℕ)
    → is_escaped c ≡ false
    → ((c == backslash) ≡ false)
      × ((c == apostrophe) ≡ false)
      × ((c == quotation) ≡ false)
      × ((c == dollar) ≡ false)
unfolding is_escaped
plain-escape c h = ground arith

dequote-escape_unquoted : (cs : Text) → dequote_from QuoteMode.unquoted 0 (escape_unquoted cs) ≡ cs
unfolding dequote_from turn escape_unquoted
dequote-escape_unquoted [] = refl
dequote-escape_unquoted (c ∷ cs) = elim (Bool-cases (is_escaped c)) [
  | inl special ↦ rw special (ap (λ t. c ∷ t) (dequote-escape_unquoted cs))
  | inr plain ↦
      let (b, a, q, d) = plain-escape c plain in
      rw (plain, b, a, q, d) (ap (λ t. c ∷ t) (dequote-escape_unquoted cs))
]

dequote-single :
    (cs : Text)
    → dequote_from QuoteMode.single 0 (
        replace apostrophe (apostrophe ∷ backslash ∷ apostrophe ∷ apostrophe ∷ []) cs
        ++ apostrophe ∷ [])
      ≡ cs
unfolding dequote_from turn replace
dequote-single [] = refl
dequote-single (c ∷ cs) = elim (Bool-cases (c == apostrophe)) [
  | inl same ↦
      let e : c ≡ apostrophe = ground arith in rw e (ap (λ t. apostrophe ∷ t) (dequote-single cs))
  | inr other ↦ rw (other, other) (ap (λ t. c ∷ t) (dequote-single cs))
]

dequote-ansi_c :
    (cs : Text)
    → dequote_from QuoteMode.ansi_c 0 (
        replace apostrophe
          (backslash ∷ apostrophe ∷ [])
          (replace backslash (backslash ∷ backslash ∷ []) cs)
        ++ apostrophe ∷ [])
      ≡ cs
unfolding dequote_from turn replace
dequote-ansi_c [] = refl
dequote-ansi_c (c ∷ cs) = elim (Bool-cases (c == backslash)) [
  | inl same ↦
      let e : c ≡ backslash = ground arith in rw e (ap (λ t. backslash ∷ t) (dequote-ansi_c cs))
  | inr other ↦ elim (Bool-cases (c == apostrophe)) [
    | inl same ↦
        let e : c ≡ apostrophe = ground arith in rw e (ap (λ t. apostrophe ∷ t) (dequote-ansi_c cs))
    | inr plain ↦ rw (other, plain, other, plain) (ap (λ t. c ∷ t) (dequote-ansi_c cs))
  ]
]

dequote-double :
    (cs : Text) → dequote_from QuoteMode.double 0 (escape_double cs ++ quotation ∷ []) ≡ cs
unfolding dequote_from turn replace escape_double
dequote-double [] = refl
dequote-double (c ∷ cs) = elim (Bool-cases (c == backslash)) [
  | inl same ↦
      let e : c ≡ backslash = ground arith in rw e (ap (λ t. backslash ∷ t) (dequote-double cs))
  | inr other ↦ elim (Bool-cases (c == dollar)) [
    | inl same ↦
        let e : c ≡ dollar = ground arith in rw e (ap (λ t. dollar ∷ t) (dequote-double cs))
    | inr no_dollar ↦ elim (Bool-cases (c == backtick)) [
      | inl same ↦
          let e : c ≡ backtick = ground arith in rw e (ap (λ t. backtick ∷ t) (dequote-double cs))
      | inr no_backtick ↦ elim (Bool-cases (c == quotation)) [
        | inl same ↦
            let e : c ≡ quotation = ground arith in
            rw e (ap (λ t. quotation ∷ t) (dequote-double cs))
        | inr plain ↦
            rw (other, no_dollar, no_backtick, plain, plain, other)
              (ap (λ t. c ∷ t) (dequote-double cs))
      ]
    ]
  ]
]

-- A word that is quoted in any of the four modes is read back by dequoting, whatever characters it holds.
pub dequote_prefix-quote_shell_word :
    (value : Text) (mode : QuoteMode) → dequote_prefix (quote_shell_word value mode) ≡ value
unfolding dequote_prefix dequote_from turn quote_shell_word
dequote_prefix-quote_shell_word value QuoteMode.unquoted = dequote-escape_unquoted value
dequote_prefix-quote_shell_word value QuoteMode.single = dequote-single value
dequote_prefix-quote_shell_word value QuoteMode.double = dequote-double value
dequote_prefix-quote_shell_word value QuoteMode.ansi_c = dequote-ansi_c value
