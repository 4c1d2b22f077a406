-- ===== src/Ir/ScanPasses.antt =====
-- The literals, numbers and strings of the preflight in rules/ir.rs, which pass a byte of the text.
use bash_lume.Base.{
  ℕ, suc, ◌-◌, ◌≤◌, ◌<◌, ◌≡◌, refl, Bool, true, false, Option, none, some, [], ◌∷◌, Bytes, Result,
  ok, err, arith, length, ◌==◌, Bool-cases, inl, inr, if◌then◌else◌, drop, take, bytes_eq,
  length-drop,
}
use bash_lume.Base.Outcome as Outcome
use bash_lume.Ir.Types.{IrError}
use bash_lume.Ir.Limits.{Sizes}
use bash_lume.Ir.JsonScan.{
  Preflight, Scan, ◌>>=◌, ◌>>◌, refuse, literal, advance_by, number, number_sign, number_whole,
  number_fraction, number_exponent,
}
use bash_lume.Ir.JsonStrings.{charge_string, string_end, string_body, string_at, json_string}
use bash_lume.Ir.JsonTags.{expect}
use bash_lume.Ir.ScanShrinks.{
  number_sign-le, number_whole-lt, number_fraction-le, number_exponent-le, string_end-le,
}
use bash_lume.Ir.ScanMoves.{
  Moves, Passes, Moves-Passes, left-eq, Moves-pure, Moves-refuse, Moves-err, Passes-refuse,
  Moves->>=, Moves->>, Passes->>=, Moves->>=-Passes, Moves-if, Passes-if, Moves-charge,
  Moves-record_scratch, Moves-record_discriminator_error, Moves-skip_whitespace, Moves-peek,
  Moves-consume, Passes-expect,
}

pub ruleset moves_rules = (
  Moves-pure, Moves-refuse, Moves-err, Moves->>=, Moves->>, Moves-if, Moves-charge,
  Moves-record_scratch, Moves-record_discriminator_error, Moves-skip_whitespace, Moves-peek,
  Moves-consume,
)

pub Passes-literal : (b : ℕ) (value : Bytes) → Passes (literal (b ∷ value))
unfolding literal refuse
Passes-literal b value = record { run = λ s a s' h. read s s.rest a s' h }
  where
    read :
        (s : Preflight) (bs : Bytes) (a : Unit {0}) (s' : Preflight)
        → literal (b ∷ value) (record s { rest = bs }) ≡ ok (a, s')
        → length s'.rest < length bs
    read s [] a s' h = cc
    read s (x ∷ bs) a s' h =
        elim (Bool-cases (bytes_eq (take (suc (length value)) (x ∷ bs)) (b ∷ value))) [
          | inl same ↦ omega (
            arith,
            (Moves-charge 16).run (record s { rest = drop (length value) bs }) a s' (rw same at h),
            length-drop (length value) bs,
          )
          | inr other ↦ cc (rw other at h)
        ]

pub Moves-advance_by :
    (part : Bytes → Option Bytes)
    → ((bs rest : Bytes) → part bs ≡ some rest → length rest ≤ length bs)
    → Moves (advance_by part)
unfolding advance_by refuse
Moves-advance_by part le = record { run = λ s a s' h. moved s (part s.rest) (le s.rest) a s' h }
  where
    moved :
        (s : Preflight) (o : Option Bytes)
        → ((rest : Bytes) → o ≡ some rest → length rest ≤ length s.rest)
        → (a : Unit {0}) (s' : Preflight)
        → elim o [ none ↦ refuse {A = Unit {0}} s | some rest ↦ ok (tt, record s { rest = rest }) ]
          ≡ ok (a, s')
        → length s'.rest ≤ length s.rest
    moved s none le a s' h = cc
    moved s (some rest) le a s' h = omega (arith, left-eq h, le rest refl)

pub Passes-advance_by :
    (part : Bytes → Option Bytes)
    → ((bs rest : Bytes) → part bs ≡ some rest → length rest < length bs)
    → Passes (advance_by part)
unfolding advance_by refuse
Passes-advance_by part lt = record { run = λ s a s' h. moved s (part s.rest) (lt s.rest) a s' h }
  where
    moved :
        (s : Preflight) (o : Option Bytes)
        → ((rest : Bytes) → o ≡ some rest → length rest < length s.rest)
        → (a : Unit {0}) (s' : Preflight)
        → elim o [ none ↦ refuse {A = Unit {0}} s | some rest ↦ ok (tt, record s { rest = rest }) ]
          ≡ ok (a, s')
        → length s'.rest < length s.rest
    moved s none lt a s' h = cc
    moved s (some rest) lt a s' h = omega (arith, left-eq h, lt rest refl)

sign-le :
    (bs rest : Bytes)
    → ◌≡◌ {A = Option Bytes} (some (number_sign bs)) (some rest)
    → length rest ≤ length bs
sign-le bs rest h = ground (arith, number_sign-le bs)

pub Passes-number : Passes number
unfolding number
Passes-number = Moves->>=-Passes (Moves-advance_by (λ bs. some (number_sign bs)) sign-le) λ _.
    Passes->>= (Passes-advance_by number_whole number_whole-lt) λ _.
      Moves->> (Moves-advance_by number_fraction number_fraction-le)
        (Moves->> (Moves-advance_by number_exponent number_exponent-le) (Moves-charge 16))

pub Moves-charge_string :
    (Z : Sizes) (depth : ℕ) (charged : Bool) (additional : ℕ) (escaped : Bool) (n : ℕ)
    → Moves (charge_string Z depth charged additional escaped n)
unfolding charge_string
Moves-charge_string Z depth charged additional escaped n = search moves_rules

pub Passes-json_string :
    (Z : Sizes) (depth : ℕ) (charged : Bool) (additional : ℕ)
    → Passes (json_string Z depth charged additional)
unfolding json_string string_body string_at refuse
Passes-json_string Z depth charged additional = record { run = λ s a s' h. read s s.rest a s' h }
  where
    body :
        (s : Preflight) (text : Bytes) (end : Option (Bool × Bytes))
        → ((escaped : Bool) (closing : Bytes)
            → end ≡ some (escaped, closing)
            → length closing ≤ length text)
        → (a : Bytes) (s' : Preflight)
        → string_body Z depth charged additional text end s ≡ ok (a, s')
        → length s'.rest ≤ length text
    body s text none le a s' h = cc
    body s text (some (escaped, closing)) le a s' h =
        let n = length text - length closing in
        omega (
          arith,
          (Moves->>= (Moves-charge_string Z depth charged additional escaped n)
                (λ _. Moves-pure (take n text))).run
              (record s { rest = drop 1 closing }) a s' h,
          length-drop 1 closing,
          le escaped closing refl,
        )

    read :
        (s : Preflight) (bs : Bytes) (a : Bytes) (s' : Preflight)
        → string_at Z depth charged additional bs s ≡ ok (a, s')
        → length s'.rest < length bs
    read s [] a s' h = cc
    read s (b ∷ text) a s' h = elim (Bool-cases (b == b'"')) [
      | inl quote ↦ omega (
        arith,
        body s text (string_end (suc (length text)) false text)
            (λ escaped closing e. string_end-le (suc (length text)) false escaped text closing e) a
            s' (rw quote at h),
      )
      | inr other ↦ cc (rw other at h)
    ]

-- A loop does the same after a scan, where it does after what that scan leaves.
pub >>=-same :
    {A B : Type 0} (m : Scan A) (f g : A → Scan B) (s : Preflight)
    → ((a : A) (t : Preflight) → m s ≡ ok (a, t) → f a t ≡ g a t)
    → (m >>= f) s ≡ (m >>= g) s
unfolding ◌>>=◌
>>=-same {A} {B} m f g s h = after (m s) h
  where
    after :
        (r : Result IrError (A × Preflight))
        → ((a : A) (t : Preflight) → r ≡ ok (a, t) → f a t ≡ g a t)
        → Outcome.◌>>=◌ r (λ r. f r.0 r.1) ≡ Outcome.◌>>=◌ r (λ r. g r.0 r.1)
    after (err e) h = refl
    after (ok (a, t)) h = h a t refl

-- What a loop does behind an element: it is done, or goes on behind a comma.
abbrev pub goes_on : Scan (Unit {0}) → Scan (Unit {0}) → Bool → Scan (Unit {0})
goes_on done later closed = if closed then done else (expect b',' >> later)

pub goes_on-same :
    (done first second : Scan (Unit {0})) (closed : Bool) (s : Preflight)
    → ((t : Preflight) → length t.rest < length s.rest → first t ≡ second t)
    → goes_on done first closed s ≡ goes_on done second closed s
goes_on-same done first second true s h = refl
goes_on-same done first second false s h =
    >>=-same (expect b',') (λ _. first) (λ _. second) s
      λ a t e. h t ((Passes-expect b',').run s a t e)

pub Moves-json_string :
    (Z : Sizes) (depth : ℕ) (charged : Bool) (additional : ℕ)
    → Moves (json_string Z depth charged additional)
Moves-json_string Z depth charged additional =
    Moves-Passes (Passes-json_string Z depth charged additional)

pub Moves-expect : (byte : ℕ) → Moves (expect byte)
Moves-expect byte = Moves-Passes (Passes-expect byte)

pub ruleset passes_rules = (
  moves_rules, Moves-expect, Passes-expect, Passes->>=, Moves->>=-Passes, Passes-if, Passes-refuse,
  Passes-literal, Passes-number, Passes-json_string,
)
