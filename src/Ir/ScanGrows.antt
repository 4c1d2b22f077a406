-- ===== src/Ir/ScanGrows.antt =====
-- The limit of a scan in rules/ir.rs: what the lexical parts do under a larger limit, and what they leave charged.
use bash_lume.Base.{
  ℕ, ◌-◌, ◌≤◌, ◌≡◌, refl, ap, ◌∙◌, Bool, true, false, Option, none, some, [], ◌∷◌, Bytes, ok, err,
  arith, length, ltb, ltb→le, le→ltb, ◌==◌, Bool-cases, inl, inr, saturating_add, if◌then◌else◌,
  take, drop, bytes_eq,
}
use bash_lume.Base.Outcome.{>>=-eq-ok, ok-injective}
use bash_lume.Ir.Types.{IrError}
use bash_lume.Ir.Limits.{Sizes}
use bash_lume.Ir.JsonScan.{
  Preflight, Scan, ◌>>=◌, ◌>>◌, pure, refuse, check_limit, charge, get_slot, grow_slot,
  record_scratch, record_discriminator_error, skip_whitespace, consume_at, skip_spaces, consume,
  literal, advance_by, number,
}
use bash_lume.Ir.JsonStrings.{charge_string, string_body, string_at, json_string}
use bash_lume.Ir.JsonTags.{head?, peek, expect}

-- What is charged is within the limit.
abbrev pub IsBudgeted : Preflight → Type 0
IsBudgeted s =
    saturating_add (saturating_add s.used s.scratch_total) s.discriminator_error_peak
    ≤ s.limit_bytes

abbrev pub with_limit : ℕ → Preflight → Preflight
with_limit L s = record s { limit_bytes = L }

-- Where a scan succeeds, it stays within its limit and does the same under a larger one.
pub record Grows {A : Type 0} (m : Scan A) : Type 0 where
  pub run :
      (s : Preflight) (a : A) (s' : Preflight) (L : ℕ)
      → IsBudgeted s
      → s.limit_bytes ≤ L
      → m s ≡ ok (a, s')
      → (s'.limit_bytes ≡ s.limit_bytes)
        × IsBudgeted s'
        × (m (with_limit L s) ≡ ok (a, with_limit L s'))

pub Grows-pure : {A : Type 0} (a : A) → Grows (pure a)
unfolding pure
Grows-pure a = record {
  run = λ s b s' L budget le h.
      let e : (a, s) ≡ (b, s') = ok-injective h in
      let es : s ≡ s' = ap (λ r. r.1) e in
      let ea : a ≡ b = ap (λ r. r.0) e in rw (← es) (refl, budget, rw ea refl);
}

pub Grows-refuse : {A : Type 0} → Grows (refuse {A = A})
unfolding refuse
Grows-refuse = record { run = λ s b s' L budget le h. cc }

pub Grows-err : {A : Type 0} (e : IrError) → Grows {A = A} (λ s. err e)
Grows-err e = record { run = λ s b s' L budget le h. cc }

pub Grows->>= :
    {A B : Type 0} {m : Scan A} {f : A → Scan B}
    → Grows m
    → ((a : A) → Grows (f a))
    → Grows (m >>= f)
unfolding ◌>>=◌
Grows->>= {m} {f} hm hf = record {
  run = λ s b s' L budget le h.
      let (r, first, next) = >>=-eq-ok (m s) (λ r. f r.0 r.1) h in
      let (same, budget₁, again) = hm.run s r.0 r.1 L budget le first in
      let (same₂, budget₂, again₂) = (hf r.0).run r.1 b s' L budget₁ (rw same le) next in
      (same₂ ∙ same, budget₂, rw again again₂);
}

pub Grows->> : {B : Type 0} {m : Scan (Unit {0})} {k : Scan B} → Grows m → Grows k → Grows (m >> k)
Grows->> hm hk = Grows->>= hm (λ _. hk)

pub Grows-if :
    {A : Type 0} (b : Bool) {m k : Scan A} → Grows m → Grows k → Grows (if b then m else k)
Grows-if true hm hk = hm
Grows-if false hm hk = hk

-- A scan that changes only what is left of the text.
pub Grows-moves :
    {A : Type 0} (f : Bytes → A) (g : Bytes → Bytes)
    → Grows (λ s. ok (f s.rest, record s { rest = g s.rest }))
Grows-moves {A} f g = record {
  run = λ s b s' L budget le h.
      let e : (f s.rest, record s { rest = g s.rest }) ≡ (b, s') = ok-injective h in
      let es : record s { rest = g s.rest } ≡ s' = ap (λ r. r.1) e in
      let ea : f s.rest ≡ b = ap (λ r. r.0) e in rw (← es) (refl, budget, rw ea refl);
}

pub check_limit-ok :
    (s : Preflight) (a : Unit {0}) (s' : Preflight) (L : ℕ)
    → s.limit_bytes ≤ L
    → check_limit s ≡ ok (a, s')
    → (s'.limit_bytes ≡ s.limit_bytes)
      × IsBudgeted s'
      × (check_limit (with_limit L s) ≡ ok (a, with_limit L s'))
unfolding check_limit
check_limit-ok s a s' L le h =
    let total = saturating_add (saturating_add s.used s.scratch_total) s.discriminator_error_peak in
    elim (Bool-cases (ltb s.limit_bytes total)) [
      | inl over ↦ cc (rw over at h)
      | inr within ↦
          let same : s ≡ s' = ap (λ r. r.1) (ok-injective (rw within at h)) in
          let fits = ltb→le total s.limit_bytes within in
          rw (← same) (refl, fits, rw (le→ltb total L (omega arith)) refl)
    ]

pub Grows-charge : (n : ℕ) → Grows (charge n)
unfolding charge
Grows-charge n = record {
  run = λ s b s' L budget le h.
      check_limit-ok (record s { used = saturating_add s.used n }) b s' L le h;
}

pub Grows-grow_slot : (depth bytes : ℕ) (slot : Option ℕ) → Grows (grow_slot depth bytes slot)
unfolding grow_slot
Grows-grow_slot depth bytes none = Grows-refuse
Grows-grow_slot depth bytes (some slot) = elim (Bool-cases (ltb slot bytes)) [
  | inl larger ↦ record {
    run = λ s b s' L budget le h. rw larger (check_limit-ok _ b s' L le (rw larger at h));
  }
  | inr kept ↦ record {
    run = λ s b s' L budget le h. rw kept (check_limit-ok s b s' L le (rw kept at h));
  }
]

pub Grows-record_scratch : (depth bytes : ℕ) → Grows (record_scratch depth bytes)
unfolding record_scratch
Grows-record_scratch depth bytes = record {
  run = λ s. (Grows-grow_slot depth bytes (get_slot s.scratch depth)).run s;
}

pub Grows-record_discriminator_error : (Z : Sizes) (n : ℕ) → Grows (record_discriminator_error Z n)
unfolding record_discriminator_error
Grows-record_discriminator_error Z n = record {
  run = λ s b s' L budget le h. check_limit-ok _ b s' L le h;
}

pub Grows-skip_whitespace : Grows skip_whitespace
unfolding skip_whitespace
Grows-skip_whitespace = Grows-moves (λ bs. tt) skip_spaces

pub Grows-peek : Grows peek
unfolding peek
Grows-peek = Grows-moves head? (λ bs. bs)

pub Grows-consume_at : (byte : ℕ) (bs : Bytes) → Grows (λ s. ok (consume_at byte bs s))
unfolding consume_at
Grows-consume_at byte [] = Grows-moves (λ bs. false) (λ bs. [])
Grows-consume_at byte (b ∷ bs) = elim (Bool-cases (b == byte)) [
  | inl same ↦ rw same (Grows-moves (λ _. true) (λ _. bs))
  | inr other ↦ rw other (Grows-moves (λ _. false) (λ _. b ∷ bs))
]

pub Grows-consume : (byte : ℕ) → Grows (consume byte)
unfolding consume
Grows-consume byte = record { run = λ s. (Grows-consume_at byte (skip_spaces s.rest)).run s }

-- A scan whose choice rests on what is left of the text.
pub Grows-reads :
    {A : Type 0} (m : Bytes → Scan A) → ((bs : Bytes) → Grows (m bs)) → Grows (λ s. m s.rest s)
Grows-reads m h = record { run = λ s. (h s.rest).run s }

pub Grows-moved :
    {A : Type 0} (rest : Bytes) {m : Scan A} → Grows m → Grows (λ s. m (record s { rest = rest }))
Grows-moved rest h = record {
  run = λ s b s' L budget le e. h.run (record s { rest = rest }) b s' L budget le e;
}

pub Grows-literal : (value : Bytes) → Grows (literal value)
unfolding literal
Grows-literal value =
    Grows-reads
      (λ bs s.
        if bytes_eq (take (length value) bs) value
        then charge 16 (record s { rest = drop (length value) bs })
        else refuse s)
      λ bs. chosen (bytes_eq (take (length value) bs) value) bs
  where
    chosen :
        (b : Bool) (bs : Bytes)
        → Grows
            (λ s. if b then charge 16 (record s { rest = drop (length value) bs }) else refuse s)
    chosen true bs = Grows-moved (drop (length value) bs) (Grows-charge 16)
    chosen false bs = Grows-refuse

pub Grows-advance_by : (part : Bytes → Option Bytes) → Grows (advance_by part)
unfolding advance_by
Grows-advance_by part =
    Grows-reads {A = Unit {0}}
      (λ bs s. elim (part bs) [ none ↦ refuse s | some rest ↦ ok (tt, record s { rest = rest }) ])
      λ bs. chosen (part bs)
  where
    chosen :
        (o : Option Bytes)
        → Grows {A = Unit {0}}
            (λ s. elim o [ none ↦ refuse s | some rest ↦ ok (tt, record s { rest = rest }) ])
    chosen none = Grows-refuse
    chosen (some rest) = Grows-moves (λ _. tt) (λ _. rest)

pub ruleset grows_rules = (
  Grows-pure, Grows-refuse, Grows-err, Grows->>=, Grows->>, Grows-if, Grows-charge,
  Grows-record_scratch, Grows-record_discriminator_error, Grows-skip_whitespace, Grows-peek,
  Grows-consume, Grows-literal, Grows-advance_by,
)

pub Grows-number : Grows number
unfolding number
Grows-number = search grows_rules

pub Grows-charge_string :
    (Z : Sizes) (depth : ℕ) (charged : Bool) (additional : ℕ) (escaped : Bool) (n : ℕ)
    → Grows (charge_string Z depth charged additional escaped n)
unfolding charge_string
Grows-charge_string Z depth charged additional escaped n = search grows_rules

pub Grows-string_body :
    (Z : Sizes) (depth : ℕ) (charged : Bool) (additional : ℕ) (text : Bytes)
    (end : Option (Bool × Bytes))
    → Grows (string_body Z depth charged additional text end)
unfolding string_body
Grows-string_body Z depth charged additional text none = Grows-refuse
Grows-string_body Z depth charged additional text (some (escaped, closing)) =
    Grows-moved (drop 1 closing) (
      Grows->>=
        (Grows-charge_string Z depth charged additional escaped (length text - length closing))
        λ _. Grows-pure (take (length text - length closing) text))

pub Grows-string_at :
    (Z : Sizes) (depth : ℕ) (charged : Bool) (additional : ℕ) (bs : Bytes)
    → Grows (string_at Z depth charged additional bs)
unfolding string_at
Grows-string_at Z depth charged additional [] = Grows-refuse
Grows-string_at Z depth charged additional (b ∷ text) =
    Grows-if (b == b'"') (Grows-string_body Z depth charged additional text _) Grows-refuse

pub Grows-json_string :
    (Z : Sizes) (depth : ℕ) (charged : Bool) (additional : ℕ)
    → Grows (json_string Z depth charged additional)
unfolding json_string
Grows-json_string Z depth charged additional =
    Grows-reads (string_at Z depth charged additional) (Grows-string_at Z depth charged additional)

pub Grows-expect : (byte : ℕ) → Grows (expect byte)
unfolding expect
Grows-expect byte = search grows_rules
