-- ===== src/Ir/ScanMoves.antt =====
-- The cursor of the preflight in rules/ir.rs: which scans pass a byte of the text, and the turns of its loops.
use bash_lume.Base.{
  ℕ, ◌≤◌, ◌<◌, ◌≡◌, sym, ap, Bool, true, false, Option, none, some, [], ◌∷◌, Bytes, Result, ok, err,
  arith, length, ltb, Bool-cases, inl, inr, if◌then◌else◌, saturating_add,
}
use bash_lume.Base.Outcome.{>>=-eq-ok, ok-injective}
use bash_lume.Ir.Types.{IrError}
use bash_lume.Ir.Limits.{Sizes}
use bash_lume.Ir.JsonScan.{
  Preflight, Scan, ◌>>=◌, ◌>>◌, pure, refuse, check_limit, charge, get_slot, grow_slot,
  record_scratch, record_discriminator_error, skip_whitespace, consume_at, skip_spaces, consume,
}
use bash_lume.Ir.JsonTags.{peek, expect}
use bash_lume.Ir.ScanShrinks.{skip_spaces-le}

-- Where the scan succeeds, it leaves no more of the text.
pub record Moves {A : Type 0} (m : Scan A) : Type 0 where
  pub run :
      (s : Preflight) (a : A) (s' : Preflight) → m s ≡ ok (a, s') → length s'.rest ≤ length s.rest

-- Where the scan succeeds, it leaves less of the text.
pub record Passes {A : Type 0} (m : Scan A) : Type 0 where
  pub run :
      (s : Preflight) (a : A) (s' : Preflight) → m s ≡ ok (a, s') → length s'.rest < length s.rest

pub Moves-Passes : {A : Type 0} {m : Scan A} → Passes m → Moves m
Moves-Passes h = record { run = λ s a s' e. omega (arith, h.run s a s' e) }

-- A scan whose result follows from its start: what is left of its text is `left`.
pub left-eq :
    {A : Type 0} {a b : A} {s t : Preflight}
    → ◌≡◌ {A = Result IrError (A × Preflight)} (ok (a, s)) (ok (b, t))
    → length s.rest ≡ length t.rest
left-eq h = ap (λ r. length r.1.rest) (ok-injective h)

pub Moves-pure : {A : Type 0} (a : A) → Moves (pure a)
unfolding pure
Moves-pure a = record { run = λ s b s' h. omega (arith, left-eq h) }

pub Moves-refuse : {A : Type 0} → Moves (refuse {A = A})
unfolding refuse
Moves-refuse = record { run = λ s b s' h. cc }

pub Moves-err : {A : Type 0} (e : IrError) → Moves {A = A} (λ s. err e)
Moves-err e = record { run = λ s b s' h. cc }

pub Passes-refuse : {A : Type 0} → Passes (refuse {A = A})
unfolding refuse
Passes-refuse = record { run = λ s b s' h. cc }

pub Moves->>= :
    {A B : Type 0} {m : Scan A} {f : A → Scan B}
    → Moves m
    → ((a : A) → Moves (f a))
    → Moves (m >>= f)
unfolding ◌>>=◌
Moves->>= {m} {f} hm hf = record {
  run = λ s b s' h.
      let (r, first, next) = >>=-eq-ok (m s) (λ r. f r.0 r.1) h in
      omega (arith, hm.run s r.0 r.1 first, (hf r.0).run r.1 b s' next);
}

pub Moves->> : {B : Type 0} {m : Scan (Unit {0})} {k : Scan B} → Moves m → Moves k → Moves (m >> k)
Moves->> hm hk = Moves->>= hm (λ _. hk)

-- The first scan passes a byte.
pub Passes->>= :
    {A B : Type 0} {m : Scan A} {f : A → Scan B}
    → Passes m
    → ((a : A) → Moves (f a))
    → Passes (m >>= f)
unfolding ◌>>=◌
Passes->>= {m} {f} hm hf = record {
  run = λ s b s' h.
      let (r, first, next) = >>=-eq-ok (m s) (λ r. f r.0 r.1) h in
      omega (arith, hm.run s r.0 r.1 first, (hf r.0).run r.1 b s' next);
}

-- A later scan passes a byte.
pub Moves->>=-Passes :
    {A B : Type 0} {m : Scan A} {f : A → Scan B}
    → Moves m
    → ((a : A) → Passes (f a))
    → Passes (m >>= f)
unfolding ◌>>=◌
Moves->>=-Passes {m} {f} hm hf = record {
  run = λ s b s' h.
      let (r, first, next) = >>=-eq-ok (m s) (λ r. f r.0 r.1) h in
      omega (arith, hm.run s r.0 r.1 first, (hf r.0).run r.1 b s' next);
}

pub Moves-if :
    {A : Type 0} (b : Bool) {m k : Scan A} → Moves m → Moves k → Moves (if b then m else k)
Moves-if true hm hk = hm
Moves-if false hm hk = hk

pub Passes-if :
    {A : Type 0} (b : Bool) {m k : Scan A} → Passes m → Passes k → Passes (if b then m else k)
Passes-if true hm hk = hm
Passes-if false hm hk = hk

check_limit-left :
    (s : Preflight) (a : Unit {0}) (s' : Preflight)
    → check_limit s ≡ ok (a, s')
    → length s'.rest ≡ length s.rest
unfolding check_limit
check_limit-left s a s' h =
    let total = saturating_add (saturating_add s.used s.scratch_total) s.discriminator_error_peak in
    elim (Bool-cases (ltb s.limit_bytes total)) [
      | inl over ↦ cc (rw over at h)
      | inr within ↦ sym (left-eq (rw within at h))
    ]

pub Moves-charge : (n : ℕ) → Moves (charge n)
unfolding charge
Moves-charge n = record {
  run = λ s b s' h.
      omega (arith, check_limit-left (record s { used = saturating_add s.used n }) b s' h);
}

Moves-grow_slot : (depth bytes : ℕ) (slot : Option ℕ) → Moves (grow_slot depth bytes slot)
unfolding grow_slot
Moves-grow_slot depth bytes none = Moves-refuse
Moves-grow_slot depth bytes (some slot) = elim (Bool-cases (ltb slot bytes)) [
  | inl larger ↦ record {
    run = λ s b s' h. omega (arith, check_limit-left _ b s' (rw larger at h));
  }
  | inr kept ↦ record { run = λ s b s' h. omega (arith, check_limit-left s b s' (rw kept at h)) }
]

pub Moves-record_scratch : (depth bytes : ℕ) → Moves (record_scratch depth bytes)
unfolding record_scratch
Moves-record_scratch depth bytes = record {
  run = λ s. (Moves-grow_slot depth bytes (get_slot s.scratch depth)).run s;
}

pub Moves-record_discriminator_error : (Z : Sizes) (n : ℕ) → Moves (record_discriminator_error Z n)
unfolding record_discriminator_error
Moves-record_discriminator_error Z n = record {
  run = λ s b s' h. omega (arith, check_limit-left _ b s' h);
}

pub Moves-skip_whitespace : Moves skip_whitespace
unfolding skip_whitespace
Moves-skip_whitespace = record { run = λ s b s' h. omega (arith, left-eq h, skip_spaces-le s.rest) }

pub Moves-peek : Moves peek
unfolding peek
Moves-peek = record { run = λ s b s' h. omega (arith, left-eq h) }

consume_at-le :
    (byte : ℕ) (bs : Bytes) (s : Preflight) → length (consume_at byte bs s).1.rest ≤ length bs
unfolding consume_at
consume_at-le byte [] s = omega arith
consume_at-le byte (b ∷ bs) s = ground arith

consume_at-lt :
    (byte : ℕ) (bs : Bytes) (s : Preflight)
    → (consume_at byte bs s).0 ≡ true
    → length (consume_at byte bs s).1.rest < length bs
unfolding consume_at
consume_at-lt byte [] s h = cc
consume_at-lt byte (b ∷ bs) s h = ground arith

pub Moves-consume : (byte : ℕ) → Moves (consume byte)
unfolding consume
Moves-consume byte = record {
  run = λ s b s' h.
      omega (arith, left-eq h, skip_spaces-le s.rest, consume_at-le byte (skip_spaces s.rest) s);
}

pub Passes-expect : (byte : ℕ) → Passes (expect byte)
unfolding expect consume ◌>>=◌ pure refuse
Passes-expect byte = record {
  run = λ s b s' h.
      let r = consume_at byte (skip_spaces s.rest) s in
      elim (Bool-cases r.0) [
        | inl found ↦ omega (
          arith,
          left-eq (rw found at h),
          skip_spaces-le s.rest,
          consume_at-lt byte (skip_spaces s.rest) s found,
        )
        | inr missing ↦ cc (rw missing at h)
      ];
}
