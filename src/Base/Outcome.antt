-- ===== src/Base/Outcome.antt =====
-- Rust's `Result`, with the error type as a parameter.
use mathlib.Core.Path.{◌≡◌, refl, ap}
use mathlib.Core.Bool.{Bool, true, false}

pub data Result {ℓ} (E : Type 0) (A : Type ℓ) : Type ℓ where
  ok : A → Result E A
  err : E → Result E A

-- `if !b { return Err(e) }`
abbrev pub require : {E : Type 0} → Bool → E → Result E (Unit {0})
require true e = ok tt
require false e = err e

-- `if b { return Err(e) }`
abbrev pub reject : {E : Type 0} → Bool → E → Result E (Unit {0})
reject true e = err e
reject false e = ok tt

-- `?` on a result: what follows is done with the value of a success.
module _ {ℓ κ} {E : Type 0} {A : Type ℓ} {B : Type κ} where
  infixl 5 ◌>>=◌
  abbrev pub ◌>>=◌ : Result E A → (A → Result E B) → Result E B
  err reason >>= next = err reason
  ok value >>= next = next value

  -- What a chain that succeeded says of its first step.
  pub >>=-eq-ok :
      (first : Result E A) (next : A → Result E B) {last : B}
      → (first >>= next) ≡ ok last
      → (value : A) × (first ≡ ok value) × (next value ≡ ok last)
  >>=-eq-ok (err reason) next h = cc
  >>=-eq-ok (ok value) next h = (value, refl, h)

-- A check, and what follows it.
module _ {ℓ} {E : Type 0} {B : Type ℓ} where
  infixl 5 ◌>>◌
  abbrev pub ◌>>◌ : Result E (Unit {0}) → Result E B → Result E B
  check >> rest = check >>= λ done. rest

module _ {ℓ} {E : Type 0} {A : Type ℓ} where
  pub reject->>-eq-ok :
      (b : Bool) (e : E) (k : Result E A) {a : A}
      → (reject b e >> k) ≡ ok a
      → (b ≡ false) × (k ≡ ok a)
  reject->>-eq-ok true e k h = cc
  reject->>-eq-ok false e k h = (refl, h)

  pub require->>-eq-ok :
      (b : Bool) (e : E) (k : Result E A) {a : A}
      → (require b e >> k) ≡ ok a
      → (b ≡ true) × (k ≡ ok a)
  require->>-eq-ok true e k h = (refl, h)
  require->>-eq-ok false e k h = cc

pub >>-eq-ok {ℓ} :
    {E : Type 0} {A : Type ℓ} (m : Result E (Unit {0})) (k : Result E A) {a : A}
    → (m >> k) ≡ ok a
    → (m ≡ ok tt) × (k ≡ ok a)
>>-eq-ok (ok x) k h = (refl, h)
>>-eq-ok (err e) k h = cc

ok_value {ℓ} : {E : Type 0} {A : Type ℓ} → A → Result E A → A
ok_value d (ok a) = a
ok_value d (err e) = d

pub ok-injective {ℓ} :
    {E : Type 0} {A : Type ℓ} {a b : A} → ◌≡◌ {A = Result E A} (ok a) (ok b) → a ≡ b
unfolding ok_value
ok-injective {a} p = ap (ok_value a) p

pub require-eq-ok : {E : Type 0} (b : Bool) (e : E) → require b e ≡ ok tt → b ≡ true
require-eq-ok true e h = refl
require-eq-ok false e h = cc
