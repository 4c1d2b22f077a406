-- ===== src/Ir/Bounded.antt =====
-- The bounds on a decoder's state in rules/ir.rs, with one rule for each way to build a decoder.
use native.Mathlib.Nat.{le_refl, le_trans}
use mathlib.Core.Path.{subst}
use bash_lume.Base.{
  ℕ, zero, suc, ◌≤◌, ◌≡◌, refl, ap, ◌∙◌, Bool, true, false, [], ◌∷◌, Result, ok, err, arith, length,
  saturating_add, usize_max, if◌then◌else◌,
}
use bash_lume.Base.Outcome.{>>=-eq-ok, ok-injective}
use bash_lume.Ir.Types.{IrError}
use bash_lume.Ir.Limits.{max_strings_bytes, Sizes}
use bash_lume.Ir.Decoder.{
  Decoder, Decode, ◌>>=◌, pure, fail, lift, charge, charge_array, take_bytes, u8, u16, u32, count,
  blob, charge_text, charge_string, check_strings, string, optional_string, decode_each, strings,
  decode_predicate, decode_predicates, decode_candidate,
}

pub record IsBounded (d : Decoder) : Type 0 where
  pub position : d.position ≤ length d.bytes
  pub strings : d.string_bytes ≤ max_strings_bytes
  pub allocation : d.allocation_bytes ≤ d.allocation_limit
  pub addressable : d.allocation_limit ≤ usize_max

-- From `d` to `e` the position and the charges only grow, over the same input and limit.
pub record Follows (d e : Decoder) : Type 0 where
  pub bytes : e.bytes ≡ d.bytes
  pub limit : e.allocation_limit ≡ d.allocation_limit
  pub position : d.position ≤ e.position
  pub allocation : d.allocation_bytes ≤ e.allocation_bytes

pub record Keeps {ℓ} {A : Type ℓ} (m : Decode A) : Type ℓ where
  pub run : (d e : Decoder) (a : A) → m d ≡ ok (a, e) → IsBounded d → IsBounded e × Follows d e

Follows-refl : (d : Decoder) → Follows d d
Follows-refl d = record {
  bytes = refl;
  limit = refl;
  position = le_refl d.position;
  allocation = le_refl d.allocation_bytes;
}

Follows-trans : {c d e : Decoder} → Follows c d → Follows d e → Follows c e
Follows-trans f g = record {
  bytes = g.bytes ∙ f.bytes;
  limit = g.limit ∙ f.limit;
  position = le_trans f.position g.position;
  allocation = le_trans f.allocation g.allocation;
}

-- A step that leaves the decoder as it is.
pub still : {d e : Decoder} → d ≡ e → IsBounded d → IsBounded e × Follows d e
still {d} p b = subst (λ e. IsBounded e × Follows d e) p (b, Follows-refl d)

module _ {ℓ} {A : Type ℓ} where
  pub Keeps-pure : (a : A) → Keeps (pure a)
  unfolding pure
  Keeps-pure a = record { run = λ d e x h b. still (ap (λ r. r.1) (ok-injective h)) b }

  pub Keeps-fail : (e : IrError) → Keeps (fail {A = A} e)
  unfolding fail
  Keeps-fail e = record { run = λ d e x h b. cc }

  pub Keeps-lift : (r : Result IrError A) → Keeps (lift r)
  unfolding lift
  Keeps-lift (ok a) = record { run = λ d e x h b. still (ap (λ r. r.1) (ok-injective h)) b }
  Keeps-lift (err c) = record { run = λ d e x h b. cc }

  pub Keeps-if : (b : Bool) (m k : Decode A) → Keeps m → Keeps k → Keeps (if b then m else k)
  Keeps-if true m k hm hk = hm
  Keeps-if false m k hm hk = hk

pub Keeps-bind {ℓ κ} :
    {A : Type ℓ} {B : Type κ} (m : Decode A) (f : A → Decode B)
    → Keeps m
    → ((a : A) → Keeps (f a))
    → Keeps (m >>= f)
unfolding ◌>>=◌
Keeps-bind m f hm hf = record {
  run = λ d e b h bounded.
      let (r, first, rest) = >>=-eq-ok (m d) _ h in
      let (mid, f₁) = hm.run d r.1 r.0 first bounded in
      let (end, f₂) = (hf r.0).run r.1 e b rest mid in (end, Follows-trans f₁ f₂);
}

pub Keeps-charge : (n : ℕ) → Keeps (charge n)
unfolding charge saturating_add
Keeps-charge n = record { run = λ d e x h b. ground arith }

pub Keeps-take : (n : ℕ) → Keeps (take_bytes n)
unfolding take_bytes
Keeps-take n = record { run = λ d e x h b. ground arith }

pub Keeps-charge_text : (n : ℕ) → Keeps (charge_text n)
unfolding charge_text ◌>>=◌ charge_string charge check_strings saturating_add
Keeps-charge_text n = record { run = λ d e x h b. ground arith }

pub ruleset keeps_rules = (
  Keeps-pure, Keeps-fail, Keeps-lift, Keeps-if, Keeps-bind, Keeps-charge, Keeps-take,
  Keeps-charge_text,
)

pub Keeps-charge_array : (size n : ℕ) → Keeps (charge_array size n)
unfolding charge_array
Keeps-charge_array size n = search keeps_rules

pub Keeps-u8 : Keeps u8
unfolding u8
Keeps-u8 = search keeps_rules

pub Keeps-u16 : Keeps u16
unfolding u16
Keeps-u16 = search keeps_rules

pub Keeps-u32 : Keeps u32
unfolding u32
Keeps-u32 = search keeps_rules

pub ruleset keeps_words = (keeps_rules, Keeps-charge_array, Keeps-u8, Keeps-u16, Keeps-u32)

pub Keeps-count : (maximum : ℕ) → Keeps (count maximum)
unfolding count
Keeps-count maximum = search keeps_words

pub Keeps-blob : (maximum : ℕ) → Keeps (blob maximum)
unfolding blob
Keeps-blob maximum = search (keeps_words, Keeps-count)

pub Keeps-string : Keeps string
unfolding string
Keeps-string = search (keeps_words, Keeps-count) depth 12

pub Keeps-optional : Keeps optional_string
unfolding optional_string
Keeps-optional = search (keeps_words, Keeps-string) depth 12

pub Keeps-each {ℓ} :
    {A : Type ℓ} (item : Decode A) (n : ℕ) → Keeps item → Keeps (decode_each item n)
unfolding decode_each
Keeps-each item zero h = Keeps-pure []
Keeps-each item (suc n) h =
    Keeps-bind item _ h λ x. Keeps-bind _ _ (Keeps-each item n h) λ xs. Keeps-pure (x ∷ xs)

pub ruleset keeps_texts =
    (keeps_words, Keeps-count, Keeps-blob, Keeps-string, Keeps-optional, Keeps-each)

pub Keeps-candidate : Keeps decode_candidate
unfolding decode_candidate
Keeps-candidate = search keeps_texts depth 20

module _ (Z : Sizes) where
  pub Keeps-strings : (maximum : ℕ) → Keeps (strings Z maximum)
  unfolding strings
  Keeps-strings maximum = search keeps_texts

  pub Keeps-predicate : Keeps (decode_predicate Z)
  unfolding decode_predicate
  Keeps-predicate = search (keeps_texts, Keeps-strings) depth 40

  pub Keeps-predicates : Keeps (decode_predicates Z)
  unfolding decode_predicates
  Keeps-predicates = search (keeps_texts, Keeps-predicate)
