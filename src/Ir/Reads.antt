-- ===== src/Ir/Reads.antt =====
-- What a decoder reads: a rule for each way to build a decoder. `Reads m w a s c` says that `m`, where the
-- input goes on with `w` and both budgets suffice, returns `a` and has then taken `w` from the input, `s`
-- from the string budget and `c` from the allocation budget.
use native.Mathlib.Nat.{le_trans}
use mathlib.Core.Path.{subst, subst₂}
use mathlib.Core.List.{append-nil, append_assoc}
use bash_lume.Base.{
  drop-add, ℕ, ◌+◌, ◌*◌, ◌≤◌, ◌++◌, ◌≡◌, refl, sym, ap, ◌∙◌, List, [], ◌∷◌, Bytes, Result, ok,
  arith, length, length-append, take, drop, take-append_length, drop-append_length, All, usize_max,
  saturating_mul, saturating_add-eq-add, saturating_mul-eq-mul, le→ltb,
}
use bash_lume.Ir.Types.{IrError}
use bash_lume.Ir.Limits.{max_strings_bytes}
use bash_lume.Ir.Decoder.{
  Decoder, Decode, ◌>>=◌, pure, lift, charge, charge_array, remaining, take_bytes, decode_each,
}
use bash_lume.Ir.Wire.{each, sum_of}

-- The decoder `n` bytes further on, `s` and `c` counted in the two budgets.
abbrev pub advance : Decoder → ℕ → ℕ → ℕ → Decoder
advance d n s c = record d {
  position = d.position + n;
  string_bytes = d.string_bytes + s;
  allocation_bytes = d.allocation_bytes + c;
}

-- The input goes on with `w`, and `s` and `c` are left in the budgets.
pub record IsReady (d : Decoder) (w : Bytes) (s c : ℕ) : Type 0 where
  pub at : remaining d ≡ w
  pub inside : d.position + length w ≡ length d.bytes
  pub addressable : length d.bytes ≤ usize_max
  pub strings : d.string_bytes + s ≤ max_strings_bytes
  pub allocation : d.allocation_bytes + c ≤ d.allocation_limit
  pub bounded : d.allocation_limit ≤ usize_max

pub record Reads {ℓ} {A : Type ℓ} (m : Decode A) (w : Bytes) (a : A) (s c : ℕ) : Type ℓ where
  pub run :
      (d : Decoder) (rest : Bytes)
      → IsReady d (w ++ rest) s c
      → m d ≡ ok (a, advance d (length w) s c)

pub remaining-advance :
    (d : Decoder) (w rest : Bytes) (s c : ℕ)
    → remaining d ≡ w ++ rest
    → remaining (advance d (length w) s c) ≡ rest
unfolding remaining
remaining-advance d w rest s c h =
    drop-add d.position (length w) d.bytes ∙ (ap (drop (length w)) h ∙ drop-append_length w rest)

-- After the first part, the second is ready to be read.
IsReady-advance :
    (d : Decoder) (w v : Bytes) (s t c e : ℕ)
    → IsReady d (w ++ v) (s + t) (c + e)
    → IsReady (advance d (length w) s c) v t e
IsReady-advance d w v s t c e h = record {
  at = remaining-advance d w v s c h.at;
  inside = omega (arith, h.inside, length-append w v);
  addressable = h.addressable;
  strings = omega (arith, h.strings);
  allocation = omega (arith, h.allocation);
  bounded = h.bounded;
}

advance-advance :
    (d : Decoder) (w v : Bytes) (s t c e : ℕ)
    → advance (advance d (length w) s c) (length v) t e
      ≡ advance d (length (w ++ v)) (s + t) (c + e)
advance-advance d w v s t c e =
    let p : d.position + length w + length v ≡ d.position + length (w ++ v) =
      omega (arith, length-append w v) in
    let q : d.string_bytes + s + t ≡ d.string_bytes + (s + t) = omega arith in
    let r : d.allocation_bytes + c + e ≡ d.allocation_bytes + (c + e) = omega arith in
    λ i. record d { position = p i; string_bytes = q i; allocation_bytes = r i }

IsReady-assoc :
    {d : Decoder} (w v rest : Bytes) {s c : ℕ}
    → IsReady d ((w ++ v) ++ rest) s c
    → IsReady d (w ++ (v ++ rest)) s c
IsReady-assoc w v rest h = rw (← append_assoc) h

IsReady-weaken :
    {d : Decoder} {w : Bytes} (s t c e : ℕ) → IsReady d w (s + t) (c + e) → IsReady d w s c
IsReady-weaken s t c e h = record {
  at = h.at;
  inside = h.inside;
  addressable = h.addressable;
  strings = omega (arith, h.strings);
  allocation = omega (arith, h.allocation);
  bounded = h.bounded;
}

module _ {ℓ κ} {A : Type ℓ} {B : Type κ} where
  pub Reads-bind :
      {m : Decode A} (f : A → Decode B) {w v : Bytes} {a : A} {b : B} {s t c e : ℕ}
      → Reads m w a s c
      → Reads (f a) v b t e
      → Reads (m >>= f) (w ++ v) b (s + t) (c + e)
  unfolding ◌>>=◌
  Reads-bind f {w} {v} {a} {b} {s} {t} {c} {e} hm hf = record {
    run = λ d rest h.
        let ready = IsReady-assoc w v rest h in
        rw (hm.run d (v ++ rest) (IsReady-weaken s t c e ready)) (
          hf.run (advance d (length w) s c) rest (IsReady-advance d w (v ++ rest) s t c e ready)
          ∙ ap (λ d'. ok (b, d')) (advance-advance d w v s t c e));
  }

  -- A step that takes nothing from the budgets.
  pub Reads-free :
      {m : Decode A} (f : A → Decode B) {w v : Bytes} {a : A} {b : B} {t e : ℕ}
      → Reads m w a 0 0
      → Reads (f a) v b t e
      → Reads (m >>= f) (w ++ v) b t e
  Reads-free {m} f {w} {v} {b} {t} {e} hm hf =
      let p : 0 + t ≡ t = omega arith in
      let q : 0 + e ≡ e = omega arith in
      subst₂ (λ x y. Reads (m >>= f) (w ++ v) b x y) p q (Reads-bind f hm hf)

  -- A check of a value already read.
  pub Reads-lift :
      {r : Result IrError A} (f : A → Decode B) {v : Bytes} {a : A} {b : B} {t e : ℕ}
      → r ≡ ok a
      → Reads (f a) v b t e
      → Reads (lift r >>= f) v b t e
  unfolding ◌>>=◌ lift
  Reads-lift f p hf = record { run = λ d rest h. rw p (hf.run d rest h) }

pub advance-none : (d : Decoder) → d ≡ advance d 0 0 0
advance-none d =
    let p : d.position ≡ d.position + 0 = omega arith in
    let q : d.string_bytes ≡ d.string_bytes + 0 = omega arith in
    let r : d.allocation_bytes ≡ d.allocation_bytes + 0 = omega arith in
    λ i. record d { position = p i; string_bytes = q i; allocation_bytes = r i }

pub Reads-pure {ℓ} : {A : Type ℓ} (a : A) → Reads (pure a) [] a 0 0
unfolding pure
Reads-pure a = record { run = λ d rest h. ap (λ d'. ok (a, d')) (advance-none d) }

-- The budgets as another expression states them.
pub Reads-cast {ℓ} :
    {A : Type ℓ} {m : Decode A} {w : Bytes} {a : A} {s t c e : ℕ}
    → s ≡ t
    → c ≡ e
    → Reads m w a s c
    → Reads m w a t e
Reads-cast {m} {w} {a} p q h = subst₂ (Reads m w a) p q h

-- The last step of a block whose layout and charges end in nothing.
pub Reads-tail {ℓ} :
    {A : Type ℓ} {m : Decode A} {w : Bytes} {a : A} {s c : ℕ}
    → Reads m w a s c
    → Reads m (w ++ []) a s (c + 0)
Reads-tail {m} {w} {a} {s} {c} h =
    subst (λ v. Reads m v a s (c + 0)) (sym (append-nil w)) (Reads-cast refl (omega arith) h)

pub Reads-checked {ℓ} :
    {A : Type ℓ} {r : Result IrError A} {a : A} → r ≡ ok a → Reads (lift r) [] a 0 0
unfolding lift
Reads-checked {a} p = record { run = λ d rest h. rw p (ap (λ d'. ok (a, d')) (advance-none d)) }

module _ {ℓ κ} {A : Type ℓ} {B : Type κ} {m : Decode A} (f : A → B) {w : Bytes} {a : A}
    {s c : ℕ} where
  -- The last step of a block: in general, where the layout ends in `[]`, and where it does not.
  pub Reads-end : Reads m w a s c → Reads (m >>= λ x. pure (f x)) (w ++ []) (f a) (s + 0) (c + 0)
  Reads-end h = Reads-bind _ h (Reads-pure (f a))

  pub Reads-last : Reads m w a s c → Reads (m >>= λ x. pure (f x)) (w ++ []) (f a) s c
  Reads-last h =
      let p : s + 0 ≡ s = omega arith in
      let q : c + 0 ≡ c = omega arith in
      subst₂ (λ x y. Reads (m >>= λ x. pure (f x)) (w ++ []) (f a) x y) p q (Reads-end h)

  pub Reads-map : Reads m w a s c → Reads (m >>= λ x. pure (f x)) w (f a) s c
  Reads-map h = subst (λ v. Reads (m >>= λ x. pure (f x)) v (f a) s c) (append-nil w) (Reads-last h)

Reads-charge : (n : ℕ) → Reads (charge n) [] tt 0 n
unfolding charge
Reads-charge n = record {
  run = λ d rest h.
      let fits : d.allocation_bytes + n ≤ d.allocation_limit = h.allocation in
      rw (saturating_add-eq-add d.allocation_bytes n (omega (arith, h.bounded, fits))) (
        rw (le→ltb _ _ fits) (
          let p : d.position ≡ d.position + 0 = omega arith in
          let q : d.string_bytes ≡ d.string_bytes + 0 = omega arith in
          λ i. ok (
            tt,
            record d {
              position = p i;
              string_bytes = q i;
              allocation_bytes = d.allocation_bytes + n;
            },
          )));
}

module _ {ℓ} {B : Type ℓ} where
  -- A charge of `n` bytes ahead of the rest.
  pub Reads-charge->> :
      (n : ℕ) (k : Decode B) {v : Bytes} {b : B} {t e : ℕ}
      → Reads k v b t e
      → Reads (charge n >>= λ _. k) v b t (n + e)
  Reads-charge->> n k {v} {b} {t} {e} h =
      let p : 0 + t ≡ t = omega arith in
      subst (λ x. Reads (charge n >>= λ _. k) v b x (n + e)) p (Reads-bind _ (Reads-charge n) h)

  -- The saturation of the product is seen only where the budget does not suffice.
  pub Reads-charge_array->> :
      (size n : ℕ) (k : Decode B) {v : Bytes} {b : B} {t e : ℕ}
      → Reads k v b t e
      → Reads (charge_array size n >>= λ _. k) v b t (n * size + e)
  unfolding charge_array
  Reads-charge_array->> size n k {v} {b} {t} {e} h = record {
    run = λ d rest ready.
        let p : saturating_mul n size ≡ n * size =
          saturating_mul-eq-mul n size (omega (arith, ready.allocation, ready.bounded)) in
        rw p ((Reads-charge->> (n * size) k h).run d rest ready);
  }

-- A take of as many bytes as `w` has returns `w`.
pub Reads-take : (w : Bytes) → Reads (take_bytes (length w)) w w 0 0
unfolding take_bytes
Reads-take w = record {
  run = λ d rest h.
      let fits : d.position + length w ≤ length d.bytes =
        omega (arith, h.inside, length-append w rest) in
      rw (le→ltb _ _ (le_trans fits h.addressable)) (
        rw (le→ltb _ _ fits) (
          let value : take (length w) (remaining d) ≡ w =
            ap (take (length w)) h.at ∙ take-append_length w rest in
          let q : d.string_bytes ≡ d.string_bytes + 0 = omega arith in
          let r : d.allocation_bytes ≡ d.allocation_bytes + 0 = omega arith in
          λ i. ok (
            value i,
            record d {
              position = d.position + length w;
              string_bytes = q i;
              allocation_bytes = r i;
            },
          )));
}

-- A loop reads the layouts of its items in turn.
pub Reads-each {ℓ κ} :
    {A : Type ℓ} {P : A → Type κ} {item : Decode A} {wire : A → Bytes} {text cost : A → ℕ}
    → ((x : A) → P x → Reads item (wire x) x (text x) (cost x))
    → (xs : List A) → All P xs
    → Reads (decode_each item (length xs)) (each wire xs) xs (sum_of text xs) (sum_of cost xs)
unfolding decode_each each sum_of
Reads-each h [] ps = Reads-pure []
Reads-each {wire} {text} {cost} h (x ∷ xs) ps =
    Reads-bind _ (h x ps.0) (Reads-map (λ rest. x ∷ rest) (Reads-each h xs ps.1))
