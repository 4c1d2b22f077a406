-- ===== src/Pack/IndexSafety.antt =====
-- What `parse_index` of rules/format.rs accepts.
use bash_lume.Base.{
  ℕ, zero, suc, ◌+◌, ◌≡◌, refl, sym, ap, ◌∙◌, Bool, true, false, not, Option, none, some, List, [],
  Bytes, ok, arith, ltb, ltb→le, ◌==◌, any, length, usize_max, drop, take, length-drop, length-take,
  or-eq-false, All, Bool-cases, inl, inr,
}
use bash_lume.Base.Outcome.{reject, >>=-eq-ok, ok-injective}
use bash_lume.Ir.Validate.{is_empty}
use bash_lume.Pack.Types.{PackError, NameEntry, BlockEntry, max_compressed_block_bytes}
use bash_lume.Pack.Index.{
  IndexDecoder, new_index_decoder, Parse, ◌>>=◌, pure, lift, remaining, take_bytes, parse_names,
  parse_block, parse_blocks, is_dangling, index_entries, at_end, parse_index,
}
use bash_lume.Pack.IndexRoundTrip.{IsPlaced}
use bash_lume.Pack.NameOrder.{IsChain}

-- Where the parser succeeds, its result has a property.
record Gives {A : Type 0} (m : Parse A) (P : A → Type 0) : Type 0 where
  run : (d e : IndexDecoder) (a : A) → m d ≡ ok (a, e) → P a

Gives-pure : {A : Type 0} {P : A → Type 0} (a : A) → P a → Gives (pure a) P
unfolding pure
Gives-pure {P} a p = record {
  run = λ d e b h. let q : a ≡ b = ap (λ r. r.0) (ok-injective h) in rw (← q) p;
}

Gives-any : {A : Type 0} (m : Parse A) → Gives m (λ _. Unit {0})
Gives-any m = record { run = λ d e a h. tt }

Gives->>= :
    {A B : Type 0} {P : A → Type 0} {Q : B → Type 0} {m : Parse A} {f : A → Parse B}
    → Gives m P
    → ((a : A) → P a → Gives (f a) Q)
    → Gives (m >>= f) Q
unfolding ◌>>=◌
Gives->>= {m} {f} hm hf = record {
  run = λ d e b h.
      let (r, first, next) = >>=-eq-ok (m d) (λ r. f r.0 r.1) h in
      (hf r.0 (hm.run d r.1 r.0 first)).run r.1 e b next;
}

-- A check, and what follows where it passes.
Gives-reject :
    {B : Type 0} {Q : B → Type 0} {k : Parse B} (b : Bool) (reason : PackError)
    → (b ≡ false → Gives k Q)
    → Gives (lift (reject b reason) >>= λ _. k) Q
unfolding ◌>>=◌ lift
Gives-reject true reason h = record { run = λ d e a k. cc }
Gives-reject false reason h = record { run = λ d e a k. (h refl).run d e a k }

-- After any parser.
Gives-after :
    {A B : Type 0} {Q : B → Type 0} (m : Parse A) {f : A → Parse B}
    → ((a : A) → Gives (f a) Q)
    → Gives (m >>= f) Q
Gives-after m h = Gives->>= (Gives-any m) λ a _. h a

abbrev IsNameList : Option Bytes → ℕ → List NameEntry → Type 0
IsNameList previous n names = IsChain previous names × (length names ≡ n)

Gives-parse_names :
    (n : ℕ) (previous : Option Bytes) → Gives (parse_names n previous) (IsNameList previous n)
unfolding parse_names
Gives-parse_names zero previous = Gives-pure [] (tt, refl)
Gives-parse_names (suc n) previous = Gives-after _ λ name. Gives-reject _ _ λ good.
    Gives-after _ λ block_id.
      Gives->>= (Gives-parse_names n (some name))
        λ names h. Gives-pure _ (((or-eq-false (is_empty name) _ good).1, h.0), ap suc h.1)

Gives-take_bytes : (n : ℕ) → Gives (take_bytes n) (λ bytes. length bytes ≡ n)
unfolding take_bytes remaining
Gives-take_bytes n = record {
  run = λ d e a h. elim (Bool-cases (ltb usize_max (d.position + n))) [
    | inl over ↦ cc (rw over at h)
    | inr fits ↦ elim (Bool-cases (ltb (length d.bytes) (d.position + n))) [
      | inl short ↦ cc (rw (fits, short) at h)
      | inr enough ↦
          let e : take n (drop d.position d.bytes) ≡ a =
            ap (λ r. r.0) (ok-injective (rw (fits, enough) at h)) in
          ap (length {A = ℕ}) (sym e)
          ∙ length-take n (drop d.position d.bytes)
              (omega (arith, ltb→le _ _ enough, length-drop d.position d.bytes))
    ]
  ];
}

Gives-parse_block : (chunks_length : ℕ) → Gives (parse_block chunks_length) (IsPlaced chunks_length)
unfolding parse_block
Gives-parse_block chunks_length = Gives-after _ λ offset. Gives-after _ λ compressed.
    Gives-after _ λ uncompressed. Gives->>= (Gives-take_bytes 32) λ hash hashed.
      Gives-reject _ _ λ small. Gives-reject _ _ λ addressable. Gives-reject _ _ λ inside.
        let (a, b) = or-eq-false (ltb max_compressed_block_bytes compressed) _ small in
        Gives-pure _ (record {
          compressed = ltb→le _ _ a;
          uncompressed = ltb→le _ _ b;
          inside = ltb→le _ _ inside;
          hashed = hashed;
        })

abbrev IsBlockList : ℕ → ℕ → List BlockEntry → Type 0
IsBlockList chunks_length n blocks = All (IsPlaced chunks_length) blocks × (length blocks ≡ n)

Gives-parse_blocks :
    (chunks_length n : ℕ) → Gives (parse_blocks chunks_length n) (IsBlockList chunks_length n)
unfolding parse_blocks
Gives-parse_blocks chunks_length zero = Gives-pure [] (tt, refl)
Gives-parse_blocks chunks_length (suc n) =
    Gives->>= (Gives-parse_block chunks_length) λ block placed.
      Gives->>= (Gives-parse_blocks chunks_length n)
        λ blocks h. Gives-pure _ ((placed, h.0), ap suc h.1)

-- The names in strict order, each with a block that is there, the blocks within their section, as many as expected.
pub record IsIndex (expected_names expected_blocks chunks_length : ℕ)
    (entries : List NameEntry × List BlockEntry) : Type 0 where
  pub chain : IsChain none entries.0
  pub name_count : length entries.0 ≡ expected_names
  pub block_count : length entries.1 ≡ expected_blocks
  pub placed : All (IsPlaced chunks_length) entries.1
  pub linked : any (is_dangling entries.1) entries.0 ≡ false

same_count : (a b : ℕ) → not (a == b) ≡ false → a ≡ b
same_count a b h = ground arith

Gives-index_entries :
    (expected_names expected_blocks chunks_length : ℕ)
    → Gives
        (index_entries expected_names expected_blocks chunks_length)
        (IsIndex expected_names expected_blocks chunks_length)
unfolding index_entries
Gives-index_entries expected_names expected_blocks chunks_length = Gives-after _ λ name_count.
    Gives-reject _ _ λ n. Gives->>= (Gives-parse_names name_count none) λ names h.
      Gives-after _ λ block_count. Gives-reject _ _ λ m.
        Gives->>= (Gives-parse_blocks chunks_length block_count) λ blocks k.
          Gives-reject _ _ λ linked. Gives-pure _ (record {
            chain = h.0;
            name_count = h.1 ∙ same_count name_count expected_names n;
            block_count = k.1 ∙ same_count block_count expected_blocks m;
            placed = k.0;
            linked = linked;
          })

-- An index that is accepted has as many names and blocks as expected, the names in strict order, each with a block
-- that is there, and each block within the chunk section and the limits.
pub parse_index-IsIndex :
    (index : Bytes) (expected_names expected_blocks chunks_length : ℕ)
    (entries : List NameEntry × List BlockEntry)
    → parse_index index expected_names expected_blocks chunks_length ≡ ok entries
    → IsIndex expected_names expected_blocks chunks_length entries
unfolding parse_index
parse_index-IsIndex index expected_names expected_blocks chunks_length entries h =
    let (r, first, last) =
      >>=-eq-ok
        (index_entries expected_names expected_blocks chunks_length (new_index_decoder index))
        at_end h in
    elim (Bool-cases (is_empty (remaining r.1))) [
      | inl done ↦
          let e : r.0 ≡ entries = ok-injective (rw done at last) in
          rw (← e) (
            (Gives-index_entries expected_names expected_blocks chunks_length).run
              (new_index_decoder index) r.1 r.0 first)
      | inr more ↦ cc (rw more at last)
    ]
