-- ===== src/Ir/Safety.antt =====
-- The state in which a successful decoding of rules/ir.rs ends.
use mathlib.Core.Path.{subst}
use bash_lume.Base.{
  ℕ, ◌≤◌, ◌≡◌, refl, ap, ◌∙◌, true, ◌||◌, [], ◌∷◌, Bytes, ok, arith, length, length-drop, drop, ltb,
  ltb→le, or-eq-false, usize_max,
}
use bash_lume.Base.Outcome.{>>=-eq-ok, reject->>-eq-ok, require-eq-ok, ok-injective, require}
use bash_lume.Ir.Types.{CommandProgram, invalid}
use bash_lume.Ir.Limits.{max_command_block_bytes, max_strings_bytes, Sizes, ScriptIr}
use bash_lume.Ir.Validate.{is_empty}
use bash_lume.Ir.ValidateProgram.{validate}
use bash_lume.Ir.Decoder.{Decoder, ◌>>=◌, lift, pure, new_decoder, remaining}
use bash_lume.Ir.DecodeProgram.{
  observe, decode_path_completion, decode_variable, decode_rule, decode_probe, decode_scripts,
  decode_fields, decode_body, decode_with_allocation_limit,
}
use bash_lume.Ir.Bounded.{
  IsBounded, Keeps, keeps_rules, keeps_texts, Keeps-u16, Keeps-candidate, Keeps-strings,
  Keeps-predicates, still,
}

Keeps-observe {ℓ} : {A : Type ℓ} (f : Decoder → A) → Keeps (observe f)
unfolding observe
Keeps-observe f = record { run = λ d e x h b. still (ap (λ r. r.1) (ok-injective h)) b }

ruleset keeps_parts = (
  keeps_rules, keeps_texts, Keeps-u16, Keeps-candidate, Keeps-strings, Keeps-predicates,
  Keeps-observe,
)

Keeps-path_completion : (version : ℕ) → Keeps (decode_path_completion version)
unfolding decode_path_completion
Keeps-path_completion version = search keeps_parts

Keeps-variable : Keeps decode_variable
unfolding decode_variable
Keeps-variable = search keeps_parts

module _ (Z : Sizes) where
  Keeps-rule : (version : ℕ) → Keeps (decode_rule Z version)
  unfolding decode_rule
  Keeps-rule version = search (keeps_parts, Keeps-path_completion) depth 16

  Keeps-probe : Keeps (decode_probe Z)
  unfolding decode_probe
  Keeps-probe = search (keeps_parts, Keeps-variable) depth 40

module _ (Z : Sizes) (S : ScriptIr) where
  open S use {ScriptModule}

  Keeps-scripts : (version : ℕ) → Keeps (decode_scripts Z S version)
  unfolding decode_scripts
  Keeps-scripts version = search keeps_parts depth 16

  Keeps-fields : Keeps (decode_fields Z S)
  unfolding decode_fields
  Keeps-fields = search (keeps_parts, Keeps-rule, Keeps-probe, Keeps-scripts) depth 50

  IsBounded-start :
      (bytes : Bytes) (allocation_limit : ℕ)
      → length bytes ≤ allocation_limit
      → allocation_limit ≤ usize_max
      → IsBounded (new_decoder bytes allocation_limit)
  unfolding new_decoder
  IsBounded-start bytes allocation_limit h le = omega arith

  consumed :
      (d : Decoder)
      → d.position ≤ length d.bytes
      → is_empty (remaining d) ≡ true
      → d.position ≡ length d.bytes
  unfolding remaining
  consumed d h e =
      omega (arith, length-drop d.position d.bytes, length_zero (drop d.position d.bytes) e)
    where
      length_zero : (xs : Bytes) → is_empty xs ≡ true → length xs ≡ 0
      length_zero [] e = refl
      length_zero (x ∷ xs) e = cc

  -- The state in which the decoder ends.
  pub record IsSpent (bytes : Bytes) (allocation_limit : ℕ) (e : Decoder) : Type 0 where
    pub at_end : e.position ≡ length bytes
    pub strings : e.string_bytes ≤ max_strings_bytes
    pub input_charged : length bytes ≤ e.allocation_bytes
    pub allocation : e.allocation_bytes ≤ allocation_limit

  body-IsSpent :
      (bytes : Bytes) (allocation_limit : ℕ) (p : CommandProgram ScriptModule) (e : Decoder)
      → IsBounded (new_decoder bytes allocation_limit)
      → decode_body Z S (new_decoder bytes allocation_limit) ≡ ok (p, e)
      → IsSpent bytes allocation_limit e
  unfolding decode_body ◌>>=◌ observe lift pure new_decoder
  body-IsSpent bytes allocation_limit p e start h =
      let (r, fields, h₁) =
        >>=-eq-ok (decode_fields Z S (new_decoder bytes allocation_limit)) _ h in
      let (bounded, follows) = Keeps-fields.run _ r.1 r.0 fields start in
      let test = is_empty (remaining r.1) in
      let trailing = invalid "trailing command block bytes" in
      let (x, g, h₂) = >>=-eq-ok (lift (require test trailing) r.1) _ h₁ in
      let (_, checked, h₃) = >>=-eq-ok (require test trailing) _ g in
      let empty : is_empty (remaining r.1) ≡ true = require-eq-ok test trailing checked in
      let same : r.1 ≡ e = ap (λ y. y.1) (ok-injective h₃) ∙ ap (λ y. y.1) (ok-injective h₂) in
      let end = consumed r.1 bounded.position empty in
      subst (IsSpent bytes allocation_limit) same (record {
        at_end = end ∙ ap (length {A = ℕ}) follows.bytes;
        strings = bounded.strings;
        input_charged = follows.allocation;
        allocation = omega (arith, bounded.allocation, follows.limit);
      })

  -- Where decoding under an allocation limit within `usize` returns a program, the input fitted the block limit and the
  -- allocation limit, the fields were decoded by a decoder that ends exactly at the end of the input, with
  -- the input and all that it charged within the allocation limit and its texts within the string limit,
  -- and the program passes validation.
  pub decode_with_allocation_limit-IsSpent :
      (bytes : Bytes) (allocation_limit : ℕ) (p : CommandProgram ScriptModule)
      → allocation_limit ≤ usize_max
      → decode_with_allocation_limit Z S bytes allocation_limit ≡ ok p
      → (length bytes ≤ max_command_block_bytes)
        × (validate Z S p ≡ ok tt)
        × (e : Decoder) × (decode_body Z S (new_decoder bytes allocation_limit) ≡ ok (p, e))
        × IsSpent bytes allocation_limit e
  unfolding decode_with_allocation_limit
  decode_with_allocation_limit-IsSpent bytes allocation_limit p le h =
      let (sized, h₁) =
        reject->>-eq-ok
          (ltb max_command_block_bytes (length bytes) || ltb allocation_limit (length bytes)) _ _
          h in
      let (small, room) = or-eq-false (ltb max_command_block_bytes (length bytes)) _ sized in
      let (r, body, h₂) = >>=-eq-ok (decode_body Z S (new_decoder bytes allocation_limit)) _ h₁ in
      let (_, valid, h₃) = >>=-eq-ok (validate Z S r.0) _ h₂ in
      let same : r.0 ≡ p = ok-injective h₃ in
      let start =
        IsBounded-start bytes allocation_limit (ltb→le (length bytes) allocation_limit room) le in
      (
        ltb→le (length bytes) max_command_block_bytes small,
        subst (λ q. validate Z S q ≡ ok tt) same valid,
        r.1,
        body ∙ ap (λ q. ok (q, r.1)) same,
        body-IsSpent bytes allocation_limit r.0 r.1 start body,
      )
