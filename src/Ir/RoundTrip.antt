-- ===== src/Ir/RoundTrip.antt =====
-- `CommandProgram::encode_version` and `CommandProgram::decode_with_allocation_limit` of rules/ir.rs against
-- each other, and what decoding accepts.
use mathlib.Core.Path.{subst}
use mathlib.Core.List.{append-nil}
use bash_lume.Base.{
  ℕ, ◌+◌, ◌≤◌, ◌<◌, ◌≡◌, refl, sym, ap, ◌∙◌, true, false, ◌&&◌, ◌||◌, [], ◌++◌, Bytes, ok, arith,
  length, ltb, leb, leb→le, ltb→le, le→ltb, or-eq-false, and-eq-true, any, usize_max,
  saturating_add,
}
use bash_lume.Base.Utf8.{in_range}
use bash_lume.Base.Outcome.{>>=-eq-ok, >>-eq-ok, reject->>-eq-ok, require->>-eq-ok, ok-injective}
use bash_lume.Ir.Types.{CommandProgram}
use bash_lume.Ir.Limits.{max_command_block_bytes, max_strings_bytes, Sizes, ScriptIr}
use bash_lume.Ir.Validate.{is_empty, validate_string}
use bash_lume.Ir.ValidateProgram.{
  validate_registrations, validate_rules, validate_scripts, string_budget, validate,
}
use bash_lume.Ir.Decoder.{◌>>=◌, lift, pure, new_decoder, remaining}
use bash_lume.Ir.EncodeProgram.{encode_body, encode_version}
use bash_lume.Ir.DecodeProgram.{observe, decode_fields, decode_body, decode_with_allocation_limit}
use bash_lume.Ir.JsonLaws.{JsonLaws}
use bash_lume.Ir.Wire.{program_text, program_cost}
use bash_lume.Ir.Typed.{IsTypedProgram}
use bash_lume.Ir.Accepts.{good_registrations, good_rules}
use bash_lume.Ir.AcceptsProbes.{good_probes}
use bash_lume.Ir.Reads.{IsReady, advance, remaining-advance, Reads}
use bash_lume.Ir.ReadsProgram.{Reads-fields}
use bash_lume.Ir.WritesProgram.{IsAccepted, encode_body-eq-wire}

module _ (Z : Sizes) (S : ScriptIr) where
  open S use {ScriptModule, requires_block_v4}

  -- A typed program that passes validation is accepted by the encoder, and its text fits the decoder's
  -- string budget.
  pub validate-IsAccepted :
      (p : CommandProgram ScriptModule)
      → IsTypedProgram p
      → validate Z S p ≡ ok tt
      → IsAccepted S p × (program_text p ≤ max_strings_bytes)
  unfolding validate string_budget program_text saturating_add
  validate-IsAccepted p t h =
      let (_, h₁) = reject->>-eq-ok (is_empty p.canonical_name) _ _ h in
      let (few_registrations, h₂) =
        reject->>-eq-ok (is_empty p.registrations || ltb 4096 (length p.registrations)) _ _ h₁ in
      let (few_rules, h₃) = reject->>-eq-ok (ltb 65536 (length p.static_rules)) _ _ h₂ in
      let (few_probes, h₄) = reject->>-eq-ok (ltb 4096 (length p.probes)) _ _ h₃ in
      let (_, h₅) = reject->>-eq-ok (ltb 4096 (length p.scripts)) _ _ h₄ in
      let (_, _, h₆) = >>=-eq-ok (validate_scripts Z S p.scripts _) _ h₅ in
      let (used, budget, h₇) = >>=-eq-ok (string_budget Z S p) _ h₆ in
      let (a, e₁, b₁) = >>=-eq-ok (validate_registrations p.registrations _) _ budget in
      let (b, e₂, e₃) = >>=-eq-ok (validate_rules p.static_rules a) _ b₁ in
      let (registrations, u₁) =
        good_registrations p.registrations _ e₁ (omega arith) t.registrations in
      let (rules, u₂) = good_rules p.static_rules a e₂ (omega (arith, u₁)) t.static_rules in
      let (probes, u₃) = good_probes [] p.probes b e₃ (omega (arith, u₂)) t.probes in
      let (small, h₈) = reject->>-eq-ok (ltb max_strings_bytes used) _ _ h₇ in
      let (name, h₉) = >>-eq-ok (validate_string p.canonical_name) _ h₈ in
      let (path, h₁₀) = >>-eq-ok (validate_string p.source_path) _ h₉ in
      let (commit, license) = >>-eq-ok (validate_string p.source_commit) _ h₁₀ in
      (
        record {
          canonical_name = (name, t.canonical_name);
          registrations = registrations;
          few_registrations =
              ltb→le (length p.registrations) 4096
                (or-eq-false (is_empty p.registrations) _ few_registrations).1;
          source_path = (path, t.source_path);
          source_commit = (commit, t.source_commit);
          license = (license, t.license);
          few_rules = ltb→le (length p.static_rules) 65536 few_rules;
          static_rules = rules;
          few_probes = ltb→le (length p.probes) 4096 few_probes;
          probes = probes;
        },
        omega (arith, u₁, u₂, u₃, ltb→le used max_strings_bytes small),
      )

  -- A block that the encoder returns: the program was valid, the version known, the layout as documented.
  pub record IsEncoded (p : CommandProgram ScriptModule) (version : ℕ) (block : Bytes)
      : Type 0 where
    pub valid : validate Z S p ≡ ok tt
    pub known : in_range 1 4 version ≡ true
    pub allowed : (ltb version 4 && any requires_block_v4 p.scripts) ≡ false
    pub body : encode_body S p version [] ≡ ok block
    pub within : length block ≤ max_command_block_bytes

  pub encode_version-IsEncoded :
      (p : CommandProgram ScriptModule) (version : ℕ) (block : Bytes)
      → encode_version Z S p version ≡ ok block
      → IsEncoded p version block
  unfolding encode_version
  encode_version-IsEncoded p version block h =
      let (_, valid, h₁) = >>=-eq-ok (validate Z S p) _ h in
      let (known, h₂) = require->>-eq-ok (in_range 1 4 version) _ _ h₁ in
      let (allowed, h₃) =
        reject->>-eq-ok (ltb version 4 && any requires_block_v4 p.scripts) _ _ h₂ in
      let (encoded, body, h₄) = >>=-eq-ok (encode_body S p version []) _ h₃ in
      let (within, e) = reject->>-eq-ok (ltb max_command_block_bytes (length encoded)) _ _ h₄ in
      let same : encoded ≡ block = ok-injective e in
      record {
        valid = valid;
        known = known;
        allowed = allowed;
        body = body ∙ e;
        within = rw (ap (length {A = ℕ}) same) at (ltb→le (length encoded) _ within);
      }

  -- Reading the whole input leaves nothing.
  decode_body-eq-ok :
      (p : CommandProgram ScriptModule) (block : Bytes) (allocation_limit s c : ℕ)
      → Reads (decode_fields Z S) block p s c
      → IsReady (new_decoder block allocation_limit) (block ++ []) s c
      → decode_body Z S (new_decoder block allocation_limit)
        ≡ ok (p, advance (new_decoder block allocation_limit) (length block) s c)
  unfolding decode_body ◌>>=◌ observe lift pure
  decode_body-eq-ok p block allocation_limit s c reads ready =
      rw (reads.run (new_decoder block allocation_limit) [] ready)
        (rw (remaining-advance (new_decoder block allocation_limit) block [] s c ready.at) refl)

  IsReady-start :
      (block : Bytes) (allocation_limit s c : ℕ)
      → length block ≤ max_command_block_bytes
      → s ≤ max_strings_bytes
      → length block + c ≤ allocation_limit
      → allocation_limit ≤ usize_max
      → IsReady (new_decoder block allocation_limit) (block ++ []) s c
  unfolding new_decoder remaining
  IsReady-start block allocation_limit s c small text room bounded = record {
    at = sym (append-nil block);
    inside = omega (arith, ap (length {A = ℕ}) (append-nil block));
    addressable = omega arith;
    strings = omega arith;
    allocation = room;
    bounded = bounded;
  }

  -- For a program whose scripts have the laws of `JsonLaws`: encoding a typed program in a version with scripts (3 or 4),
  -- where it returns a block, and decoding that block under an allocation limit within `usize` that leaves room
  -- for the block and for what its parts are charged, returns the program itself.
  pub decode-encode_version :
      (p : CommandProgram ScriptModule) (laws : JsonLaws S Z p.scripts)
      (version allocation_limit : ℕ) (block : Bytes)
      → IsTypedProgram p
      → 3 ≤ version
      → encode_version Z S p version ≡ ok block
      → length block + program_cost Z p (laws.preflight_cost) ≤ allocation_limit
      → allocation_limit ≤ usize_max
      → decode_with_allocation_limit Z S block allocation_limit ≡ ok p
  unfolding decode_with_allocation_limit
  decode-encode_version p laws version allocation_limit block t v h room bounded =
      let e = encode_version-IsEncoded p version block h in
      let (accepted, text) = validate-IsAccepted p t e.valid in
      let (json, wire) = encode_body-eq-wire S p version block v accepted e.body in
      let small : version < 65536 =
        omega (arith, leb→le version 4 (and-eq-true (leb 1 version) _ e.known).1) in
      let cost = program_cost Z p (laws.preflight_cost) in
      let reads =
        subst (λ w. Reads (decode_fields Z S) w p (program_text p) cost) (sym wire)
          (Reads-fields Z S p version laws v small e.known accepted json e.allowed) in
      let ready =
        IsReady-start block allocation_limit (program_text p) cost e.within text room bounded in
      rw (le→ltb (length block) max_command_block_bytes e.within) (
        rw (le→ltb (length block) allocation_limit (omega (arith, room))) (
          rw (decode_body-eq-ok p block allocation_limit (program_text p) cost reads ready)
            (rw e.valid)))
