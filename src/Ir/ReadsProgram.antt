-- ===== src/Ir/ReadsProgram.antt =====
-- The decoder of a command program in rules/ir.rs against the layout.
use mathlib.Core.Path.{subst₂}
use mathlib.Core.List.{append-nil}
use bash_lume.Base.{
  ℕ, ◌+◌, ◌-◌, ◌*◌, ◌≤◌, ◌<◌, ◌≡◌, refl, true, false, ◌&&◌, List, Bytes, arith, length, ltb, le→leb,
  any, saturating_mul, saturating_mul-eq-mul,
}
use bash_lume.Base.Utf8.{in_range}
use bash_lume.Ir.Types.{CommandProgram}
use bash_lume.Ir.Limits.{
  command_block_magic, max_registrations, max_rules, max_probes, max_command_block_bytes, Sizes,
  ScriptIr,
}
use bash_lume.Ir.Decoder.{Decode, ◌>>=◌, charge, remaining_allocation}
use bash_lume.Ir.DecodeProgram.{observe, decode_scripts, decode_fields}
use bash_lume.Ir.PreflightLimit.{preflight_script_encoding_with_limit-grows}
use bash_lume.Ir.JsonLaws.{json_text, JsonLaws}
use bash_lume.Ir.Wire.{string_wire, block_wire, program_text, program_cost}
use bash_lume.Ir.Reads.{
  Reads, Reads-bind, Reads-free, Reads-lift, Reads-pure, Reads-charge->>, Reads-charge_array->>,
  Reads-take, Reads-each,
}
use bash_lume.Ir.ReadsData.{
  Reads-u16, Reads-count, Reads-blob, Reads-string, Reads-strings, zero_flag_zero,
}
use bash_lume.Ir.ReadsRules.{Reads-rule, Reads-probe}
use bash_lume.Ir.WritesProgram.{HasJson, IsAccepted}

-- What is left of the allocation budget is known only to be enough.
Reads-observe->> {ℓ} :
    {B : Type ℓ} (k : ℕ → Decode B) {v : Bytes} {b : B} {s c : ℕ}
    → ((left : ℕ) → c ≤ left → Reads (k left) v b s c)
    → Reads (observe remaining_allocation >>= k) v b s c
unfolding ◌>>=◌ observe remaining_allocation
Reads-observe->> k h = record {
  run = λ d rest ready.
      (h (d.allocation_limit - d.allocation_bytes) (omega (arith, ready.allocation))).run d rest
        ready;
}

-- The charge of a product that may saturate.
Reads-charge_mul->> {ℓ} :
    {B : Type ℓ} (n size : ℕ) (k : Decode B) {v : Bytes} {b : B} {t e : ℕ}
    → Reads k v b t e
    → Reads (charge (saturating_mul n size) >>= λ _. k) v b t (n * size + e)
Reads-charge_mul->> n size k {v} {b} {t} {e} h = record {
  run = λ d rest ready.
      let p : saturating_mul n size ≡ n * size =
        saturating_mul-eq-mul n size (omega (arith, ready.allocation, ready.bounded)) in
      rw p ((Reads-charge->> (n * size) k h).run d rest ready);
}

module _ (Z : Sizes) (S : ScriptIr) where
  open S use {ScriptModule, requires_block_v4, json_writes}

  Reads-scripts :
      (version : ℕ) (scripts : List ScriptModule) (laws : JsonLaws S Z scripts)
      → HasJson S scripts
      → (ltb version 4 && any requires_block_v4 scripts) ≡ false
      → Reads
          (decode_scripts Z S version)
          (string_wire (json_text S scripts))
          scripts
          0
          (laws.preflight_cost)
  unfolding decode_scripts
  Reads-scripts version scripts laws h allowed =
      let p : laws.preflight_cost + 0 ≡ laws.preflight_cost = omega arith in
      subst₂ (λ w c. Reads (decode_scripts Z S version) w scripts 0 c) (append-nil _) p
        (unfold decode_scripts in
          Reads-free _
            (Reads-blob max_command_block_bytes (json_text S scripts) h.fits
              (omega (arith, h.fits)))
            (Reads-observe->> _ λ left enough.
              Reads-lift _
                (preflight_script_encoding_with_limit-grows Z (json_text S scripts)
                  laws.preflight_cost left false laws.preflight_cost (omega (arith, enough))
                  laws.passes_preflight).2
                (Reads-charge->> (laws.preflight_cost) _ (
                  Reads-lift _ (rw laws.parses_back)
                    (Reads-lift _ (rw allowed) (Reads-pure scripts))))))

  pub Reads-fields :
      (p : CommandProgram ScriptModule) (version : ℕ) (laws : JsonLaws S Z p.scripts)
      → 3 ≤ version
      → version < 65536
      → in_range 1 4 version ≡ true
      → IsAccepted S p
      → HasJson S p.scripts
      → (ltb version 4 && any requires_block_v4 p.scripts) ≡ false
      → Reads
          (decode_fields Z S)
          (block_wire p version (json_text S p.scripts))
          p
          (program_text p)
          (program_cost Z p (laws.preflight_cost))
  unfolding decode_fields block_wire program_text program_cost
  Reads-fields p version laws v small known h json allowed =
      Reads-free _ (Reads-take command_block_magic) (
        Reads-lift _ refl (
          Reads-free _ (Reads-u16 version small) (
            Reads-lift _ (rw known) (
              Reads-free _ (Reads-u16 0 (omega arith)) (
                Reads-lift _ (zero_flag_zero _) (
                  Reads-bind _ (Reads-string p.canonical_name h.canonical_name) (
                    Reads-bind _
                      (Reads-strings Z max_registrations p.registrations h.few_registrations
                        (omega (arith, h.few_registrations)) h.registrations)
                      (Reads-bind _ (Reads-string p.source_path h.source_path) (
                        Reads-bind _ (Reads-string p.source_commit h.source_commit) (
                          Reads-bind _ (Reads-string p.license h.license) (
                            Reads-free _
                              (Reads-count max_rules _ h.few_rules (omega (arith, h.few_rules)))
                              (Reads-charge_array->> Z.of_rule (length p.static_rules) _ (
                                Reads-bind _
                                  (Reads-each (Reads-rule Z version (omega arith)) p.static_rules
                                    h.static_rules)
                                  (Reads-free _
                                    (Reads-count max_probes _ h.few_probes
                                      (omega (arith, h.few_probes)))
                                    (Reads-charge_array->> Z.of_probe (length p.probes) _ (
                                      Reads-charge_mul->> (length p.probes) 64 _ (
                                        Reads-bind _ (Reads-each (Reads-probe Z) p.probes h.probes)
                                          (rw (le→leb 3 version v) (
                                            Reads-bind _
                                              (Reads-scripts version p.scripts laws json allowed)
                                              (Reads-pure p))))))))))))))))))))
