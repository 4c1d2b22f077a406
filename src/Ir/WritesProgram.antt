-- ===== src/Ir/WritesProgram.antt =====
-- The encoder of a command program in rules/ir.rs, with its bounded JSON buffer, against the layout.
use mathlib.Core.Bool.{false≢true}
use mathlib.Core.List.{append-nil, append_assoc}
use bash_lume.Base.{
  ℕ, ◌+◌, ◌-◌, ◌≤◌, ◌<◌, ◌≡◌, refl, sym, ap, ◌∙◌, Bool, true, false, Bool-cases, inl, inr, List, [],
  ◌∷◌, ◌++◌, Bytes, ok, arith, length, length-append, join, ltb, le→leb, ltb→le, All, u32_end,
  usize_max, ◌⊎◌, saturating_add, min,
}
use bash_lume.Base.Outcome.{ok-injective}
use bash_lume.Ir.Types.{CommandProgram}
use bash_lume.Ir.Limits.{command_block_magic, max_command_block_bytes, ScriptIr}
use bash_lume.Ir.Encoder.{Encode, ◌>>◌, ensure}
use bash_lume.Ir.EncodeProgram.{
  BoundedJsonBuffer, write, to_writer, put_json, encode_scripts, encode_body,
}
use bash_lume.Ir.JsonLaws.{json_text}
use bash_lume.Ir.Wire.{string_wire, block_wire}
use bash_lume.Ir.Typed.{IsGoodString, IsGoodRule, IsGoodProbe}
use bash_lume.Ir.Writes.{Writes, Writes-extend, Writes-u16, Writes-count, Writes-each}
use bash_lume.Ir.WritesData.{Writes-string, Writes-blob, Writes-strings, Writes-rule, Writes-probe}

-- Wherever `m` succeeds, `Q` holds and `w` has been appended.
record Appends (m : Encode) (Q : Type 0) (w : Bytes) : Type 0 where
  run : (buffer r : Bytes) → m buffer ≡ ok r → Q × (r ≡ buffer ++ w)

Appends->> :
    {m k : Encode} {Q : Type 0} {w v : Bytes}
    → Writes m w
    → Appends k Q v
    → Appends (m >> k) Q (w ++ v)
unfolding ◌>>◌
Appends->> {k} {w} {v} hm hk = record {
  run = λ buffer r h.
      let (q, e) = hk.run (buffer ++ w) r (rw (hm.run buffer) at h) in
      (q, e ∙ append_assoc buffer w v);
}

abbrev refused : BoundedJsonBuffer → BoundedJsonBuffer × Bool
refused b = (record b { exceeded = true }, false)

abbrev accepted : BoundedJsonBuffer → Bytes → BoundedJsonBuffer × Bool
accepted b chunk = (record b { written = b.written ++ chunk }, true)

write-cases :
    (b : BoundedJsonBuffer) (chunk : Bytes)
    → b.limit_bytes < usize_max
    → (write b chunk ≡ refused b)
      ⊎ ((write b chunk ≡ accepted b chunk) × (length (b.written ++ chunk) ≤ b.limit_bytes))
unfolding write saturating_add
write-cases b chunk small =
    elim (Bool-cases (ltb b.limit_bytes (min (length b.written + length chunk) usize_max))) [
      | inl over ↦ inl (rw over)
      | inr fits ↦
          inr (
            rw fits refl,
            omega (arith, ltb→le _ b.limit_bytes fits, length-append b.written chunk),
          )
    ]

-- A writer that succeeded has written every chunk, within its limit.
to_writer-written :
    (b : BoundedJsonBuffer) (chunks : List Bytes) (finishes : Bool)
    → (to_writer b chunks finishes).1 ≡ true
    → length b.written ≤ b.limit_bytes
    → b.limit_bytes < usize_max
    → (finishes ≡ true)
      × ((to_writer b chunks finishes).0.written ≡ b.written ++ join chunks)
      × (length (to_writer b chunks finishes).0.written ≤ b.limit_bytes)
unfolding to_writer
to_writer-written b [] finishes h le small = (h, sym (append-nil b.written), le)
to_writer-written b (chunk ∷ chunks) finishes h le small = elim (write-cases b chunk small) [
  | inl e ↦ absurd (false≢true (rw e at h))
  | inr (e, fits) ↦
      let (done, text, within) =
        to_writer-written (accepted b chunk).0 chunks finishes (rw e at h) fits small in
      rw e (done, text ∙ append_assoc b.written chunk (join chunks), within)
]

put_json-ok :
    (out : BoundedJsonBuffer × Bool) (buffer r : Bytes)
    → put_json out buffer ≡ ok r
    → (out.1 ≡ true) × (length out.0.written < u32_end → r ≡ buffer ++ string_wire out.0.written)
unfolding put_json ensure
put_json-ok (out, true) buffer r h =
    (refl, λ small. ok-injective (sym h ∙ (Writes-blob out.written small).run buffer))
put_json-ok (out, false) buffer r h = cc

module _ (S : ScriptIr) where
  open S use {ScriptModule, json_writes}

  -- The serializer finished, and its text fits the block.
  pub record HasJson (scripts : List ScriptModule) : Type 0 where
    pub finished : (json_writes scripts).1 ≡ true
    pub fits : length (json_text S scripts) ≤ max_command_block_bytes

  Appends-scripts :
      (scripts : List ScriptModule)
      → Appends
          (encode_scripts S scripts)
          (HasJson scripts)
          (string_wire (json_text S scripts) ++ [])
  unfolding encode_scripts
  Appends-scripts scripts = record {
    run = λ buffer r h.
        let start : BoundedJsonBuffer = record {
          written = [];
          limit_bytes = max_command_block_bytes - length buffer - 4;
          exceeded = false;
        } in
        let (wrote, appended) =
          put_json-ok (to_writer start (json_writes scripts).0 (json_writes scripts).1) buffer r
            h in
        let (done, text, within) =
          to_writer-written start (json_writes scripts).0 (json_writes scripts).1 wrote
            (omega arith) (omega arith) in
        let fits : length (json_text S scripts) ≤ max_command_block_bytes =
          omega (arith, ap (length {A = ℕ}) text, within) in
        (
          record { finished = done; fits = fits },
          appended (omega (arith, within))
              ∙ ap (λ t. buffer ++ t) (ap string_wire text ∙ sym (append-nil _)),
        );
  }

  -- The parts of a program that the encoder accepts.
  pub record IsAccepted (p : CommandProgram ScriptModule) : Type 0 where
    pub canonical_name : IsGoodString p.canonical_name
    pub registrations : All IsGoodString p.registrations
    pub few_registrations : length p.registrations ≤ 4096
    pub source_path : IsGoodString p.source_path
    pub source_commit : IsGoodString p.source_commit
    pub license : IsGoodString p.license
    pub few_rules : length p.static_rules ≤ 65536
    pub static_rules : All IsGoodRule p.static_rules
    pub few_probes : length p.probes ≤ 4096
    pub probes : All IsGoodProbe p.probes

  Appends-body :
      (p : CommandProgram ScriptModule) (version : ℕ)
      → 3 ≤ version
      → IsAccepted p
      → Appends
          (encode_body S p version)
          (HasJson p.scripts)
          (block_wire p version (json_text S p.scripts))
  unfolding encode_body block_wire
  Appends-body p version v h = rw (le→leb 3 version v) (
      Appends->> (Writes-extend command_block_magic) (
        Appends->> (Writes-u16 version) (
          Appends->> (Writes-u16 0) (
            Appends->> (Writes-string p.canonical_name h.canonical_name) (
              Appends->>
                (Writes-strings p.registrations (omega (arith, h.few_registrations))
                  h.registrations)
                (Appends->> (Writes-string p.source_path h.source_path) (
                  Appends->> (Writes-string p.source_commit h.source_commit) (
                    Appends->> (Writes-string p.license h.license) (
                      Appends->> (Writes-count _ (omega (arith, h.few_rules))) (
                        Appends->>
                          (Writes-each (Writes-rule version (omega arith)) p.static_rules
                            h.static_rules)
                          (Appends->> (Writes-count _ (omega (arith, h.few_probes))) (
                            Appends->> (Writes-each Writes-probe p.probes h.probes)
                              (Appends-scripts p.scripts)))))))))))))

  -- A block that the encoder returns is the layout of the program.
  pub encode_body-eq-wire :
      (p : CommandProgram ScriptModule) (version : ℕ) (block : Bytes)
      → 3 ≤ version
      → IsAccepted p
      → encode_body S p version [] ≡ ok block
      → HasJson p.scripts × (block ≡ block_wire p version (json_text S p.scripts))
  encode_body-eq-wire p version block v h e = (Appends-body p version v h).run [] block e
