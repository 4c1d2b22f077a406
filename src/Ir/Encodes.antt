-- ===== src/Ir/Encodes.antt =====
-- The encoder of rules/ir.rs where the block limit leaves it room.
use mathlib.Core.List.{append-nil, append_assoc}
use bash_lume.Base.{
  ℕ, ◌+◌, ◌-◌, ◌≤◌, ◌<◌, ◌≡◌, refl, sym, ap, ◌∙◌, true, false, ◌&&◌, List, [], ◌∷◌, ◌++◌, Bytes, ok,
  arith, length, length-append, join, ltb, le→leb, any, u32_end, usize_max, le32, saturating_add,
  min,
}
use bash_lume.Base.Utf8.{in_range}
use bash_lume.Ir.Types.{CommandProgram}
use bash_lume.Ir.Limits.{command_block_magic, max_command_block_bytes, Sizes, ScriptIr}
use bash_lume.Ir.ValidateProgram.{validate}
use bash_lume.Ir.Encoder.{Encode, ◌>>◌}
use bash_lume.Ir.EncodeProgram.{
  BoundedJsonBuffer, write, to_writer, put_json, encode_scripts, encode_body, encode_version,
}
use bash_lume.Ir.JsonLaws.{json_text}
use bash_lume.Ir.Wire.{string_wire, block_wire}
use bash_lume.Ir.Typed.{IsTypedProgram}
use bash_lume.Ir.Writes.{Writes, Writes-extend, Writes-u16, Writes-count, Writes-each}
use bash_lume.Ir.WritesData.{Writes-string, Writes-blob, Writes-strings, Writes-rule, Writes-probe}
use bash_lume.Ir.WritesProgram.{IsAccepted}
use bash_lume.Ir.RoundTrip.{validate-IsAccepted}

-- Wherever the block limit leaves room for `w`, `m` appends it.
record Fits (m : Encode) (w : Bytes) : Type 0 where
  run :
      (buffer : Bytes)
      → length buffer + length w ≤ max_command_block_bytes
      → m buffer ≡ ok (buffer ++ w)

Fits->> : {m k : Encode} {w v : Bytes} → Writes m w → Fits k v → Fits (m >> k) (w ++ v)
unfolding ◌>>◌
Fits->> {k} {w} {v} hm hk = record {
  run = λ buffer h. rw (hm.run buffer) (
      hk.run (buffer ++ w) (omega (arith, h, length-append buffer w, length-append w v))
      ∙ ap ok (append_assoc buffer w v));
}

abbrev filled : BoundedJsonBuffer → List Bytes → BoundedJsonBuffer
filled b chunks = record b { written = b.written ++ join chunks }

write-ok :
    (b : BoundedJsonBuffer) (chunk : Bytes)
    → length b.written + length chunk ≤ b.limit_bytes
    → write b chunk ≡ (record b { written = b.written ++ chunk }, true)
unfolding write saturating_add
write-ok b chunk h =
    let fits : ltb b.limit_bytes (min (length b.written + length chunk) usize_max) ≡ false =
      ground arith in
    rw fits refl

-- A writer with room for all chunks takes them.
to_writer-ok :
    (b : BoundedJsonBuffer) (chunks : List Bytes)
    → length b.written + length (join chunks) ≤ b.limit_bytes
    → to_writer b chunks true ≡ (filled b chunks, true)
unfolding to_writer
to_writer-ok b [] h =
    ap (λ (t : Bytes). (record b { written = t }, true)) (sym (append-nil b.written))
to_writer-ok b (chunk ∷ chunks) h =
    let next : BoundedJsonBuffer = record b { written = b.written ++ chunk } in
    let room : length b.written + length chunk ≤ b.limit_bytes =
      omega (arith, h, length-append chunk (join chunks)) in
    let more : length next.written + length (join chunks) ≤ b.limit_bytes =
      omega (arith, h, length-append chunk (join chunks), length-append b.written chunk) in
    rw (write-ok b chunk room) (
      to_writer-ok next chunks more
      ∙ ap (λ (t : Bytes). (record b { written = t }, true))
          (append_assoc b.written chunk (join chunks)))

length-blob : (text : Bytes) → length (string_wire text ++ []) ≡ 4 + length text
unfolding string_wire le32
length-blob text =
    ap (length {A = ℕ}) (append-nil (string_wire text))
    ∙ omega (arith, ap (length {A = ℕ}) (append-nil text))

module _ (S : ScriptIr) where
  open S use {ScriptModule, json_writes, requires_block_v4}

  Fits-scripts :
      (scripts : List ScriptModule)
      → (json_writes scripts).1 ≡ true
      → Fits (encode_scripts S scripts) (string_wire (json_text S scripts) ++ [])
  unfolding encode_scripts put_json
  Fits-scripts scripts finished = record {
    run = λ buffer h.
        let text = json_text S scripts in
        let start : BoundedJsonBuffer = record {
          written = [];
          limit_bytes = max_command_block_bytes - length buffer - 4;
          exceeded = false;
        } in
        let room : 0 + length text ≤ max_command_block_bytes - length buffer - 4 =
          omega (arith, h, length-blob text) in
        let small : length text < u32_end = omega (arith, h, length-blob text) in
        rw finished (
          rw (to_writer-ok start (json_writes scripts).0 room) (
            (Writes-blob text small).run buffer
            ∙ ap (λ t. ok (buffer ++ t)) (sym (append-nil (string_wire text)))));
  }

  Fits-body :
      (p : CommandProgram ScriptModule) (version : ℕ)
      → 3 ≤ version
      → IsAccepted S p
      → (json_writes p.scripts).1 ≡ true
      → Fits (encode_body S p version) (block_wire p version (json_text S p.scripts))
  unfolding encode_body block_wire
  Fits-body p version v h finished = rw (le→leb 3 version v) (
      Fits->> (Writes-extend command_block_magic) (
        Fits->> (Writes-u16 version) (
          Fits->> (Writes-u16 0) (
            Fits->> (Writes-string p.canonical_name h.canonical_name) (
              Fits->>
                (Writes-strings p.registrations (omega (arith, h.few_registrations))
                  h.registrations)
                (Fits->> (Writes-string p.source_path h.source_path) (
                  Fits->> (Writes-string p.source_commit h.source_commit) (
                    Fits->> (Writes-string p.license h.license) (
                      Fits->> (Writes-count _ (omega (arith, h.few_rules))) (
                        Fits->>
                          (Writes-each (Writes-rule version (omega arith)) p.static_rules
                            h.static_rules)
                          (Fits->> (Writes-count _ (omega (arith, h.few_probes))) (
                            Fits->> (Writes-each Writes-probe p.probes h.probes)
                              (Fits-scripts p.scripts finished)))))))))))))

  -- A typed program that passes validation, whose scripts may stand in the version (3 or 4), whose scripts
  -- serialize without an error, and whose layout fits the block limit is encoded, and to that layout.
  pub encode_version-eq-wire :
      (Z : Sizes) (p : CommandProgram ScriptModule) (version : ℕ)
      → IsTypedProgram p
      → validate Z S p ≡ ok tt
      → 3 ≤ version
      → version ≤ 4
      → (ltb version 4 && any requires_block_v4 p.scripts) ≡ false
      → (json_writes p.scripts).1 ≡ true
      → length (block_wire p version (json_text S p.scripts)) ≤ max_command_block_bytes
      → encode_version Z S p version ≡ ok (block_wire p version (json_text S p.scripts))
  unfolding encode_version
  encode_version-eq-wire Z p version t valid low high allowed finished fits =
      let accepted = (validate-IsAccepted Z S p t valid).0 in
      let known : in_range 1 4 version ≡ true = ground arith in
      let body = (Fits-body p version low accepted finished).run [] (omega (arith, fits)) in
      let within : ltb max_command_block_bytes
            (length (block_wire p version (json_text S p.scripts)))
          ≡ false =
        ground arith in
      rw (valid, known, allowed, body, within) refl
