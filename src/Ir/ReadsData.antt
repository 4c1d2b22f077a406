-- ===== src/Ir/ReadsData.antt =====
-- The decoders of texts, predicates and candidates in rules/ir.rs against the layout.
use mathlib.Core.Path.{subst, subst₂}
use mathlib.Core.List.{append-nil}
use bash_lume.Base.{
  ap, sym, saturating_add, saturating_add-eq-add, ℕ, ◌+◌, ◌≤◌, ◌<◌, ◌≡◌, refl, Option, none, some,
  List, [], ◌∷◌, ◌++◌, Bytes, ok, arith, length, All, le16, le32, u32_end, word16-le16, word32-le32,
  le→ltb,
}
use bash_lume.Ir.Types.{
  IrError, PredicateOp, op_true, op_false, op_not, op_and, op_or, current_word_equals,
  current_word_starts_with, previous_word_equals, any_word_equals, word_not_present,
  word_index_equals, word_index_at_least, command_path_equals, environment_set, environment_equals,
  CandidateTemplate,
}
use bash_lume.Ir.Limits.{max_strings_bytes, max_string_bytes, Sizes}
use bash_lume.Ir.Validate.{optional_length}
use bash_lume.Ir.Decoder.{
  Decode, ◌>>=◌, charge_text, charge_string, check_strings, u8, u16, u32, count, blob, string,
  optional_string, strings, decode_predicate, decode_predicates, zero_flag, decode_candidate,
}
use bash_lume.Ir.Wire.{
  string_wire, optional_wire, strings_wire, predicate_wire, predicates_wire, candidate_wire,
  predicate_text, predicates_text, candidate_text, strings_cost, predicate_cost, predicates_cost,
  sum_of,
}
use bash_lume.Ir.Reads.{
  Reads, Reads-bind, Reads-free, Reads-lift, Reads-pure, Reads-checked, advance-none, Reads-end,
  Reads-last, Reads-cast, Reads-tail, Reads-charge->>, Reads-charge_array->>, Reads-take,
  Reads-each,
}
use bash_lume.Ir.Typed.{
  IsGoodString, IsGoodOptional, IsGoodPredicate, IsGoodProgram, IsGoodCandidate,
}
use bash_lume.Ir.Codes.{kind_decode-encode, append_decode-encode, ordering_flag_byte}
use bash_lume.Ir.WritesData.{length-validate_string}

pub Reads-u8 : (n : ℕ) → Reads u8 (n ∷ []) n 0 0
unfolding u8
Reads-u8 n = Reads-free _ (Reads-take (n ∷ [])) (Reads-checked refl)

pub Reads-u16 : (n : ℕ) → n < 65536 → Reads u16 (le16 n) n 0 0
unfolding u16 le16
Reads-u16 n h = Reads-free _ (Reads-take (le16 n)) (Reads-checked (ap ok (word16-le16 n h)))

pub Reads-u32 : (n : ℕ) → n < u32_end → Reads u32 (le32 n) n 0 0
unfolding u32 le32
Reads-u32 n h = Reads-free _ (Reads-take (le32 n)) (Reads-checked (ap ok (word32-le32 n h)))

pub Reads-count : (maximum n : ℕ) → n ≤ maximum → n < u32_end → Reads (count maximum) (le32 n) n 0 0
unfolding count
Reads-count maximum n le h =
    subst (λ w. Reads (count maximum) w n 0 0) (append-nil (le32 n))
      (unfold count in Reads-free _ (Reads-u32 n h) (Reads-checked (rw (le→ltb n maximum le))))

pub Reads-blob :
    (maximum : ℕ) (s : Bytes)
    → length s ≤ maximum
    → length s < u32_end
    → Reads (blob maximum) (string_wire s) s 0 0
unfolding blob string_wire
Reads-blob maximum s le h =
    subst (λ w. Reads (blob maximum) (le32 (length s) ++ w) s 0 0) (sym (append-nil s))
      (unfold blob in Reads-free _ (Reads-count maximum (length s) le h) (Reads-take s))

Reads-charge_string : (n : ℕ) → Reads (charge_string n) [] tt n 0
unfolding charge_string
Reads-charge_string n = record {
  run = λ d rest h.
      let e : saturating_add d.string_bytes n ≡ d.string_bytes + n =
        saturating_add-eq-add d.string_bytes n (omega (arith, h.strings)) in
      let p : d.position ≡ d.position + 0 = omega arith in
      let r : d.allocation_bytes ≡ d.allocation_bytes + 0 = omega arith in
      λ i. ok (tt, record d { position = p i; string_bytes = e i; allocation_bytes = r i });
}

Reads-check_strings : Reads check_strings [] tt 0 0
unfolding check_strings
Reads-check_strings = record {
  run = λ d rest h.
      rw (le→ltb d.string_bytes max_strings_bytes (omega (arith, h.strings)))
        (ap (λ d'. ok (tt, d')) (advance-none d));
}

Reads-charge_string->> {ℓ} :
    {B : Type ℓ} (n : ℕ) (k : Decode B) {v : Bytes} {b : B} {t e : ℕ}
    → Reads k v b t e
    → Reads (charge_string n >>= λ _. k) v b (n + t) e
Reads-charge_string->> n k {v} {b} {t} {e} h =
    let p : 0 + e ≡ e = omega arith in
    subst (λ x. Reads (charge_string n >>= λ _. k) v b (n + t) x) p
      (Reads-bind _ (Reads-charge_string n) h)

Reads-charge_text : (n : ℕ) → Reads (charge_text n) [] tt n n
unfolding charge_text
Reads-charge_text n =
    let p : n + 0 ≡ n = omega arith in
    Reads-cast p p
      (unfold charge_text in Reads-charge_string->> n _ (Reads-charge->> n _ Reads-check_strings))

-- A text takes its length from both budgets.
pub Reads-string :
    (s : Bytes) → IsGoodString s → Reads string (string_wire s) s (length s) (length s)
unfolding string string_wire
Reads-string s h =
    let few : length s ≤ 1048576 = length-validate_string s h.0 in
    let p : length s + 0 ≡ length s = omega arith in
    subst₂ (λ x y. Reads string (string_wire s) s x y) p p
      (unfold string string_wire in
        Reads-free _ (Reads-count max_string_bytes (length s) few (omega (arith, few))) (
          Reads-bind _ (Reads-charge_text (length s)) (
            Reads-free _ (Reads-take s) (Reads-lift _ (rw h.1) (Reads-lift _ h.0 (Reads-pure s))))))

pub Reads-optional :
    (s : Option Bytes)
    → IsGoodOptional s
    → Reads optional_string (optional_wire s) s (optional_length s) (optional_length s)
unfolding optional_string optional_wire
Reads-optional none h = Reads-free _ (Reads-u8 0) (Reads-pure none)
Reads-optional (some s) h = Reads-free _ (Reads-u8 1) (Reads-last some (Reads-string s h))

module _ (Z : Sizes) where
  pub Reads-strings :
      (maximum : ℕ) (ss : List Bytes)
      → length ss ≤ maximum
      → length ss < u32_end
      → All IsGoodString ss
      → Reads (strings Z maximum) (strings_wire ss) ss (sum_of length ss) (strings_cost Z ss)
  unfolding strings strings_wire strings_cost
  Reads-strings maximum ss le few good = Reads-free _ (Reads-count maximum (length ss) le few) (
      Reads-charge_array->> Z.of_string (length ss) _
        (Reads-tail (Reads-each Reads-string ss good)))

  pub Reads-predicate :
      (op : PredicateOp)
      → IsGoodPredicate op
      → Reads (decode_predicate Z) (predicate_wire op) op (predicate_text op) (predicate_cost Z op)
  unfolding decode_predicate predicate_wire predicate_text predicate_cost
  Reads-predicate op_true h = Reads-free _ (Reads-u8 0) (Reads-pure op_true)
  Reads-predicate op_false h = Reads-free _ (Reads-u8 1) (Reads-pure op_false)
  Reads-predicate op_not h = Reads-free _ (Reads-u8 2) (Reads-pure op_not)
  Reads-predicate op_and h = Reads-free _ (Reads-u8 3) (Reads-pure op_and)
  Reads-predicate op_or h = Reads-free _ (Reads-u8 4) (Reads-pure op_or)
  Reads-predicate (current_word_equals s) h =
      Reads-free _ (Reads-u8 5) (Reads-last current_word_equals (Reads-string s h))
  Reads-predicate (current_word_starts_with s) h =
      Reads-free _ (Reads-u8 6) (Reads-last current_word_starts_with (Reads-string s h))
  Reads-predicate (previous_word_equals s) h =
      Reads-free _ (Reads-u8 7) (Reads-last previous_word_equals (Reads-string s h))
  Reads-predicate (any_word_equals s) h =
      Reads-free _ (Reads-u8 8) (Reads-last any_word_equals (Reads-string s h))
  Reads-predicate (word_not_present s) h =
      Reads-free _ (Reads-u8 9) (Reads-last word_not_present (Reads-string s h))
  Reads-predicate (word_index_equals n) h =
      Reads-free _ (Reads-u8 10) (Reads-last word_index_equals (Reads-u32 n h))
  Reads-predicate (word_index_at_least n) h =
      Reads-free _ (Reads-u8 11) (Reads-last word_index_at_least (Reads-u32 n h))
  Reads-predicate (command_path_equals ss) h =
      Reads-free _ (Reads-u8 12)
        (Reads-last command_path_equals (Reads-strings 256 ss h.0 (omega (arith, h.0)) h.1))
  Reads-predicate (environment_set s) h =
      Reads-free _ (Reads-u8 13) (Reads-last environment_set (Reads-string s h))
  Reads-predicate (environment_equals name s) h = Reads-free _ (Reads-u8 14) (
      Reads-bind _ (Reads-string name h.0)
        (Reads-end (environment_equals name) (Reads-string s h.1)))

  pub Reads-predicates :
      (ops : List PredicateOp)
      → IsGoodProgram ops
      → Reads
          (decode_predicates Z)
          (predicates_wire ops)
          ops
          (predicates_text ops)
          (predicates_cost Z ops)
  unfolding decode_predicates predicates_wire predicates_text predicates_cost
  Reads-predicates ops h =
      let p : predicates_text ops + 0 ≡ predicates_text ops = omega arith in
      Reads-cast p refl (
        unfold decode_predicates predicates_wire predicates_text predicates_cost in
        Reads-free _ (Reads-count 4096 (length ops) h.short (omega (arith, h.short))) (
          Reads-charge_array->> Z.of_predicate (length ops) _ (
            Reads-bind _ (Reads-each Reads-predicate ops h.each_good)
              (Reads-lift _ h.checked (Reads-pure ops)))))

pub zero_flag_zero : (e : IrError) → zero_flag e 0 ≡ ok tt
unfolding zero_flag
zero_flag_zero e = refl

pub Reads-candidate :
    (c : CandidateTemplate)
    → IsGoodCandidate c
    → Reads decode_candidate (candidate_wire c) c (candidate_text c) (candidate_text c)
unfolding decode_candidate candidate_wire candidate_text
Reads-candidate c h = Reads-bind _ (Reads-string c.value h.value) (
    Reads-bind _ (Reads-string c.display h.display) (
      Reads-bind _ (Reads-optional c.description h.description) (
        Reads-free _ (Reads-u8 _) (
          Reads-lift _ (kind_decode-encode c.kind) (
            Reads-free _ (Reads-u8 _) (
              Reads-lift _ (append_decode-encode c.append) (
                Reads-free _ (Reads-u8 _) (
                  Reads-lift _ (ordering_flag_byte c.preserve_order) (
                    Reads-free _ (Reads-u8 0) (
                      Reads-lift _ (zero_flag_zero _)
                        (Reads-lift _ h.checked (Reads-pure c))))))))))))
