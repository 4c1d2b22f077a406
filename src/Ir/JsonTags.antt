-- ===== src/Ir/JsonTags.antt =====
-- The keys and discriminators of `ScriptJsonPreflight` in rules/ir.rs: `json_key_equals`,
-- `script_json_tag_value_is_known`, and what the loop of `object` counts.
use bash_lume.Base.{
  ℕ, ◌-◌, Bool, true, false, ◌&&◌, ◌||◌, not, Option, none, some, List, [], ◌∷◌, Bytes, String, ok,
  ltb, ◌==◌, any, saturating_add, if◌then◌else◌,
}
use bash_lume.Base.Codes.{codes}
use bash_lume.Ir.Limits.{max_script_tag_deferred_fields, max_script_tag_deferred_name_bytes}
use bash_lume.Ir.JsonScan.{Scan, ◌>>=◌, ◌>>◌, pure, refuse, skip_whitespace, consume}
use bash_lume.Ir.JsonStrings.{hex_quad, hex_digits}

unfoldable pub spelled_byte : ℕ → Bytes → Option Bytes
unfolding hex_digits
spelled_byte expected [] = none
spelled_byte expected (u ∷ digits) = if not (u == b'u') then none else elim (hex_quad digits) [
  | none ↦ none
  | some (value, after) ↦ if value == expected then some after else none
]

-- The byte of a key, or what its `\u` escape spells.
unfoldable pub key_byte : ℕ → Bytes → Option Bytes
unfolding spelled_byte
key_byte expected [] = none
key_byte expected (b ∷ rest) =
    if b == expected
    then some rest
    else if not (b == b'\\')
    then none
    else spelled_byte expected rest

unfoldable pub json_key_equals : Bytes → Bytes → Bool
unfolding key_byte
json_key_equals [] [] = true
json_key_equals (b ∷ raw) [] = false
json_key_equals raw (expected ∷ more) = elim (key_byte expected raw) [
  | none ↦ false
  | some rest ↦ json_key_equals rest more
]

-- The kinds of discriminator.
pub data TagKind : Type 0 where
  op kind dialect : TagKind

abbrev pub known_tags : TagKind → List String
known_tags TagKind.op =
    "command" ∷ "and-or" ∷ "pipeline" ∷ "if" ∷ "while" ∷ "for" ∷ "case" ∷ "function" ∷ "group"
    ∷ "return" ∷ "break" ∷ "continue" ∷ "noop" ∷ "redirected" ∷ []
known_tags TagKind.kind =
    "function" ∷ "fish-complete" ∷ "module" ∷ "literal" ∷ "parameter" ∷ "command-substitution"
    ∷ "arithmetic" ∷ "brace-expansion" ∷ "array" ∷ "deferred-script" ∷ []
known_tags TagKind.dialect = "bash" ∷ "zsh" ∷ "fish" ∷ []

unfoldable pub script_json_tag_value_is_known : TagKind → Bytes → Bool
unfolding json_key_equals
script_json_tag_value_is_known tag raw =
    any (λ expected. json_key_equals raw (codes expected)) (known_tags tag)

unfoldable pub tag_kind : Bytes → Option TagKind
unfolding json_key_equals
tag_kind key =
    if json_key_equals key (codes "op")
    then some TagKind.op
    else if json_key_equals key (codes "kind")
    then some TagKind.kind
    else if json_key_equals key (codes "dialect")
    then some TagKind.dialect
    else none

-- The variables of the loop of `object`.
pub record Deferred : Type 0 where
  pub fields : ℕ
  pub name_bytes : ℕ
  pub seen : Bool

abbrev pub no_fields : Deferred
no_fields = record { fields = 0; name_bytes = 0; seen = false }

unfoldable pub defer_field : ℕ → Deferred → Deferred
defer_field key_length d =
    if not d.seen
    then record d {
      fields = saturating_add d.fields 1;
      name_bytes = saturating_add d.name_bytes key_length;
    }
    else d

unfoldable pub settle_field : ℕ → Bool → Deferred → Deferred
settle_field key_length recognized d =
    if recognized && not d.seen
    then record { fields = d.fields - 1; name_bytes = d.name_bytes - key_length; seen = true }
    else d

unfoldable pub defers_too_much : Deferred → Bool
defers_too_much d =
    ltb max_script_tag_deferred_fields d.fields
    || ltb max_script_tag_deferred_name_bytes d.name_bytes

-- `10 * size_of::<usize>()`
abbrev pub deferred_field_bytes : ℕ
deferred_field_bytes = 80

abbrev pub head? : Bytes → Option ℕ
head? [] = none
head? (b ∷ bs) = some b

abbrev pub is_quote : Option ℕ → Bool
is_quote none = false
is_quote (some b) = b == b'"'

-- `self.bytes.get(self.cursor)`
unfoldable pub peek : Scan (Option ℕ)
peek s = ok (head? s.rest, s)

unfoldable pub expect : ℕ → Scan (Unit {0})
unfolding ◌>>=◌ consume refuse pure
expect byte = do found ← consume byte; (if found then pure tt else refuse)

-- After the array of modules.
unfoldable pub ended : Option ℕ → Scan (Unit {0})
unfolding refuse pure
ended none = pure tt
ended (some b) = refuse

-- White space up to the end.
unfoldable pub at_end : Scan (Unit {0})
unfolding skip_whitespace ◌>>=◌ peek ended
at_end = do skip_whitespace; next ← peek; ended next
