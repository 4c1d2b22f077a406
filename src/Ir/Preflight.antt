-- ===== src/Ir/Preflight.antt =====
-- `ScriptJsonPreflight` of rules/ir.rs from values on, and `preflight_script_encoding_with_limit`.
use bash_lume.Base.{
  ℕ, zero, suc, ◌+◌, ◌*◌, Bool, true, false, ◌||◌, not, Option, none, some, List, [], ◌∷◌, Bytes,
  Result, ok, err, length, ltb, ◌==◌, min, saturating_add, if◌then◌else◌,
}
use bash_lume.Base.Utf8.{valid_utf8}
use bash_lume.Base.Codes.{codes}
use bash_lume.Ir.Types.{IrError, invalid}
use bash_lume.Ir.Limits.{Sizes, max_script_modules, max_script_aggregate_bytes}
use bash_lume.Ir.JsonScan.{
  Preflight, Scan, ◌>>=◌, ◌>>◌, pure, refuse, aggregate, charge, record_discriminator_error,
  skip_whitespace, consume, literal, is_digit, number,
}
use bash_lume.Ir.JsonStrings.{json_string}
use bash_lume.Ir.JsonTags.{
  json_key_equals, TagKind, script_json_tag_value_is_known, tag_kind, Deferred, no_fields,
  defer_field, settle_field, defers_too_much, deferred_field_bytes, is_quote, peek, expect, at_end,
}

abbrev pub no_scratch : ℕ → List ℕ
no_scratch zero = []
no_scratch (suc n) = 0 ∷ no_scratch n

abbrev pub preflight_start : Bytes → ℕ → ℕ → Preflight
preflight_start bytes used limit = record {
  rest = bytes;
  used = used;
  scratch = no_scratch 130;
  scratch_total = 0;
  discriminator_error_peak = 0;
  limit_bytes = limit;
}

abbrev pub preflight_total : Result IrError (Unit {0} × Preflight) → Result IrError ℕ
preflight_total (ok (done, s)) = ok (saturating_add s.used s.scratch_total)
preflight_total (err e) = err e

module _ (Z : Sizes) where
  -- The discriminator of a tagged object, whose value is a string.
  unfoldable pub tag_value : TagKind → ℕ → ℕ → Scan Bool
  unfolding ◌>>=◌ json_string script_json_tag_value_is_known record_discriminator_error pure
  tag_value tag reparse_depth additional = do
    value ← json_string Z (reparse_depth + 1) false additional
    (if script_json_tag_value_is_known tag value
        then pure tt
        else record_discriminator_error Z (length value))
    pure (script_json_tag_value_is_known tag value)

  module _ (value : ℕ → Bool → ℕ → Scan (Unit {0})) where
    -- The elements of an array, with `value` for the next depth.
    unfoldable pub array_loop : ℕ → ℕ → ℕ → Scan (Unit {0})
    unfolding ◌>>=◌ consume expect refuse pure
    array_loop zero reparse_depth additional = refuse
    array_loop (suc fuel) reparse_depth additional = do
      value reparse_depth true additional
      closed ← consume b']'
      let more : Scan (Unit {0}) = do expect b','; array_loop fuel reparse_depth additional
      (if closed then pure tt else more)

    -- A turn passes a byte at least, so what is left of the text bounds the turns; so below.
    unfoldable pub array_items : ℕ → ℕ → Scan (Unit {0})
    unfolding array_loop
    array_items reparse_depth additional s =
        array_loop (suc (length s.rest)) reparse_depth additional s

    unfoldable pub array : ℕ → ℕ → Scan (Unit {0})
    unfolding ◌>>=◌ expect charge consume array_items pure
    array reparse_depth additional = do
      expect b'['
      charge (2 * Z.of_vec)
      closed ← consume b']'
      (if closed then pure tt else array_items reparse_depth additional)

    -- The value of a field: whether it is a known discriminator.
    unfoldable pub field_value : Option TagKind → ℕ → ℕ → Option ℕ → Scan Bool
    unfolding ◌>>=◌ tag_value pure
    field_value none reparse_depth additional next =
        value (reparse_depth + 1) true additional >> pure false
    field_value (some tag) reparse_depth additional next =
        if is_quote next
        then tag_value tag reparse_depth additional
        else value (reparse_depth + 1) true additional >> pure false

    -- A field with its key, and the deferred fields after it.
    unfoldable pub object_field : ℕ → Deferred → Scan Deferred
    unfolding ◌>>=◌ skip_whitespace json_string json_key_equals defer_field charge expect tag_kind
        peek field_value settle_field defers_too_much pure
    object_field reparse_depth d = do
      skip_whitespace
      key ← json_string Z reparse_depth false 0
      let additional = if json_key_equals key (codes "zsh_function_names") then Z.of_str else 0
      let deferred = defer_field (length key) d
      charge (saturating_add deferred_field_bytes (length key))
      expect b':'
      skip_whitespace
      next ← peek
      recognized ← field_value (tag_kind key) reparse_depth additional next
      let settled = settle_field (length key) recognized deferred
      (if defers_too_much settled then (λ s. err aggregate) else pure settled)

    unfoldable pub object_loop : ℕ → ℕ → Deferred → Scan (Unit {0})
    unfolding ◌>>=◌ object_field consume expect refuse pure
    object_loop zero reparse_depth d = refuse
    object_loop (suc fuel) reparse_depth d = do
      settled ← object_field reparse_depth d
      closed ← consume b'}'
      let more : Scan (Unit {0}) = do expect b','; object_loop fuel reparse_depth settled
      (if closed then pure tt else more)

    unfoldable pub object_fields : ℕ → Scan (Unit {0})
    unfolding object_loop
    object_fields reparse_depth s = object_loop (suc (length s.rest)) reparse_depth no_fields s

    unfoldable pub object : ℕ → Scan (Unit {0})
    unfolding ◌>>=◌ expect charge consume object_fields pure
    object reparse_depth = do
      expect b'{'
      charge (2 * Z.of_statement)
      closed ← consume b'}'
      (if closed then pure tt else object_fields reparse_depth)

    -- The match on the first byte of a value.
    unfoldable pub value_at : Option ℕ → ℕ → Bool → ℕ → Scan (Unit {0})
    unfolding ◌>>=◌ object array json_string literal number refuse pure
    value_at none reparse_depth charged additional = refuse
    value_at (some b) reparse_depth charged additional =
        if b == b'{'
        then object reparse_depth
        else if b == b'['
        then array reparse_depth additional
        else if b == b'"'
        then (json_string Z reparse_depth charged additional >>= λ raw. pure tt)
        else if b == b't'
        then literal (codes "true")
        else if b == b'f'
        then literal (codes "false")
        else if b == b'n'
        then literal (codes "null")
        else if b == b'-' || is_digit b
        then number
        else refuse

  -- `value`, with the number of levels that are left: 129 less the depth.
  unfoldable pub json_value : ℕ → ℕ → Bool → ℕ → Scan (Unit {0})
  unfolding ◌>>=◌ skip_whitespace peek value_at refuse
  json_value zero reparse_depth charged additional = refuse
  json_value (suc levels) reparse_depth charged additional = do
    skip_whitespace
    next ← peek
    value_at (json_value levels) next reparse_depth charged additional

  -- A module is a value at depth 1.
  unfoldable pub modules_loop : ℕ → ℕ → Scan (Unit {0})
  unfolding ◌>>=◌ json_value consume at_end expect refuse
  modules_loop zero seen = refuse
  modules_loop (suc fuel) seen = do
    json_value 128 0 true 0
    (if ltb max_script_modules (saturating_add seen 1) then (λ s. err aggregate) else pure tt)
    closed ← consume b']'
    let more : Scan (Unit {0}) = do expect b','; modules_loop fuel (saturating_add seen 1)
    (if closed then at_end else more)

  unfoldable pub modules_items : Scan (Unit {0})
  unfolding modules_loop
  modules_items s = modules_loop (suc (length s.rest)) 0 s

  unfoldable pub modules : Scan (Unit {0})
  unfolding ◌>>=◌ expect consume at_end modules_items
  modules = do expect b'['; closed ← consume b']'; (if closed then at_end else modules_items)

  -- What is charged from the start, with the encoded bytes or without.
  unfoldable pub preflight_used : Bytes → Bool → ℕ
  preflight_used bytes charge_encoded_bytes =
      saturating_add (if charge_encoded_bytes then length bytes else 0) (2 * Z.of_vec)

  unfoldable pub preflight_script_encoding_with_limit : Bytes → ℕ → Bool → Result IrError ℕ
  unfolding modules preflight_used
  preflight_script_encoding_with_limit bytes allocation_limit charge_encoded_bytes =
      let limit = min allocation_limit max_script_aggregate_bytes in
      let used = preflight_used bytes charge_encoded_bytes in
      if not (valid_utf8 bytes)
      then err (invalid "invalid script encoding")
      else if ltb limit used
      then err aggregate
      else preflight_total (modules (preflight_start bytes used limit))
