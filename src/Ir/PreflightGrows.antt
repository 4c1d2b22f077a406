-- ===== src/Ir/PreflightGrows.antt =====
-- The limit of the preflight in rules/ir.rs: what it does under a larger limit, and what it leaves charged.
use bash_lume.Base.{ℕ, zero, suc, Bool, Option, none, some, length}
use bash_lume.Ir.Limits.{Sizes}
use bash_lume.Ir.JsonScan.{Scan}
use bash_lume.Ir.JsonTags.{ended, TagKind, Deferred, no_fields, at_end}
use bash_lume.Ir.Preflight.{
  tag_value, array_loop, array_items, array, field_value, object_field, object_loop, object_fields,
  object, value_at, json_value, modules_loop, modules_items, modules,
}
use bash_lume.Ir.ScanGrows.{
  Grows, Grows-reads, grows_rules, Grows-pure, Grows-refuse, Grows-reads, Grows-number,
  Grows-json_string, Grows-expect,
}

Grows-ended : (next : Option ℕ) → Grows {A = Unit {0}} (ended next)
unfolding ended
Grows-ended none = Grows-pure tt
Grows-ended (some b) = Grows-refuse

Grows-at_end : Grows at_end
unfolding at_end
Grows-at_end = search (grows_rules, Grows-ended)

module _ (Z : Sizes) where
  Grows-tag_value :
      (tag : TagKind) (depth additional : ℕ) → Grows (tag_value Z tag depth additional)
  unfolding tag_value
  Grows-tag_value tag depth additional = search (grows_rules, Grows-json_string)

  module _ (value : ℕ → Bool → ℕ → Scan (Unit {0}))
      (grows : (n : ℕ) (b : Bool) (k : ℕ) → Grows (value n b k)) where
    Grows-array_loop :
        (fuel depth additional : ℕ) → Grows (array_loop Z value fuel depth additional)
    unfolding array_loop
    Grows-array_loop zero depth additional = Grows-refuse
    Grows-array_loop (suc fuel) depth additional =
        search (grows_rules, grows, Grows-expect, Grows-array_loop fuel)

    Grows-array_items : (depth additional : ℕ) → Grows (array_items Z value depth additional)
    unfolding array_items
    Grows-array_items depth additional =
        Grows-reads (λ bs. array_loop Z value (suc (length bs)) depth additional)
          λ bs. Grows-array_loop (suc (length bs)) depth additional

    Grows-array : (depth additional : ℕ) → Grows (array Z value depth additional)
    unfolding array
    Grows-array depth additional = search (grows_rules, Grows-expect, Grows-array_items)

    Grows-field_value :
        (tag : Option TagKind) (depth additional : ℕ) (next : Option ℕ)
        → Grows (field_value Z value tag depth additional next)
    unfolding field_value
    Grows-field_value none depth additional next = search (grows_rules, grows)
    Grows-field_value (some tag) depth additional next =
        search (grows_rules, grows, Grows-tag_value)

    Grows-object_field : (depth : ℕ) (d : Deferred) → Grows (object_field Z value depth d)
    unfolding object_field
    Grows-object_field depth d =
        search (grows_rules, Grows-json_string, Grows-expect, Grows-field_value) depth 20

    Grows-object_loop : (fuel depth : ℕ) (d : Deferred) → Grows (object_loop Z value fuel depth d)
    unfolding object_loop
    Grows-object_loop zero depth d = Grows-refuse
    Grows-object_loop (suc fuel) depth d =
        search (grows_rules, Grows-object_field, Grows-expect, Grows-object_loop fuel)

    Grows-object_fields : (depth : ℕ) → Grows (object_fields Z value depth)
    unfolding object_fields
    Grows-object_fields depth =
        Grows-reads (λ bs. object_loop Z value (suc (length bs)) depth no_fields)
          λ bs. Grows-object_loop (suc (length bs)) depth no_fields

    Grows-object : (depth : ℕ) → Grows (object Z value depth)
    unfolding object
    Grows-object depth = search (grows_rules, Grows-expect, Grows-object_fields)

    Grows-value_at :
        (next : Option ℕ) (depth : ℕ) (charged : Bool) (additional : ℕ)
        → Grows (value_at Z value next depth charged additional)
    unfolding value_at
    Grows-value_at none depth charged additional = Grows-refuse
    Grows-value_at (some b) depth charged additional =
        search (grows_rules, Grows-object, Grows-array, Grows-json_string, Grows-number) depth 20

  Grows-json_value :
      (levels depth : ℕ) (charged : Bool) (additional : ℕ)
      → Grows (json_value Z levels depth charged additional)
  unfolding json_value
  Grows-json_value zero depth charged additional = Grows-refuse
  Grows-json_value (suc levels) depth charged additional =
      search (grows_rules, Grows-value_at (json_value Z levels) (Grows-json_value levels))

  Grows-modules_loop : (fuel seen : ℕ) → Grows (modules_loop Z fuel seen)
  unfolding modules_loop
  Grows-modules_loop zero seen = Grows-refuse
  Grows-modules_loop (suc fuel) seen =
      search (grows_rules, Grows-json_value, Grows-expect, Grows-at_end, Grows-modules_loop fuel)
        depth 20

  Grows-modules_items : Grows (modules_items Z)
  unfolding modules_items
  Grows-modules_items =
      Grows-reads (λ bs. modules_loop Z (suc (length bs)) 0)
        λ bs. Grows-modules_loop (suc (length bs)) 0

  pub Grows-modules : Grows (modules Z)
  unfolding modules
  Grows-modules = search (grows_rules, Grows-expect, Grows-at_end, Grows-modules_items)
