-- ===== src/Ir/JsonLaws.antt =====
-- What the round trip takes of serde_json: the text that the serializer finished for a program's scripts parses
-- back, and has the shape that the preflight of rules/ir.rs passes, for its own charge.
use bash_lume.Base.{ℕ, ◌≡◌, false, some, List, Bytes, ok, join}
use bash_lume.Ir.Limits.{Sizes, ScriptIr}
use bash_lume.Ir.Preflight.{preflight_script_encoding_with_limit}

module _ (S : ScriptIr) where
  open S use {ScriptModule, json_writes, from_json}

  abbrev pub json_text : List ScriptModule → Bytes
  json_text scripts = join (json_writes scripts).0

  pub record JsonLaws (Z : Sizes) (scripts : List ScriptModule) : Type 0 where
    pub preflight_cost : ℕ
    pub parses_back : from_json (json_text scripts) ≡ some scripts
    pub passes_preflight :
        preflight_script_encoding_with_limit Z (json_text scripts) preflight_cost false
        ≡ ok preflight_cost
