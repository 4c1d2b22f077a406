-- ===== src/Tests/PreflightRuns.antt =====
-- The preflight of small script texts, and its loops.
use bash_lume.Base.{◌≡◌, ◌≤◌, refl, false, ok, Bytes, arith, saturating_add}
use bash_lume.Base.Utf8.{valid_utf8}
use bash_lume.Base.Codes.{codes}
use bash_lume.Ir.JsonScan.{Preflight}
use bash_lume.Ir.Limits.{max_script_aggregate_bytes}
use bash_lume.Ir.Preflight.{preflight_start, preflight_script_encoding_with_limit}
use bash_lume.Ir.PreflightLimit.{preflight_script_encoding_with_limit-grows}
use bash_lume.Tests.IrData.{sizes}

abbrev scripts : Bytes
scripts = codes "[{\"op\":\"noop\", \"n\":[1.5e3,null]}]"

scripts_pass : preflight_script_encoding_with_limit sizes scripts 600 false ≡ ok 435
unfolding preflight_script_encoding_with_limit valid_utf8 saturating_add
scripts_pass = refl

preflight_script_encoding_with_limit-grows_example :
    (435 ≤ 600)
    × (435 ≤ max_script_aggregate_bytes)
    × (preflight_script_encoding_with_limit sizes scripts 5000 false ≡ ok 435)
preflight_script_encoding_with_limit-grows_example =
    preflight_script_encoding_with_limit-grows sizes scripts 600 5000 false 435 (omega arith)
      scripts_pass

abbrev start : Preflight
start = preflight_start scripts 48 600
