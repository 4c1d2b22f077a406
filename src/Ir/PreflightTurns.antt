-- ===== src/Ir/PreflightTurns.antt =====
-- The loops of the preflight in rules/ir.rs: a value of the JSON text takes a byte at least, so the turns are enough.
use bash_lume.Ir.JsonScan.{Preflight}
