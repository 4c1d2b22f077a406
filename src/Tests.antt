-- ===== src/Tests.antt =====
-- Concrete inputs: theorems applied where their hypotheses hold.
pub mod IrData
pub mod IrRoundTrip
mod VmRuns
mod MatcherRuns
mod ContextRuns
mod IrCodes
mod LineRuns
mod MatchRuns
mod PreflightRuns
pub mod PackData
mod PackRuns
