-- ===== src/Ir.antt =====
-- The command block of rules/ir.rs: data, validation, encoding, decoding, and the preflight of the script JSON.
pub mod Types
pub mod Limits
pub mod Validate
pub mod ValidateProgram
pub mod Encoder
pub mod Decoder
pub mod EncodeProgram
pub mod JsonScan
pub mod JsonStrings
pub mod JsonTags
pub mod Preflight
pub mod ScanShrinks
pub mod ScanMoves
pub mod ScanPasses
pub mod ScanGrows
pub mod PreflightTurns
pub mod PreflightGrows
pub mod PreflightLimit
pub mod DecodeProgram
pub mod Wire
pub mod Writes
pub mod Typed
pub mod WritesData
pub mod Reads
pub mod ReadsData
pub mod Codes
pub mod ReadsRules
pub mod Budget
pub mod Accepts
pub mod AcceptsProbes
pub mod JsonLaws
pub mod WritesProgram
pub mod ReadsProgram
pub mod RoundTrip
pub mod Encodes
pub mod Bounded
pub mod Safety
