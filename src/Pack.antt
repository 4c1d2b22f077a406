-- ===== src/Pack.antt =====
-- Rule packs, in rules/format.rs: the container of command blocks with its index, manifest and signature.
pub mod Types
pub mod Words
pub mod Index
pub mod Codec
pub mod Mapping
pub mod Header
pub mod Open
pub mod Reads
pub mod Load
pub mod Build
pub mod IndexRoundTrip
pub mod NameOrder
pub mod IndexSafety
pub mod OpenSafety
pub mod LoadSafety
pub mod Writes
pub mod Patches
pub mod AssembleHeader
pub mod AssembleSeal
pub mod AssembleParts
pub mod AssembleFields
pub mod AssembleTrust
pub mod AssembleReads
pub mod BuildNames
pub mod BuildInvariant
pub mod AssembleOpen
pub mod BuildLookup
pub mod BuildStored
pub mod RoundTrip
pub mod LoadBuilt
