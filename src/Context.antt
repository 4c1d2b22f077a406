-- ===== src/Context.antt =====
-- The analysis of a command line in completion/context.rs: tokens, words, quoting and the replaced range.
pub mod Quoting
pub mod Words
pub mod Segment
pub mod Lexer
pub mod WordBounds
pub mod Analysis
pub mod TokenOrder
pub mod LexerLaws
pub mod BoundsLaws
pub mod AnalysisLaws
pub mod CommandLaws
pub mod TypedWords
pub mod WordCounts
pub mod CurrentWord
pub mod QuotingLaws
pub mod WordsLaws
pub mod LeafLaws
