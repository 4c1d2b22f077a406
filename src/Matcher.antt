-- ===== src/Matcher.antt =====
-- Matching, candidates and the candidate sink of completion/matcher.rs.
pub mod Candidate
pub mod Score
pub mod Match
pub mod FuzzyLaws
pub mod MatchLaws
pub mod Sink
pub mod Entries
pub mod Invariant
pub mod Ranking
pub mod Finish
pub mod Bounds
