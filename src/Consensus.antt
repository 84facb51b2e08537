-- ===== src/Consensus.antt =====
-- internal/consensus: one answer out of several.
pub mod Content
pub mod Engine
pub mod Groups
pub mod Grouping
pub mod Best
pub mod Winner
pub mod Disagreement
pub mod Tests
