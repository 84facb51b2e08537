-- ===== src/Proxy.antt =====
-- internal/httpapi/server.go, consensus.go and error_compat.go: a request on its way to the nodes.
pub mod Answer
pub mod Copy
pub mod Whole
pub mod Faithful
pub mod Meta
pub mod Forward
pub mod Retry
pub mod Rounds
pub mod Fallback
pub mod Fanout
pub mod ForwardConsensus
pub mod Participants
pub mod Heard
pub mod Held
pub mod Cause
pub mod Divided
pub mod Elected
pub mod Outcome
pub mod Success
pub mod Request
pub mod Answered
pub mod Pinned
pub mod Failure
pub mod Tests
pub mod RequestTests
