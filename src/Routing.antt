-- ===== src/Routing.antt =====
-- internal/routing/routing.go: which node serves a request.
pub mod Policy
pub mod Placement
pub mod Admission
pub mod Plan
pub mod Search
pub mod Select
pub mod Bounds
pub mod Eligible
pub mod Served
pub mod Tests
