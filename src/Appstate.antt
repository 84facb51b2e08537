-- ===== src/Appstate.antt =====
-- internal/appstate: the state that the marshal keeps.
pub mod Node
pub mod Normal
pub mod Enrollment
pub mod Keys
pub mod Registered
pub mod Registration
mod Tests
