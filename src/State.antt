-- ===== src/State.antt =====
-- engine/state.rs and engine/state/tex_state.rs.
pub mod Change
pub mod Stack
pub mod Registers
pub mod CommandTable
pub mod DefaultState
pub mod Assign
pub mod Pop
pub mod View
pub mod Write
pub mod Places
pub mod Bounds
pub mod Environment
pub mod Scopes
pub mod Invariant
pub mod Refinement
pub mod Groups
pub mod Operations
pub mod Programs
pub mod Lifetimes
pub mod Queues
mod Tests
