-- ===== src/State.antt =====
-- crates/tossinvest-state: the projection of observed orders, and the runtime around it.
pub mod Event
pub mod View
pub mod Rows
pub mod Projection
pub mod Ops
pub mod Invariant
pub mod Closing
pub mod Fills
pub mod Latch
pub mod Generation
pub mod Store
pub mod Pump
pub mod System
pub mod Submission
