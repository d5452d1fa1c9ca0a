-- ===== src/Rate.antt =====
-- crates/tossinvest-rate: the rate-limit groups, and the limiter of each that adapts to the server.
pub mod Groups
pub mod Env
pub mod Controller
pub mod Limiter
pub mod Registry
