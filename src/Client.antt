-- ===== src/Client.antt =====
-- crates/tossinvest/src: the client library.
pub mod Error
pub mod Transport
pub mod Reqwest
pub mod Auth
pub mod Retry
pub mod Call
pub mod Endpoints
pub mod Builder
