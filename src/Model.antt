-- ===== src/Model.antt =====
-- crates/tossinvest-model: the wire data types that the other crates compute with.
pub mod Scalar
pub mod OpenEnum
pub mod Enums
pub mod Status
pub mod ErrorCode
pub mod Orders
pub mod Account
pub mod Newtype
pub mod Requests
pub mod Stock
pub mod MarketInfo
pub mod MarketData
pub mod Figures
pub mod Wires
