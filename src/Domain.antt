-- ===== src/Domain.antt =====
-- crates/domain: the types that every other crate shares.
pub mod Code
pub mod Codes
pub mod Side
pub mod Tif
pub mod OrderType
pub mod ExecState
pub mod RejectReason
pub mod CancelReason
pub mod Price
pub mod Qty
pub mod OrderId
pub mod AccountId
pub mod Counter
pub mod Consts
pub mod Error
