-- ===== src/Service.antt =====
-- service/: the calls of the node's REST interface, one module for each Go file, and the structs
-- that they decode.
pub mod Bodies
pub mod Auth
pub mod Bank
pub mod Contract
pub mod Tendermint
pub mod Transaction
pub mod Treasury
pub mod Sending
pub mod Answering
pub mod Interfaces
