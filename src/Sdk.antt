-- ===== src/Sdk.antt =====
-- The third-party code that the program calls (cosmos-sdk, tendermint, terra-project/core, the
-- network): types, the structs that the source builds by literals, and operations.
mod Opaque
mod Structs
mod Operations
pub mod Laws
pub mod Amino
pub use Opaque.{Kinds}
pub use Structs.*
pub use Operations.{Target, Sdk}
