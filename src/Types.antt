-- ===== src/Types.antt =====
-- types/types.go: broadcast modes.
pub mod Tokens
pub mod Messages
use Prim.Native.String.{String}

-- A mode is any text; the constants are the three that the node knows.
abbrev pub BroadcastMode : Type 0
BroadcastMode = String

abbrev pub mode_block : BroadcastMode
mode_block = "block"

abbrev pub mode_sync : BroadcastMode
mode_sync = "sync"

abbrev pub mode_async : BroadcastMode
mode_async = "async"
