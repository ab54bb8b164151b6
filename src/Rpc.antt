-- ===== src/Rpc.antt =====
-- The JSON-RPC of usr/src/lib/s16/rpc/rpc.c: `Wire` has the bytes of a message, `Server` and `Client`
-- the two ends, `Calls` what a call through both gives.
pub mod Wire
pub mod Server
pub mod Connections
pub mod Client
pub mod Exchange
pub mod Calls
