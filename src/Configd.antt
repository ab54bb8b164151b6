-- ===== src/Configd.antt =====
-- The repository daemon of usr/src/agent/configd/: `Handlers` has its remote procedures (rpc.c),
-- `Loop` what it does with subscribers and notes (configd.c).
pub mod Handlers
pub mod Loop
pub mod Remote
pub mod Methods
pub mod Delivery
