-- ===== src/Restartd.antt =====
-- The master restarter, usr/src/agent/restartd: its timers and its units.
pub mod Timer
pub mod Units
pub mod Manager
