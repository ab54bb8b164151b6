-- ===== src/Restartd/Units.antt =====
-- The units of usr/src/agent/restartd/unit.h and unit.c: the restarter's state machine of a service
-- instance. The functions unit_enter_* call one another; `unit_enter` is the family of them under a
-- bound on the nesting of calls.
pub mod States
pub mod Enter
pub mod Events
