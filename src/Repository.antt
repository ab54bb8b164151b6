-- ===== src/Repository.antt =====
-- The service repository: the notes of usr/src/lib/s16/hdr/S16/ServiceNotification.h, the lookup of
-- usr/src/lib/s16/db/local.c, and the merging database of usr/src/agent/configd/db.c.
pub mod Notes
pub mod Lookup
pub mod Merge
pub mod Db
pub mod Convert
pub mod Client
