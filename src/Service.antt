-- ===== src/Service.antt =====
-- Services, instances and paths: usr/src/lib/s16/hdr/S16/Service.h and the functions of
-- usr/src/lib/s16/s16.c on them. `Text` has the conversions of usr/src/lib/s16/db/convert.c that
-- work on strings; the other children hold the proofs.
pub mod Types
pub mod Paths
pub mod Text
pub mod Copy
