-- ===== src/Breakout.antt =====
-- lib/src/parse_breakout.c: the bitfield tables in memory and what is done with them.
pub mod Tables
pub mod Parts
pub mod Lookup
pub mod Add
pub mod Search
pub mod Results
pub mod Listing
pub mod Ioctls
pub mod Find
pub mod Sample
