-- ===== src/Headers.antt =====
-- cbits/headers.c: the collector of header blocks.
pub mod Lines
pub mod Search
pub mod Buffer
pub mod Collector
