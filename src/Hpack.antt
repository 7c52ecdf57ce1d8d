-- ===== src/Hpack.antt =====
-- hpack.c (src/hpack.c): the integer codec, literal header fields, and arrays of metadata.
pub mod Integer
pub mod Header
pub mod Metadata
mod Tests
