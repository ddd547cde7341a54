-- ===== src/Core.antt =====
-- libfrcore, the C library at the bottom (src/core_c/ and include/forgerelay/): one module for each
-- of its units.
pub mod Status
pub mod Checked
pub mod Bits
pub mod Byteorder
pub mod Crc32
pub mod Buffer
pub mod Frame
pub mod Hex
pub mod Path
mod Tests
