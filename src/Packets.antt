-- ===== src/Packets.antt =====
-- src/packets: the Bitcoin wire format, read from and written to byte strings.
pub mod Buffer
pub mod Varint
pub mod Varstr
pub mod Array
pub mod Tx
pub mod BlockHeader
pub mod Block
pub mod GetHeaders
pub mod InvVector
pub mod NetAddr
pub mod Version
pub mod Payload
mod Tests
