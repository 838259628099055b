-- ===== src/Protocol.antt =====
-- include/sputteros/comms/protocol: the wire protocol, from checksum to frames.
pub mod Crc16
pub mod Cobs
pub mod Frame
pub mod Message
pub mod Responses
pub mod Router
mod Tests
