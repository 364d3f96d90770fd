-- ===== src/SourceDescription.antt =====
-- source_description.go: items, the chunks that hold them, and the packet that holds the chunks.
pub mod Item
pub mod Chunk
pub mod Packet
pub mod RoundTrip
pub mod Names
pub mod PacketRoundTrip
pub mod Reading
pub mod Writing
