-- ===== src/TransportLayerCc.antt =====
-- transport_layer_cc.go: transport-wide congestion control feedback.
pub mod Chunk
pub mod Delta
pub mod Packet
pub mod Read
pub mod RoundTrip
pub mod Runs
pub mod RunLength
pub mod Symbols
pub mod StatusVector
pub mod Wire
pub mod Arrivals
pub mod Coded
pub mod Frame
pub mod Spare
pub mod MixedDeltas
pub mod LargeDeltas
pub mod Cells
pub mod PacketBytes
pub mod PacketRoundTrip
pub mod Pointers
pub mod ReadingChunks
pub mod ChunkFields
pub mod Overruns
pub mod Reading
