-- ===== src/Lib.antt =====
-- Verification of package rtcp, which reads and writes RTCP packets.
--
-- A datagram is a list of packets. `Unmarshal` in packet.go reads the header of the first, asks a
-- factory for an empty packet of its type, lets that packet read its own bytes, and goes on behind
-- them; `Marshal` writes the packets one after the other. compound_packet.go puts rules on the
-- first packets of a list. Every packet type has its own file, with a struct and the methods
-- `Marshal`, `Unmarshal`, `len`, `Header` and `DestinationSSRC`.
--
-- Files, and the code that they model (paths from the root of the repository):
--   Result                           errors.go; Go's pair of value and error, and a panic
--   Bytes                            byte slices and encoding/binary, as far as the code uses them
--   Util                             util.go
--   Header                           header.go
--   Reception                        reception_report.go
--   SenderReport, ReceiverReport     sender_report.go, receiver_report.go
--   SourceDescription                source_description.go: items, chunks and the packet
--   Goodbye                          goodbye.go
--   TransportLayerNack               transport_layer_nack.go
--   RapidResynchronizationRequest    rapid_resynchronization_request.go
--   PictureLossIndication            picture_loss_indication.go
--   SliceLossIndication              slice_loss_indication.go
--   ReceiverEstimatedMaximumBitrate  receiver_estimated_maximum_bitrate.go
--   TransportLayerCc                 transport_layer_cc.go: chunks, deltas, writing and reading
--   RawPacket                        raw_packet.go
--   Packet                           packet.go
--   CompoundPacket                   compound_packet.go
--   Prelude                          shared names, tests on numbers, and lemmas on lists and bits
--   Outcome                          what a computation may come to: never out of fuel, a panic only
--                                    where it is allowed, and only values with a property
--   Examples                         the theorems at concrete packets
-- A method `(p T) Marshal` is `marshal` of the module T, and so on; a Go name in camel case is the
-- same name in snake case. A child module RoundTrip gives the bytes of a packet as a function
-- `encode` without offsets, shows that `marshal` writes them, and that `unmarshal` reads them. A
-- child module Reading goes through `unmarshal` on arbitrary bytes; Packet/Reached puts these
-- together along the rests of a datagram that the loop of `Unmarshal` reaches. A child module
-- Writing goes through `marshal` on arbitrary packets, and Packet/Refusals puts these together.
-- Packet/Datagram describes a datagram with no loop, and CompoundPacket/Grammar a compound one;
-- Packet/Append, Packet/Stable and Packet/Stops build on it. Packet/Overruns is about datagrams
-- that make a reader panic. The children Names and Text are the `String` methods that are
-- modelled.
--
-- State. A struct is a record, a slice is a list, an unsigned integer is a natural number with its
-- wrap-around written out. A method on a pointer takes the struct that was there before where a
-- field may keep its value, and gives the new one. A run-time panic is an outcome of its own, since
-- Go ends there. In transport_layer_cc.go a run of symbols shares one pointer between its deltas,
-- so reading goes over memory cells and pointers to them; and slices of it may reach behind the
-- packet into the rest of the datagram, which the model hands over as spare bytes. The datagram
-- itself is taken as a slice whose capacity is its length: in Go a datagram that lies in a longer
-- buffer lets the last packet's congestion control reader go on into that buffer, at the lines 453,
-- 459 and 473 of transport_layer_cc.go and where it reads deltas, where the model panics.
--
-- Bounds and fuel. Loops over a slice or up to a count are structural. Fuel stands in for the others:
-- three rounds for the padding of extensions, sixteen for the bits of a nack, the count of the
-- header for the reports, and the length of the bytes for chunks, items and packets, each of which
-- takes at least one byte. A loop that ran out would answer `stuck`, which is no Go value.
--
-- Not modelled: the `String` methods of the packets and dumpBinary, which only put fields into
-- texts (those of the packet types, the item types and the bitrate message are modelled); fuzz.go,
-- which calls functions that the package does not have; the tests. A `Packet` is one of the types
-- that the factory makes: a compound packet inside a list of packets, and types of other packages,
-- are left out. Extensions that are read share memory with the datagram in Go, and are a copy
-- here.
pub mod Prelude
pub mod Result
pub mod Outcome
pub mod Bytes
pub mod Util
pub mod Header
pub mod Reception
pub mod PictureLossIndication
pub mod RapidResynchronizationRequest
pub mod Goodbye
pub mod SourceDescription
pub mod SenderReport
pub mod ReceiverReport
pub mod TransportLayerNack
pub mod SliceLossIndication
pub mod ReceiverEstimatedMaximumBitrate
pub mod RawPacket
pub mod TransportLayerCc
pub mod Packet
pub mod CompoundPacket
pub mod Examples
