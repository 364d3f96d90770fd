-- ===== src/CompoundPacket.antt =====
-- compound_packet.go: several packets in one datagram, the first of them a report.
pub mod Specification
pub mod FirstName
pub mod RoundTrip
pub mod Grammar
pub mod Reading
use rtcp.Prelude.{
  Option, none, some, Bool, true, false, ◌==◌, if◌then◌else◌, List, [], ◌∷◌, length, ℕ,
}
use rtcp.Result.{
  Error, Result, ok, err, ◌>>=◌, ◌>>◌, err_empty_compound, err_bad_first_packet, err_missing_cname,
  err_packet_before_cname,
}
use rtcp.Bytes.{Bytes}
use rtcp.SourceDescription.Item.{SourceDescriptionItem, sdes_cname}
use rtcp.SourceDescription.Chunk.{SourceDescriptionChunk}
use rtcp.Packet
use rtcp.Packet.{Packet, sender_report, receiver_report, source_description, unmarshal_loop}

abbrev pub CompoundPacket : Type 0
CompoundPacket = List Packet

-- The first packet is a report.
unfoldable pub check_first : Packet → Result (Unit {0})
check_first (sender_report p) = ok tt
check_first (receiver_report p) = ok tt
check_first _ = err err_bad_first_packet

-- The loop over the items of a chunk.
unfoldable pub items_have_cname : Bool → List SourceDescriptionItem → Bool
items_have_cname has [] = has
items_have_cname has (it ∷ items) =
    items_have_cname (if it.type == sdes_cname then true else has) items

-- The loop over the chunks.
unfoldable pub chunks_have_cname : Bool → List SourceDescriptionChunk → Bool
unfolding items_have_cname
chunks_have_cname has [] = has
chunks_have_cname has (c ∷ chunks) = chunks_have_cname (items_have_cname has c.items) chunks

-- The loop over the packets behind the first.
unfoldable pub check_rest : List Packet → Result (Unit {0})
check_rest [] = err err_missing_cname
check_rest (receiver_report p ∷ packets) = check_rest packets
check_rest (source_description s ∷ packets) =
    if chunks_have_cname false s.chunks then ok tt else err err_missing_cname
check_rest (_ ∷ packets) = err err_packet_before_cname

-- `(c CompoundPacket) Validate`
unfoldable pub validate : CompoundPacket → Result (Unit {0})
validate [] = err err_empty_compound
validate (p ∷ packets) = check_first p >> check_rest packets

-- The first CNAME of the items, if there is one.
unfoldable pub items_cname : List SourceDescriptionItem → Option Bytes
items_cname [] = none
items_cname (it ∷ items) =
    let rest = items_cname items in if it.type == sdes_cname then some it.text else rest

-- `return it.Text` where there is one, and else what comes later.
unfoldable pub first_name : Option Bytes → Option Bytes → Option Bytes
first_name (some text) later = some text
first_name none later = later

-- The first CNAME of the chunks.
unfoldable pub chunks_cname : List SourceDescriptionChunk → Option Bytes
chunks_cname [] = none
chunks_cname (c ∷ chunks) =
    let later = chunks_cname chunks in first_name (items_cname c.items) later

-- `return it.Text, err` where there is one, and else what comes later.
unfoldable pub answer : Option Bytes → Option Error → Bytes × Option Error → Bytes × Option Error
answer (some text) e later = (text, e)
answer none e later = later

-- The loop of `CNAME`: `e` is its error variable, which comes back with the name.
unfoldable pub cname_loop : Option Error → List Packet → Bytes × Option Error
cname_loop e [] = ([], some err_missing_cname)
cname_loop e (source_description s ∷ packets) =
    let later = cname_loop e packets in answer (chunks_cname s.chunks) e later
cname_loop e (receiver_report p ∷ packets) = cname_loop e packets
cname_loop e (_ ∷ packets) = cname_loop (some err_packet_before_cname) packets

-- `(c CompoundPacket) CNAME`: the name and the error, as Go returns them.
unfoldable pub cname : CompoundPacket → Bytes × Option Error
cname [] = ([], some err_empty_compound)
cname (p ∷ packets) = cname_loop none packets

-- `(c CompoundPacket) Marshal`
unfoldable pub marshal : CompoundPacket → Result Bytes
marshal c = validate c >> Packet.marshal c

-- `(c *CompoundPacket) Unmarshal`: the same loop as that of `Unmarshal`.
unfoldable pub unmarshal : Bytes → Result CompoundPacket
unmarshal raw = do out ← unmarshal_loop (length raw) raw []; validate out; ok out

-- `(c CompoundPacket) DestinationSSRC`
unfoldable pub destination_ssrc : CompoundPacket → List ℕ
destination_ssrc [] = []
destination_ssrc (p ∷ packets) = Packet.destination_ssrc p
