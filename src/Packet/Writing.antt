-- ===== src/Packet/Writing.antt =====
-- `Marshal` of packet.go on packets that were read.
use rtcp.Prelude.{◌+◌, ◌≡◌, refl, arith, length, lt→ltb, All, List, [], ◌∷◌, ◌++◌}
use native.Mathlib.Decide.{dec_le}
use rtcp.Result.{Result, ok, err, err_too_many_reports}
use rtcp.Bytes.{Bytes, IsByte}
use rtcp.Outcome.{Ends-value}
use rtcp.SenderReport.RoundTrip as Sr
use rtcp.ReceiverReport.RoundTrip as Rr
use rtcp.SourceDescription.PacketRoundTrip as Sdes
use rtcp.Goodbye.RoundTrip as Bye
use rtcp.TransportLayerNack
use rtcp.TransportLayerNack.RoundTrip as Nack
use rtcp.TransportLayerNack.Reading as NackReading
use rtcp.RapidResynchronizationRequest.RoundTrip as Rrr
use rtcp.PictureLossIndication.RoundTrip as Pli
use rtcp.SliceLossIndication
use rtcp.SliceLossIndication.RoundTrip as Sli
use rtcp.SliceLossIndication.Reading as SliReading
use rtcp.ReceiverEstimatedMaximumBitrate.RoundTrip as Remb
use rtcp.RawPacket
use rtcp.Packet.{
  Packet, sender_report, receiver_report, source_description, goodbye, transport_layer_nack,
  rapid_resynchronization_request, transport_layer_cc, picture_loss_indication,
  slice_loss_indication, receiver_estimated_maximum_bitrate, raw_packet, marshal_packet,
  marshal_loop, marshal, unmarshal,
}
use rtcp.Packet.Reading.{Typed}
use rtcp.Packet.Reached.{AllTyped, unmarshal-Ends}

-- Congestion control feedback is left out: its writer may panic.
abbrev pub NoTcc : Packet → Type 0
NoTcc (transport_layer_cc p) = ⊥
NoTcc (sender_report p) = Unit
NoTcc (receiver_report p) = Unit
NoTcc (source_description p) = Unit
NoTcc (goodbye p) = Unit
NoTcc (transport_layer_nack p) = Unit
NoTcc (rapid_resynchronization_request p) = Unit
NoTcc (picture_loss_indication p) = Unit
NoTcc (slice_loss_indication p) = Unit
NoTcc (receiver_estimated_maximum_bitrate p) = Unit
NoTcc (raw_packet p) = Unit

-- The bytes of a packet, or the one error there is.
pub data Writable (m : Result Bytes) : Type 0 where
  bytes : (b : Bytes) → m ≡ ok b → Writable m
  too_many : m ≡ err err_too_many_reports → Writable m

nack-Writable :
    (p : TransportLayerNack.TransportLayerNack)
    → NackReading.IsTyped p
    → Writable (TransportLayerNack.marshal p)
nack-Writable p t = elim (dec_le (length p.nacks) 253) [
  | yes few ↦ bytes _ (
      Nack.marshal-encode p (record {
        sender_bound = t.sender_bound;
        media_bound = t.media_bound;
        few_nacks = few;
        nacks_typed = t.nacks_typed;
      }))
  | no many ↦ too_many (
      unfold TransportLayerNack.marshal in
      rw (lt→ltb 255 (length p.nacks + 2) (omega (arith, many))) refl)
]

sli-Writable :
    (p : SliceLossIndication.SliceLossIndication)
    → SliReading.IsTyped p
    → Writable (SliceLossIndication.marshal p)
sli-Writable p t = elim (dec_le (length p.sli) 253) [
  | yes few ↦ bytes _ (
      Sli.marshal-encode p (record {
        sender_bound = t.sender_bound;
        media_bound = t.media_bound;
        few_entries = few;
        entries_fit = t.entries_fit;
      }))
  | no many ↦ too_many (
      unfold SliceLossIndication.marshal in
      rw (lt→ltb 255 (length p.sli + 2) (omega (arith, many))) refl)
]

packet-Writable : (p : Packet) → Typed p → NoTcc p → Writable (marshal_packet p)
unfolding marshal_packet RawPacket.marshal
packet-Writable (sender_report p) t n = bytes _ (Sr.marshal-encode p t)
packet-Writable (receiver_report p) t n = bytes _ (Rr.marshal-encode p t)
packet-Writable (source_description p) t n = bytes _ (Sdes.marshal-encode p t)
packet-Writable (goodbye p) t n = bytes _ (Bye.marshal-encode p t)
packet-Writable (transport_layer_nack p) t n = nack-Writable p t
packet-Writable (rapid_resynchronization_request p) t n = bytes _ (Rrr.marshal-encode p)
packet-Writable (transport_layer_cc p) t n = absurd n
packet-Writable (picture_loss_indication p) t n = bytes _ (Pli.marshal-encode p)
packet-Writable (slice_loss_indication p) t n = sli-Writable p t
packet-Writable (receiver_estimated_maximum_bitrate p) t n = bytes _ (Remb.marshal-encode p)
packet-Writable (raw_packet p) t n = bytes p.raw refl

loop-Writable :
    (out : Bytes) (packets : List Packet)
    → All Typed packets
    → All NoTcc packets
    → Writable (marshal_loop out packets)
unfolding marshal_loop
loop-Writable out [] t n = bytes out refl
loop-Writable out (p ∷ packets) t n = elim (packet-Writable p t.0 n.0) [
  | bytes b e ↦ rw e (loop-Writable (out ++ b) packets t.1 n.1)
  | too_many e ↦ too_many (rw e refl)
]

-- The packets that `Unmarshal` read from bytes below 256, none of them congestion control feedback,
-- can be written: `Marshal` answers with bytes, or with the error of too many reports.
pub marshal-unmarshal-Writable :
    (raw : Bytes) (packets : List Packet)
    → All IsByte raw
    → unmarshal raw ≡ ok packets
    → All NoTcc packets
    → Writable (marshal packets)
unfolding marshal
marshal-unmarshal-Writable raw packets w read n =
    loop-Writable [] packets
      (Ends-value AllTyped (unmarshal raw) packets (unmarshal-Ends raw w) read).typed n
