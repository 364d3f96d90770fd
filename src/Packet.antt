-- ===== src/Packet.antt =====
-- packet.go: the packets of all types, and a datagram as a list of them.
pub mod Panics
pub mod Progress
pub mod First
pub mod Reading
pub mod Reached
pub mod Datagram
pub mod Append
pub mod Stops
pub mod Termination
pub mod Overruns
pub mod Dispatch
pub mod Asked
pub mod Writing
pub mod Refusals
pub mod Valid
pub mod Encoded
pub mod FeedbackWritten
pub mod Written
pub mod RoundTrip
pub mod Stable
use rtcp.Prelude.{
  ℕ, zero, suc, ◌+◌, ◌*◌, ◌%◌, ◌^◌, ltb, ◌==◌, if◌then◌else◌, length, List, [], ◌∷◌, ◌++◌,
}
use rtcp.Result.{
  Result, ok, err, stuck, ◌>>=◌, ◌>>◌, fail_if, err_packet_too_short, err_invalid_header,
}
use rtcp.Bytes.{Bytes, to_uint16, slice_from, slice_to}
use rtcp.Header
use rtcp.Header.{
  Header, type_sender_report, type_receiver_report, type_source_description, type_goodbye,
  type_transport_specific_feedback, type_payload_specific_feedback, format_tln, format_rrr,
  format_tcc, format_pli, format_sli, format_remb,
}
use rtcp.SenderReport
use rtcp.ReceiverReport
use rtcp.SourceDescription.Packet as SourceDescription
use rtcp.Goodbye
use rtcp.TransportLayerNack
use rtcp.RapidResynchronizationRequest
use rtcp.TransportLayerCc.Packet as TransportLayerCc
use rtcp.TransportLayerCc.Read as TransportLayerCcRead
use rtcp.PictureLossIndication
use rtcp.SliceLossIndication
use rtcp.ReceiverEstimatedMaximumBitrate
use rtcp.RawPacket

-- `Packet`: the interface, as the sum of the types that the factory makes.
pub data Packet : Type 0 where
  sender_report : SenderReport.SenderReport → Packet
  receiver_report : ReceiverReport.ReceiverReport → Packet
  source_description : SourceDescription.SourceDescription → Packet
  goodbye : Goodbye.Goodbye → Packet
  transport_layer_nack : TransportLayerNack.TransportLayerNack → Packet
  rapid_resynchronization_request :
      RapidResynchronizationRequest.RapidResynchronizationRequest → Packet
  transport_layer_cc : TransportLayerCc.TransportLayerCc → Packet
  picture_loss_indication : PictureLossIndication.PictureLossIndication → Packet
  slice_loss_indication : SliceLossIndication.SliceLossIndication → Packet
  receiver_estimated_maximum_bitrate :
      ReceiverEstimatedMaximumBitrate.ReceiverEstimatedMaximumBitrate → Packet
  raw_packet : RawPacket.RawPacket → Packet

-- `p.Marshal()` through the interface
unfoldable pub marshal_packet : Packet → Result Bytes
marshal_packet (sender_report p) = SenderReport.marshal p
marshal_packet (receiver_report p) = ReceiverReport.marshal p
marshal_packet (source_description p) = SourceDescription.marshal p
marshal_packet (goodbye p) = Goodbye.marshal p
marshal_packet (transport_layer_nack p) = TransportLayerNack.marshal p
marshal_packet (rapid_resynchronization_request p) = RapidResynchronizationRequest.marshal p
marshal_packet (transport_layer_cc p) = TransportLayerCc.marshal p
marshal_packet (picture_loss_indication p) = PictureLossIndication.marshal p
marshal_packet (slice_loss_indication p) = SliceLossIndication.marshal p
marshal_packet (receiver_estimated_maximum_bitrate p) = ReceiverEstimatedMaximumBitrate.marshal p
marshal_packet (raw_packet p) = RawPacket.marshal p

-- `p.DestinationSSRC()` through the interface
unfoldable pub destination_ssrc : Packet → List ℕ
destination_ssrc (sender_report p) = SenderReport.destination_ssrc p
destination_ssrc (receiver_report p) = ReceiverReport.destination_ssrc p
destination_ssrc (source_description p) = SourceDescription.destination_ssrc p
destination_ssrc (goodbye p) = Goodbye.destination_ssrc p
destination_ssrc (transport_layer_nack p) = TransportLayerNack.destination_ssrc p
destination_ssrc (rapid_resynchronization_request p) =
    RapidResynchronizationRequest.destination_ssrc p
destination_ssrc (transport_layer_cc p) = TransportLayerCcRead.destination_ssrc p
destination_ssrc (picture_loss_indication p) = PictureLossIndication.destination_ssrc p
destination_ssrc (slice_loss_indication p) = SliceLossIndication.destination_ssrc p
destination_ssrc (receiver_estimated_maximum_bitrate p) =
    ReceiverEstimatedMaximumBitrate.destination_ssrc p
destination_ssrc (raw_packet p) = RawPacket.destination_ssrc p

-- The type of packet that the factory makes.
pub data Kind : Type 0 where
  kind_sender_report kind_receiver_report kind_source_description kind_goodbye : Kind
  kind_nack kind_rrr kind_tcc kind_pli kind_sli kind_remb kind_raw : Kind

-- `switch h.Count` of the transport specific feedback
unfoldable pub transport_kind : ℕ → Kind
transport_kind count =
    if count == format_tln
    then kind_nack
    else if count == format_rrr
    then kind_rrr
    else if count == format_tcc
    then kind_tcc
    else kind_raw

-- `switch h.Count` of the payload specific feedback
unfoldable pub payload_kind : ℕ → Kind
payload_kind count =
    if count == format_pli
    then kind_pli
    else if count == format_sli
    then kind_sli
    else if count == format_remb
    then kind_remb
    else kind_raw

-- `switch h.Type`
unfoldable pub kind_of : Header → Kind
unfolding transport_kind payload_kind
kind_of h =
    if h.type == type_sender_report
    then kind_sender_report
    else if h.type == type_receiver_report
    then kind_receiver_report
    else if h.type == type_source_description
    then kind_source_description
    else if h.type == type_goodbye
    then kind_goodbye
    else if h.type == type_transport_specific_feedback
    then transport_kind h.count
    else if h.type == type_payload_specific_feedback
    then payload_kind h.count
    else kind_raw

-- `packet.Unmarshal(inPacket)` on a new packet; `spare` are the bytes of the datagram behind it.
unfoldable pub unmarshal_kind : Kind → Bytes → Bytes → Result Packet
unmarshal_kind kind_sender_report b spare =
    SenderReport.unmarshal SenderReport.zero_value b >>= λ p. ok (sender_report p)
unmarshal_kind kind_receiver_report b spare =
    ReceiverReport.unmarshal ReceiverReport.zero_value b >>= λ p. ok (receiver_report p)
unmarshal_kind kind_source_description b spare =
    SourceDescription.unmarshal (record { chunks = [] }) b >>= λ p. ok (source_description p)
unmarshal_kind kind_goodbye b spare =
    Goodbye.unmarshal (record { sources = []; reason = [] }) b >>= λ p. ok (goodbye p)
unmarshal_kind kind_nack b spare =
    TransportLayerNack.unmarshal (record { sender_ssrc = 0; media_ssrc = 0; nacks = [] }) b >>= λ p.
    ok (transport_layer_nack p)
unmarshal_kind kind_rrr b spare =
    RapidResynchronizationRequest.unmarshal b >>= λ p. ok (rapid_resynchronization_request p)
unmarshal_kind kind_tcc b spare =
    TransportLayerCcRead.unmarshal TransportLayerCc.zero_value b spare >>= λ p.
    ok (transport_layer_cc p)
unmarshal_kind kind_pli b spare =
    PictureLossIndication.unmarshal b >>= λ p. ok (picture_loss_indication p)
unmarshal_kind kind_sli b spare =
    SliceLossIndication.unmarshal (record { sender_ssrc = 0; media_ssrc = 0; sli = [] }) b >>= λ p.
    ok (slice_loss_indication p)
unmarshal_kind kind_remb b spare =
    ReceiverEstimatedMaximumBitrate.unmarshal b >>= λ p. ok (receiver_estimated_maximum_bitrate p)
unmarshal_kind kind_raw b spare = RawPacket.unmarshal b >>= λ p. ok (raw_packet p)

-- `int(h.Length+1) * 4`: the sum is a uint16.
abbrev pub bytes_processed : Header → ℕ
bytes_processed h = to_uint16 (h.length + 1) * 4

-- The factory's part of `unmarshal`, once the header is read. `rawData[:bytesprocessed]` keeps the
-- capacity of `rawData`, which is taken to be its length: the spare bytes are the rest of the datagram.
unfoldable pub unmarshal_as : Bytes → Header → Result (Packet × ℕ)
unmarshal_as raw h = do
  fail_if (ltb (length raw) (bytes_processed h)) err_packet_too_short
  in_packet ← slice_to raw (bytes_processed h)
  spare ← slice_from raw (bytes_processed h)
  p ← unmarshal_kind (kind_of h) in_packet spare
  ok (p, bytes_processed h)

-- `unmarshal`: the first packet of a datagram, and how many bytes it takes.
unfoldable pub unmarshal_first : Bytes → Result (Packet × ℕ)
unmarshal_first raw = do h ← Header.unmarshal raw; unmarshal_as raw h

-- The loop of `Unmarshal`, on fuel.
unfoldable pub unmarshal_loop : ℕ → Bytes → List Packet → Result (List Packet)
unmarshal_loop fuel [] packets = ok packets
unmarshal_loop zero (b ∷ raw) packets = stuck
unmarshal_loop (suc fuel) (b ∷ raw) packets = do
  (p, processed) ← unmarshal_first (b ∷ raw)
  rest ← slice_from (b ∷ raw) processed
  unmarshal_loop fuel rest (packets ++ (p ∷ []))

-- `switch len(packets)`
unfoldable pub some_packets : List Packet → Result (List Packet)
some_packets [] = err err_invalid_header
some_packets (p ∷ packets) = ok (p ∷ packets)

-- `Unmarshal`. Each round takes at least one byte, so the fuel is the length.
unfoldable pub unmarshal : Bytes → Result (List Packet)
unmarshal raw = unmarshal_loop (length raw) raw [] >>= some_packets

-- The loop of `Marshal`: `out` is what has been written.
unfoldable pub marshal_loop : Bytes → List Packet → Result Bytes
marshal_loop out [] = ok out
marshal_loop out (p ∷ packets) = do b ← marshal_packet p; marshal_loop (out ++ b) packets

-- `Marshal`
unfoldable pub marshal : List Packet → Result Bytes
unfolding marshal_loop
marshal packets = marshal_loop [] packets
