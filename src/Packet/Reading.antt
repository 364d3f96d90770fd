-- ===== src/Packet/Reading.antt =====
-- The readers of all packet types on arbitrary bytes.
use rtcp.Prelude.{◌≤◌, ◌<◌, ◌≡◌, length, All}
use rtcp.Result.{Result, ok, ◌>>=◌}
use rtcp.Outcome.{Ends, Ends-ok, Ends-bind, Ends-bind_eq, too_short-Ends}
use rtcp.Bytes.{Bytes, IsByte}
use rtcp.Header
use rtcp.Header.{Header}
use rtcp.Header.Reading as HeaderReading
use rtcp.SenderReport.RoundTrip as Sr
use rtcp.SenderReport.Reading as SrReading
use rtcp.ReceiverReport.RoundTrip as Rr
use rtcp.ReceiverReport.Reading as RrReading
use rtcp.SourceDescription.PacketRoundTrip as Sdes
use rtcp.SourceDescription.Reading as SdesReading
use rtcp.Goodbye.RoundTrip as Bye
use rtcp.Goodbye.Reading as ByeReading
use rtcp.TransportLayerNack.Reading as Nack
use rtcp.RapidResynchronizationRequest as Rrr
use rtcp.RapidResynchronizationRequest.Reading as RrrReading
use rtcp.TransportLayerCc.Reading as Tcc
use rtcp.PictureLossIndication as Pli
use rtcp.PictureLossIndication.Reading as PliReading
use rtcp.SliceLossIndication.Reading as Sli
use rtcp.ReceiverEstimatedMaximumBitrate.RoundTrip as Remb
use rtcp.ReceiverEstimatedMaximumBitrate.Reading as RembReading
use rtcp.RawPacket
use rtcp.Packet.{
  Packet, sender_report, receiver_report, source_description, goodbye, transport_layer_nack,
  rapid_resynchronization_request, transport_layer_cc, picture_loss_indication,
  slice_loss_indication, receiver_estimated_maximum_bitrate, raw_packet, Kind, kind_sender_report,
  kind_receiver_report, kind_source_description, kind_goodbye, kind_nack, kind_rrr, kind_tcc,
  kind_pli, kind_sli, kind_remb, kind_raw, unmarshal_kind,
}

-- The packets whose fields fit their Go types and the counts of their headers.
abbrev pub Typed : Packet → Type 0
Typed (sender_report p) = Sr.IsValid p
Typed (receiver_report p) = Rr.IsValid p
Typed (source_description p) = Sdes.IsValid p
Typed (goodbye p) = Bye.IsValid p
Typed (transport_layer_nack p) = Nack.IsTyped p
Typed (rapid_resynchronization_request p) = Rrr.IsTyped p
Typed (transport_layer_cc p) = Tcc.IsRead p
Typed (picture_loss_indication p) = Pli.IsTyped p
Typed (slice_loss_indication p) = Sli.IsTyped p
Typed (receiver_estimated_maximum_bitrate p) = Remb.IsValid p
Typed (raw_packet p) = (h : Header) × (Header.unmarshal p.raw ≡ ok h) × (4 ≤ length p.raw)

raw-Ends :
    {panics : Type 0} (b : Bytes)
    → All IsByte b
    → Ends panics (λ p. Typed (raw_packet p)) (RawPacket.unmarshal b)
unfolding RawPacket.unmarshal
raw-Ends b w = Ends-bind (too_short-Ends (length b) 4 _) λ _ long.
    Ends-bind_eq (HeaderReading.unmarshal-Ends b w)
      λ h read _. Ends-ok (λ p. Typed (raw_packet p)) (record { raw = b }) (h, read, long)

-- Where the reader of a packet may panic: a nack of eight to eleven bytes, a slice loss indication of
-- so many bytes with a header of the type that its reader wants, and congestion control feedback with less than two bytes behind it.
abbrev pub MayPanic : Kind → Bytes → Bytes → Type 0
MayPanic kind_nack b spare = (8 ≤ length b) × (length b < 12)
MayPanic kind_sli b spare = Sli.IsShort b
MayPanic kind_tcc b spare = length spare < 2
MayPanic kind_sender_report b spare = ⊥
MayPanic kind_receiver_report b spare = ⊥
MayPanic kind_source_description b spare = ⊥
MayPanic kind_goodbye b spare = ⊥
MayPanic kind_rrr b spare = ⊥
MayPanic kind_pli b spare = ⊥
MayPanic kind_remb b spare = ⊥
MayPanic kind_raw b spare = ⊥

packed :
    {A : Type 0} {panics : Type 0} {P : A → Type 0} {m : Result A} (c : A → Packet)
    → ((a : A) → P a → Typed (c a))
    → Ends panics P m
    → Ends panics Typed (m >>= λ a. ok (c a))
packed c f d = Ends-bind d (λ a p. Ends-ok Typed (c a) (f a p))

-- The reader of every type, on any packet and any bytes behind it, all below 256, ends with an error
-- or with a packet whose fields fit. It may panic only on a nack of eight to eleven bytes, on a slice
-- loss indication of as many whose header says transport specific feedback, and on congestion control
-- feedback with less than two bytes behind it.
pub unmarshal_kind-Ends :
    (k : Kind) (b spare : Bytes)
    → All IsByte b
    → All IsByte spare
    → Ends (MayPanic k b spare) Typed (unmarshal_kind k b spare)
unfolding unmarshal_kind
unmarshal_kind-Ends kind_sender_report b spare w ws =
    packed sender_report (λ _ h. h) (SrReading.unmarshal-Ends b w)
unmarshal_kind-Ends kind_receiver_report b spare w ws =
    packed receiver_report (λ _ h. h) (RrReading.unmarshal-Ends b w)
unmarshal_kind-Ends kind_source_description b spare w ws =
    packed source_description (λ _ h. h) (SdesReading.unmarshal-Ends b w)
unmarshal_kind-Ends kind_goodbye b spare w ws =
    packed goodbye (λ _ h. h) (ByeReading.unmarshal-Ends b w)
unmarshal_kind-Ends kind_nack b spare w ws =
    packed transport_layer_nack (λ _ h. h) (Nack.unmarshal-Ends b w)
unmarshal_kind-Ends kind_rrr b spare w ws =
    packed rapid_resynchronization_request (λ _ h. h) (RrrReading.unmarshal-Ends b w)
unmarshal_kind-Ends kind_tcc b spare w ws =
    packed transport_layer_cc (λ _ h. h) (Tcc.unmarshal_tcc-Ends b spare w ws)
unmarshal_kind-Ends kind_pli b spare w ws =
    packed picture_loss_indication (λ _ h. h) (PliReading.unmarshal-Ends b w)
unmarshal_kind-Ends kind_sli b spare w ws =
    packed slice_loss_indication (λ _ h. h.typed) (Sli.unmarshal-Ends b w)
unmarshal_kind-Ends kind_remb b spare w ws =
    packed receiver_estimated_maximum_bitrate (λ _ h. h) (RembReading.unmarshal-Ends b w)
unmarshal_kind-Ends kind_raw b spare w ws = packed raw_packet (λ _ h. h) (raw-Ends b w)
