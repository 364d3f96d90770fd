-- ===== src/Packet/FeedbackWritten.antt =====
-- The feedback packets through a datagram.
use rtcp.Prelude.{
  ℕ, ◌+◌, ◌-◌, ◌*◌, ◌/◌, ◌%◌, ◌^◌, ◌≡◌, ◌∙◌, refl, sym, ap, arith, length, [], ◌++◌, append-nil,
  false,
}
use rtcp.Result.{ok}
use rtcp.Bytes.{Bytes, to_uint16, be16, be32}
use rtcp.Bytes.Laws.{length-be32}
use rtcp.Header
use rtcp.Header.{Header}
use rtcp.Header.Wire
use rtcp.TransportLayerNack
use rtcp.TransportLayerNack.RoundTrip as Nack
use rtcp.TransportLayerNack.Wire.{encode_nacks, length-encode_nacks}
use rtcp.RapidResynchronizationRequest
use rtcp.RapidResynchronizationRequest.RoundTrip as Rrr
use rtcp.PictureLossIndication
use rtcp.PictureLossIndication.RoundTrip as Pli
use rtcp.ReceiverEstimatedMaximumBitrate
use rtcp.ReceiverEstimatedMaximumBitrate.RoundTrip as Remb
use rtcp.TransportLayerCc.Packet as TransportLayerCc
use rtcp.TransportLayerCc.PacketRoundTrip as Tcc
use rtcp.TransportLayerCc.PacketBytes as TccBytes
use rtcp.Packet.{
  transport_layer_nack, rapid_resynchronization_request, picture_loss_indication,
  receiver_estimated_maximum_bitrate, transport_layer_cc, kind_tcc, kind_of, transport_kind,
  payload_kind, bytes_processed, unmarshal_kind, marshal_packet,
}
use rtcp.Packet.First.{first_of}
use rtcp.Packet.Encoded.{Written, written}

pub pli-Written :
    (p : PictureLossIndication.PictureLossIndication)
    → PictureLossIndication.IsTyped p
    → Written (picture_loss_indication p)
unfolding marshal_packet unmarshal_kind kind_of payload_kind PictureLossIndication.header Pli.encode
    be32
pli-Written p t =
    written (picture_loss_indication p) (PictureLossIndication.header p)
      (be32 p.sender_ssrc ++ be32 p.media_ssrc) (Pli.header-IsValid p) refl (Pli.marshal-encode p)
      (λ spare. rw (← append-nil (Pli.encode p), Pli.unmarshal-encode p [] t))

pub rrr-Written :
    (p : RapidResynchronizationRequest.RapidResynchronizationRequest)
    → RapidResynchronizationRequest.IsTyped p
    → Written (rapid_resynchronization_request p)
unfolding marshal_packet unmarshal_kind kind_of transport_kind RapidResynchronizationRequest.header
    Rrr.encode be32
rrr-Written p t =
    written (rapid_resynchronization_request p) (RapidResynchronizationRequest.header p)
      (be32 p.sender_ssrc ++ be32 p.media_ssrc) (Rrr.header-IsValid p) refl (Rrr.marshal-encode p)
      (λ spare. rw (← append-nil (Rrr.encode p), Rrr.unmarshal-encode p [] t))

pub nack-Written :
    (p : TransportLayerNack.TransportLayerNack) → Nack.IsValid p → Written (transport_layer_nack p)
unfolding marshal_packet unmarshal_kind kind_of transport_kind TransportLayerNack.header
    TransportLayerNack.len Nack.encode
nack-Written p v =
    let body = be32 p.sender_ssrc ++ (be32 p.media_ssrc ++ encode_nacks p.nacks) in
    let size : length body ≡ 8 + 4 * length p.nacks = omega (
      arith,
      length-encode_nacks p.nacks,
      length-be32 p.sender_ssrc (be32 p.media_ssrc ++ encode_nacks p.nacks),
      length-be32 p.media_ssrc (encode_nacks p.nacks),
    ) in
    written (transport_layer_nack p) (TransportLayerNack.header p) body
      (Nack.header-IsValid p v.few_nacks) (omega (arith, size, v.few_nacks))
      (Nack.marshal-encode p v)
      (λ spare. rw (← append-nil (Nack.encode p), Nack.unmarshal-encode p [] v))

remb_fields :
    (p : ReceiverEstimatedMaximumBitrate.ReceiverEstimatedMaximumBitrate)
    → Remb.IsValid p
    → Wire.fields 143 206
        (to_uint16 (ReceiverEstimatedMaximumBitrate.marshal_size p / 4 - 1) / 2 ^ 8 % 256)
        (to_uint16 (ReceiverEstimatedMaximumBitrate.marshal_size p / 4 - 1) % 256)
      ≡ ReceiverEstimatedMaximumBitrate.header p
unfolding ReceiverEstimatedMaximumBitrate.header
remb_fields p v =
    let n = to_uint16 (ReceiverEstimatedMaximumBitrate.marshal_size p / 4 - 1) in
    let same : n / 2 ^ 8 % 256 * 2 ^ 8 + n % 256 ≡ n = omega arith in
    ap (λ l. record { padding = false; count = 15; type = 206; length = l }) same

remb_size :
    (p : ReceiverEstimatedMaximumBitrate.ReceiverEstimatedMaximumBitrate)
    → Remb.IsValid p
    → bytes_processed (ReceiverEstimatedMaximumBitrate.header p) ≡ length (Remb.encode p)
unfolding ReceiverEstimatedMaximumBitrate.header ReceiverEstimatedMaximumBitrate.marshal_size
remb_size p v = omega (arith, Remb.length-encode p, v.few_ssrcs)

-- The message's own bytes are those of its header.
remb_header :
    (p : ReceiverEstimatedMaximumBitrate.ReceiverEstimatedMaximumBitrate) (rest : Bytes)
    → Remb.IsValid p
    → Header.unmarshal (Remb.encode p ++ rest) ≡ ok (ReceiverEstimatedMaximumBitrate.header p)
unfolding Remb.encode Remb.front ReceiverEstimatedMaximumBitrate.header
    ReceiverEstimatedMaximumBitrate.marshal_size be16
remb_header p rest v = Wire.unmarshal-fields _ _ _ _ _ ∙ ap ok (remb_fields p v)

remb_read :
    (p : ReceiverEstimatedMaximumBitrate.ReceiverEstimatedMaximumBitrate) (spare : Bytes)
    → Remb.IsValid p
    → Remb.truncated p ≡ p
    → unmarshal_kind (kind_of (ReceiverEstimatedMaximumBitrate.header p)) (Remb.encode p) spare
      ≡ ok (receiver_estimated_maximum_bitrate p)
unfolding unmarshal_kind kind_of payload_kind ReceiverEstimatedMaximumBitrate.header
remb_read p spare v exact =
    rw (Remb.unmarshal-encode p v) (ap (λ q. ok (receiver_estimated_maximum_bitrate q)) exact)

pub remb-Written :
    (p : ReceiverEstimatedMaximumBitrate.ReceiverEstimatedMaximumBitrate)
    → Remb.IsValid p
    → Remb.truncated p ≡ p
    → Written (receiver_estimated_maximum_bitrate p)
unfolding marshal_packet unmarshal_kind kind_of payload_kind
remb-Written p v exact = record {
  bytes = Remb.encode p;
  marshals = Remb.marshal-encode p;
  long = omega (arith, Remb.length-encode p);
  first = λ rest.
      first_of (ReceiverEstimatedMaximumBitrate.header p) (Remb.encode p) rest
        (remb_header p rest v) (remb_size p v) (remb_read p rest v exact);
}

tcc-kind : (h : Header) → h.type ≡ 205 → h.count ≡ 15 → kind_of h ≡ kind_tcc
unfolding kind_of transport_kind
tcc-kind h t c = ground arith

pub tcc-Written :
    (type : ℕ) (t : TransportLayerCc.TransportLayerCc)
    → TccBytes.IsValid type t
    → Written (transport_layer_cc t)
unfolding marshal_packet unmarshal_kind TccBytes.encode
tcc-Written type t v =
    let body = TccBytes.body type t in
    let size : 4 + length body ≡ TransportLayerCc.len t =
      sym (Wire.length-encode t.header body) ∙ Tcc.length-encode type t [] v in
    written (transport_layer_cc t) t.header body (TccBytes.header-IsValid type t v)
      (omega (arith, size, v.size, v.small)) (TccBytes.marshal-encode type t v)
      (λ spare. rw (tcc-kind t.header v.packet_type v.format, Tcc.unmarshal-encode type t spare v))
