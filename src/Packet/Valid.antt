-- ===== src/Packet/Valid.antt =====
-- The packets that a datagram carries with no loss, and their bytes.
use rtcp.Prelude.{ℕ, ◌+◌, ◌*◌, ◌%◌, ◌≤◌, ◌≡◌, [], length}
use rtcp.Result.{ok}
use rtcp.Bytes.{Bytes}
use rtcp.Header
use rtcp.Header.{Header}
use rtcp.SourceDescription.Packet as SourceDescription
use rtcp.SourceDescription.PacketRoundTrip as Sdes
use rtcp.SenderReport.{SenderReport}
use rtcp.ReceiverReport.{ReceiverReport}
use rtcp.SenderReport.RoundTrip as Sr
use rtcp.ReceiverReport.RoundTrip as Rr
use rtcp.Goodbye.RoundTrip as Bye
use rtcp.TransportLayerNack.RoundTrip as Nack
use rtcp.RapidResynchronizationRequest
use rtcp.PictureLossIndication
use rtcp.ReceiverEstimatedMaximumBitrate.RoundTrip as Remb
use rtcp.TransportLayerCc.PacketBytes as Tcc
use rtcp.RawPacket.{RawPacket}
use rtcp.Packet.{
  Packet, sender_report, receiver_report, source_description, goodbye, transport_layer_nack,
  rapid_resynchronization_request, picture_loss_indication, receiver_estimated_maximum_bitrate,
  raw_packet, transport_layer_cc, kind_of, kind_raw, bytes_processed,
}

-- A raw packet: its bytes have a header of no known type, which says how many they are.
pub record IsWhole (b : Bytes) : Type 0 where
  pub header : Header
  pub reads : Header.unmarshal b ≡ ok header
  pub unknown : kind_of header ≡ kind_raw
  pub size : bytes_processed header ≡ length b

-- Sender reports of at most 65535 words whose extensions are whole words, receiver reports without
-- extensions, source descriptions of at most 65535 words, bitrates that 18 bits and an exponent
-- hold exactly, and congestion control feedback of at least one chunk that announces its deltas, all of
-- one type, one by one, and counts as many packet statuses as it has chunks.
pub data IsValid : Packet → Type 0 where
  is_sender_report :
      (r : SenderReport)
      → Sr.IsValid r
      → length r.profile_extensions % 4 ≡ 0
      → 28 + 24 * length r.reports + length r.profile_extensions ≤ 65535 * 4
      → IsValid (sender_report r)
  is_receiver_report :
      (r : ReceiverReport) → Rr.IsValid r → r.profile_extensions ≡ [] → IsValid (receiver_report r)
  is_source_description :
      (s : _)
      → Sdes.IsValid s
      → SourceDescription.len s ≤ 65535 * 4
      → IsValid (source_description s)
  is_goodbye : (g : _) → Bye.IsValid g → IsValid (goodbye g)
  is_nack : (p : _) → Nack.IsValid p → IsValid (transport_layer_nack p)
  is_rrr :
      (p : _)
      → RapidResynchronizationRequest.IsTyped p
      → IsValid (rapid_resynchronization_request p)
  is_pli : (p : _) → PictureLossIndication.IsTyped p → IsValid (picture_loss_indication p)
  is_remb :
      (p : _)
      → Remb.IsValid p
      → Remb.truncated p ≡ p
      → IsValid (receiver_estimated_maximum_bitrate p)
  is_tcc : (type : ℕ) (t : _) → Tcc.IsValid type t → IsValid (transport_layer_cc t)
  is_raw : (p : RawPacket) → IsWhole p.raw → IsValid (raw_packet p)
