-- ===== src/RapidResynchronizationRequest.antt =====
-- rapid_resynchronization_request.go: a feedback packet of two SSRCs.
pub mod RoundTrip
pub mod Reading
use rtcp.Prelude.{ℕ, ◌+◌, ◌*◌, ◌<◌, ltb, not, ◌||◌, ◌==◌, length, List, [], ◌∷◌, false}
use rtcp.Result.{Result, ok, ◌>>=◌, ◌>>◌, fail_if, err_packet_too_short, err_wrong_type}
use rtcp.Bytes.{Bytes, IsUint32, make, put, copy, uint32_at, be32}
use rtcp.Header
use rtcp.Header.{Header, header_length, ssrc_length, format_rrr, type_transport_specific_feedback}

pub record RapidResynchronizationRequest : Type 0 where
  pub sender_ssrc : ℕ
  pub media_ssrc : ℕ

-- The fields fit their Go types.
pub record IsTyped (p : RapidResynchronizationRequest) : Type 0 where
  pub sender_bound : IsUint32 p.sender_ssrc
  pub media_bound : IsUint32 p.media_ssrc

abbrev pub rrr_length : ℕ
rrr_length = 2

abbrev pub rrr_header_length : ℕ
rrr_header_length = ssrc_length * 2

abbrev pub rrr_media_offset : ℕ
rrr_media_offset = 4

-- `(p *RapidResynchronizationRequest) len`
unfoldable pub len : RapidResynchronizationRequest → ℕ
len p = header_length + rrr_header_length

-- `(p *RapidResynchronizationRequest) Header`
unfoldable pub header : RapidResynchronizationRequest → Header
header p = record {
  padding = false;
  count = format_rrr;
  type = type_transport_specific_feedback;
  length = rrr_length;
}

-- `(p RapidResynchronizationRequest) Marshal`. `packetBody` shares the bytes behind the header.
unfoldable pub marshal : RapidResynchronizationRequest → Result Bytes
unfolding put copy len header
marshal p = do
  raw ← put (make (len p)) header_length (be32 p.sender_ssrc)
  raw ← put raw (header_length + rrr_media_offset) (be32 p.media_ssrc)
  h_data ← Header.marshal (header p)
  ok (copy raw h_data)

-- `(p *RapidResynchronizationRequest) Unmarshal`. Both fields are assigned.
unfoldable pub unmarshal : Bytes → Result RapidResynchronizationRequest
unmarshal raw = do
  fail_if (ltb (length raw) (header_length + ssrc_length * 2)) err_packet_too_short
  h ← Header.unmarshal raw
  fail_if (not (h.type == type_transport_specific_feedback) || not (h.count == format_rrr))
      err_wrong_type
  sender_ssrc ← uint32_at raw header_length
  media_ssrc ← uint32_at raw (header_length + ssrc_length)
  ok (record { sender_ssrc = sender_ssrc; media_ssrc = media_ssrc })

-- `(p *RapidResynchronizationRequest) DestinationSSRC`
unfoldable pub destination_ssrc : RapidResynchronizationRequest → List ℕ
destination_ssrc p = p.media_ssrc ∷ []
