-- ===== src/PictureLossIndication.antt =====
-- picture_loss_indication.go: a feedback packet of two SSRCs.
pub mod RoundTrip
pub mod Reading
use rtcp.Prelude.{ℕ, ◌+◌, ◌*◌, ◌<◌, ltb, not, ◌||◌, ◌==◌, length, List, [], ◌∷◌, false}
use rtcp.Result.{Result, ok, ◌>>=◌, ◌>>◌, fail_if, err_packet_too_short, err_wrong_type}
use rtcp.Bytes.{Bytes, IsUint32, make, put, copy, uint32_at, be32}
use rtcp.Header
use rtcp.Header.{Header, header_length, ssrc_length, format_pli, type_payload_specific_feedback}

pub record PictureLossIndication : Type 0 where
  pub sender_ssrc : ℕ
  pub media_ssrc : ℕ

-- The fields fit their Go types.
pub record IsTyped (p : PictureLossIndication) : Type 0 where
  pub sender_bound : IsUint32 p.sender_ssrc
  pub media_bound : IsUint32 p.media_ssrc

abbrev pub pli_length : ℕ
pli_length = 2

-- `(p *PictureLossIndication) len`
unfoldable pub len : PictureLossIndication → ℕ
len p = header_length + ssrc_length * 2

-- `(p *PictureLossIndication) Header`
unfoldable pub header : PictureLossIndication → Header
header p = record {
  padding = false;
  count = format_pli;
  type = type_payload_specific_feedback;
  length = pli_length;
}

-- `(p PictureLossIndication) Marshal`. `packetBody` shares the bytes behind the header.
unfoldable pub marshal : PictureLossIndication → Result Bytes
unfolding put copy len header
marshal p = do
  raw ← put (make (len p)) header_length (be32 p.sender_ssrc)
  raw ← put raw (header_length + 4) (be32 p.media_ssrc)
  h_data ← Header.marshal (header p)
  ok (copy raw h_data)

-- `(p *PictureLossIndication) Unmarshal`. Both fields are assigned.
unfoldable pub unmarshal : Bytes → Result PictureLossIndication
unmarshal raw = do
  fail_if (ltb (length raw) (header_length + ssrc_length * 2)) err_packet_too_short
  h ← Header.unmarshal raw
  fail_if (not (h.type == type_payload_specific_feedback) || not (h.count == format_pli))
      err_wrong_type
  sender_ssrc ← uint32_at raw header_length
  media_ssrc ← uint32_at raw (header_length + ssrc_length)
  ok (record { sender_ssrc = sender_ssrc; media_ssrc = media_ssrc })

-- `(p *PictureLossIndication) DestinationSSRC`
unfoldable pub destination_ssrc : PictureLossIndication → List ℕ
destination_ssrc p = p.media_ssrc ∷ []
