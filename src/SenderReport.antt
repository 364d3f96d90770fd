-- ===== src/SenderReport.antt =====
-- sender_report.go
pub mod RoundTrip
pub mod Reading
pub mod Writing
use rtcp.Prelude.{
  ℕ, zero, suc, ◌+◌, ◌-◌, ◌*◌, ◌/◌, ◌%◌, ◌^◌, ◌<◌, false, not, ltb, ◌==◌, if◌then◌else◌, length,
  map, List, [], ◌∷◌, ◌++◌,
}
use rtcp.Result.{
  Result, ok, ◌>>=◌, ◌>>◌, fail_if, err_too_many_reports, err_packet_too_short, err_wrong_type,
  err_invalid_header,
}
use rtcp.Bytes.{
  Bytes, to_uint8, to_uint16, make, slice_from, slice_to, put, copy, copy_at, uint32_at, uint64,
  be32, be64,
}
use rtcp.Header
use rtcp.Header.{Header, header_length, ssrc_length, count_max, type_sender_report}
use rtcp.Reception
use rtcp.Reception.{ReceptionReport, reception_report_length, reports_len, marshal_reports}

pub record SenderReport : Type 0 where
  pub ssrc : ℕ
  pub ntp_time : ℕ
  pub rtp_time : ℕ
  pub packet_count : ℕ
  pub octet_count : ℕ
  pub reports : List ReceptionReport
  pub profile_extensions : Bytes

-- `new(SenderReport)`
abbrev pub zero_value : SenderReport
zero_value = record {
  ssrc = 0;
  ntp_time = 0;
  rtp_time = 0;
  packet_count = 0;
  octet_count = 0;
  reports = [];
  profile_extensions = [];
}

abbrev pub sr_header_length : ℕ
sr_header_length = 24

abbrev pub sr_ssrc_offset : ℕ
sr_ssrc_offset = 0

abbrev pub sr_ntp_offset : ℕ
sr_ntp_offset = sr_ssrc_offset + ssrc_length

abbrev pub ntp_time_length : ℕ
ntp_time_length = 8

abbrev pub sr_rtp_offset : ℕ
sr_rtp_offset = sr_ntp_offset + ntp_time_length

abbrev pub rtp_time_length : ℕ
rtp_time_length = 4

abbrev pub sr_packet_count_offset : ℕ
sr_packet_count_offset = sr_rtp_offset + rtp_time_length

abbrev pub sr_packet_count_length : ℕ
sr_packet_count_length = 4

abbrev pub sr_octet_count_offset : ℕ
sr_octet_count_offset = sr_packet_count_offset + sr_packet_count_length

abbrev pub sr_octet_count_length : ℕ
sr_octet_count_length = 4

abbrev pub sr_report_offset : ℕ
sr_report_offset = sr_octet_count_offset + sr_octet_count_length

-- `(r *SenderReport) len`
unfoldable pub len : SenderReport → ℕ
len r = header_length + sr_header_length + reports_len r.reports + length r.profile_extensions

-- `(r *SenderReport) Header`
unfoldable pub header : SenderReport → Header
header r = record {
  padding = false;
  count = to_uint8 (length r.reports);
  type = type_sender_report;
  length = to_uint16 (len r / 4 - 1);
}

-- `(r SenderReport) Marshal`. `packetBody` shares the bytes behind the header.
unfoldable pub marshal : SenderReport → Result Bytes
marshal r = do
  raw ← put (make (len r)) (header_length + sr_ssrc_offset) (be32 r.ssrc)
  raw ← put raw (header_length + sr_ntp_offset) (be64 r.ntp_time)
  raw ← put raw (header_length + sr_rtp_offset) (be32 r.rtp_time)
  raw ← put raw (header_length + sr_packet_count_offset) (be32 r.packet_count)
  raw ← put raw (header_length + sr_octet_count_offset) (be32 r.octet_count)
  raw ← marshal_reports raw (header_length + sr_header_length) r.reports
  let offset = sr_header_length + length r.reports * reception_report_length
  fail_if (ltb count_max (length r.reports)) err_too_many_reports
  raw ← copy_at raw (header_length + offset) r.profile_extensions
  h_data ← Header.marshal (header r)
  ok (copy raw h_data)

-- The loop over `h.Count` reports: `rest` is `packetBody[offset:]`, and is handed back at the end.
unfoldable pub unmarshal_reports :
    ℕ → Bytes → List ReceptionReport → Result (List ReceptionReport × Bytes)
unmarshal_reports zero rest reports = ok (reports, rest)
unmarshal_reports (suc n) rest reports = do
  fail_if (ltb (length rest) reception_report_length) err_packet_too_short
  rr_body ← slice_to rest reception_report_length
  rest' ← slice_from rest reception_report_length
  rr ← Reception.unmarshal rr_body
  unmarshal_reports n rest' (reports ++ (rr ∷ []))

-- `(r *SenderReport) Unmarshal`: `r` is the packet there before, whose reports stay in front, and
-- whose extensions stay if none follow the reports.
unfoldable pub unmarshal : SenderReport → Bytes → Result SenderReport
unmarshal r raw = do
  fail_if (ltb (length raw) (header_length + sr_header_length)) err_packet_too_short
  h ← Header.unmarshal raw
  fail_if (not (h.type == type_sender_report)) err_wrong_type
  body ← slice_from raw header_length
  ssrc ← uint32_at body sr_ssrc_offset
  ntp_time ← slice_from body sr_ntp_offset >>= uint64
  rtp_time ← uint32_at body sr_rtp_offset
  packet_count ← uint32_at body sr_packet_count_offset
  octet_count ← uint32_at body sr_octet_count_offset
  rest ← slice_from body sr_report_offset
  (reports, left) ← unmarshal_reports h.count rest r.reports
  fail_if (not (to_uint8 (length reports) == h.count)) err_invalid_header
  ok (record {
    ssrc = ssrc;
    ntp_time = ntp_time;
    rtp_time = rtp_time;
    packet_count = packet_count;
    octet_count = octet_count;
    reports = reports;
    profile_extensions = if ltb 0 (length left) then left else r.profile_extensions;
  })

-- `(r *SenderReport) DestinationSSRC`
unfoldable pub destination_ssrc : SenderReport → List ℕ
destination_ssrc r = map (λ v. v.ssrc) r.reports
