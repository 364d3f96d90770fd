-- ===== src/ReceiverReport.antt =====
-- receiver_report.go
pub mod RoundTrip
pub mod Reading
pub mod Writing
pub mod LengthField
use rtcp.Prelude.{
  ℕ, zero, suc, ◌+◌, ◌-◌, ◌*◌, ◌/◌, ◌%◌, ◌^◌, ◌<◌, bit_and, Bool, false, not, ◌&&◌, ltb, ◌==◌,
  if◌then◌else◌, length, map, List, [], ◌∷◌, ◌++◌,
}
use rtcp.Result.{
  Result, ok, stuck, ◌>>=◌, ◌>>◌, fail_if, err_too_many_reports, err_packet_too_short,
  err_wrong_type, err_invalid_header,
}
use rtcp.Bytes.{Bytes, to_uint8, to_uint16, make, slice_from, put, copy, copy_at, uint32_at, be32}
use rtcp.Util.{get_padding}
use rtcp.Header
use rtcp.Header.{Header, header_length, ssrc_length, count_max, type_receiver_report}
use rtcp.Reception
use rtcp.Reception.{ReceptionReport, reception_report_length, reports_len, marshal_reports}

pub record ReceiverReport : Type 0 where
  pub ssrc : ℕ
  pub reports : List ReceptionReport
  pub profile_extensions : Bytes

-- `new(ReceiverReport)`
abbrev pub zero_value : ReceiverReport
zero_value = record { ssrc = 0; reports = []; profile_extensions = [] }

abbrev pub rr_ssrc_offset : ℕ
rr_ssrc_offset = header_length

abbrev pub rr_report_offset : ℕ
rr_report_offset = rr_ssrc_offset + ssrc_length

-- `(r *ReceiverReport) len`
unfoldable pub len : ReceiverReport → ℕ
len r = header_length + ssrc_length + reports_len r.reports

-- `(r *ReceiverReport) Header`
unfoldable pub header : ReceiverReport → Header
header r = record {
  padding = false;
  count = to_uint8 (length r.reports);
  type = type_receiver_report;
  length =
      to_uint16 (to_uint16 (len r / 4 - 1) + to_uint16 (get_padding (length r.profile_extensions)));
}

-- `for (len(pe) & 0x3) != 0 { pe = append(pe, 0) }`. Three rounds are enough.
unfoldable pub pad_extensions : ℕ → Bytes → Result Bytes
pad_extensions zero pe = if bit_and (length pe) 0x3 == 0 then ok pe else stuck
pad_extensions (suc fuel) pe =
    let more = pad_extensions fuel (pe ++ (0 ∷ [])) in
    if bit_and (length pe) 0x3 == 0 then ok pe else more

-- `(r ReceiverReport) Marshal`. `packetBody` shares the bytes behind the header, until the
-- extensions are appended.
unfoldable pub marshal : ReceiverReport → Result Bytes
marshal r = do
  raw ← put (make (len r)) header_length (be32 r.ssrc)
  raw ← marshal_reports raw (header_length + ssrc_length) r.reports
  fail_if (ltb count_max (length r.reports)) err_too_many_reports
  pe ← pad_extensions 3 (copy (make (length r.profile_extensions)) r.profile_extensions)
  h_data ← Header.marshal (header r)
  ok (copy (raw ++ pe) h_data)

-- The loop over the reports: `rest` is `rawPacket[i:]`. Each round adds a report, so `count` rounds
-- are enough.
unfoldable pub unmarshal_reports :
    ℕ → ℕ → Bytes → List ReceptionReport → Result (List ReceptionReport)
unmarshal_reports zero count rest reports =
    if ltb 0 (length rest) && ltb (length reports) count then stuck else ok reports
unmarshal_reports (suc fuel) count rest reports =
    let more = Reception.unmarshal rest >>= λ rr.
    slice_from rest reception_report_length >>= λ rest'.
    unmarshal_reports fuel count rest' (reports ++ (rr ∷ [])) in
    if ltb 0 (length rest) && ltb (length reports) count then more else ok reports

-- `(r *ReceiverReport) Unmarshal`: `r` is the packet there before, whose reports stay in front.
unfoldable pub unmarshal : ReceiverReport → Bytes → Result ReceiverReport
unmarshal r raw = do
  fail_if (ltb (length raw) (header_length + ssrc_length)) err_packet_too_short
  h ← Header.unmarshal raw
  fail_if (not (h.type == type_receiver_report)) err_wrong_type
  ssrc ← uint32_at raw rr_ssrc_offset
  rest ← slice_from raw rr_report_offset
  reports ← unmarshal_reports h.count h.count rest r.reports
  pe ← slice_from raw (rr_report_offset + length reports * reception_report_length)
  fail_if (not (to_uint8 (length reports) == h.count)) err_invalid_header
  ok (record { ssrc = ssrc; reports = reports; profile_extensions = pe })

-- `(r *ReceiverReport) DestinationSSRC`
unfoldable pub destination_ssrc : ReceiverReport → List ℕ
destination_ssrc r = map (λ v. v.ssrc) r.reports
