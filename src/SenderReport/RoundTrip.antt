-- ===== src/SenderReport/RoundTrip.antt =====
-- The bytes of a sender report, and what is read back from them.
use rtcp.Prelude.{
  ◌+◌, ◌*◌, ◌≤◌, ◌≡◌, ◌∙◌, refl, sym, ap, arith, length, All, List, [], ◌∷◌, ◌++◌, append_assoc,
  append-nil, length-append, le→ltb_false, ==_refl, ltb, if◌then◌else◌,
}
use rtcp.Result.{ok, ◌>>=◌}
use rtcp.Bytes.{
  Bytes, IsUint32, IsUint64, make, put, to_uint8, slice_from, be32, be64, uint32_at, uint64,
}
use rtcp.Bytes.Laws.{make-add, copy_at_end, uint64-be64, uint32-be32}
use rtcp.Header
use rtcp.Header.Wire
use rtcp.Reception.{ReceptionReport}
use rtcp.Reception.Blocks
use rtcp.Reception.Blocks.{
  encode_reports, length-encode_reports, reports_len-eq, marshal_reports-append, slice_to_block,
  slice_from_block,
}
use rtcp.Reception.RoundTrip
use rtcp.SenderReport.{SenderReport, zero_value, len, header, marshal, unmarshal_reports, unmarshal}

-- A packet that is written with no loss: at most 31 reports, each of them valid.
pub record IsValid (r : SenderReport) : Type 0 where
  pub ssrc_bound : IsUint32 r.ssrc
  pub ntp_time_bound : IsUint64 r.ntp_time
  pub rtp_time_bound : IsUint32 r.rtp_time
  pub packet_count_bound : IsUint32 r.packet_count
  pub octet_count_bound : IsUint32 r.octet_count
  pub few_reports : length r.reports ≤ 31
  pub reports_valid : All Blocks.IsValid r.reports

-- The sender info: 24 bytes.
unfoldable pub info : SenderReport → Bytes
unfolding be32 be64
info r =
    be32 r.ssrc
    ++ (be64 r.ntp_time ++ (be32 r.rtp_time ++ (be32 r.packet_count ++ be32 r.octet_count)))

unfoldable pub encode : SenderReport → Bytes
encode r = Wire.encode (header r) ++ (info r ++ (encode_reports r.reports ++ r.profile_extensions))

pub header-IsValid : (r : SenderReport) → IsValid r → Header.IsValid (header r)
unfolding header
header-IsValid r v = record {
  count_bound = omega (arith, v.few_reports);
  type_bound = omega arith;
  length_bound = omega arith;
}

make_parts :
    (r : SenderReport)
    → make (len r) ≡ make 28 ++ (make (24 * length r.reports) ++ make (length r.profile_extensions))
unfolding len
make_parts r =
    let n = 24 * length r.reports in
    let k = length r.profile_extensions in
    rw (reports_len-eq, make-add (28 + n) k, make-add 28 n) (simp append_assoc)

pub marshal-encode : (r : SenderReport) → IsValid r → marshal r ≡ ok (encode r)
unfolding marshal put info encode
marshal-encode r v =
    let n = length r.reports in
    let pe = r.profile_extensions in
    let front = make 4 ++ info r in
    let reports =
      marshal_reports-append front 28 r.reports (make (length pe)) refl v.reports_valid in
    let behind : 4 + (24 + n * 24) ≡ length front + length (encode_reports r.reports) =
      omega (arith, length-encode_reports r.reports) in
    rw (make_parts r) (
      rw (reports, le→ltb_false 31 n v.few_reports)
        (rw
          (
            copy_at_end front (encode_reports r.reports) pe (4 + (24 + n * 24)) behind,
            Wire.marshal-encode (header r) (header-IsValid r v),
          )
          (ap ok (Wire.copy-encode (header r) (info r ++ (encode_reports r.reports ++ pe))))))

-- The reports are read one by one, and what follows them is left.
unmarshal_reports-encode :
    (reports acc : List ReceptionReport) (rest : Bytes)
    → All Blocks.IsValid reports
    → unmarshal_reports (length reports) (encode_reports reports ++ rest) acc
      ≡ ok (acc ++ reports, rest)
unfolding unmarshal_reports
unmarshal_reports-encode [] acc rest v = ap (λ t. ok (t, rest)) (sym (append-nil acc))
unmarshal_reports-encode (r ∷ reports) acc rest v =
    let later = encode_reports reports ++ rest in
    let block = RoundTrip.encode r in
    let long = length-append block later ∙ ap (λ k. k + length later) (RoundTrip.length-encode r) in
    let read = rw (append-nil) at (Blocks.unmarshal_block r [] v.0) in
    rw
      (
        append_assoc block (encode_reports reports) rest,
        le→ltb_false (length (block ++ later)) 24 (omega (arith, long)),
        slice_to_block r later,
        slice_from_block r later,
        read,
      )
      (unmarshal_reports-encode reports (acc ++ (r ∷ [])) rest v.1
        ∙ ap (λ t. ok (t, rest)) (append_assoc acc (r ∷ []) reports))

module _ (r : SenderReport) (v : IsValid r) (rest : Bytes) where
  abbrev after_ntp : Bytes
  after_ntp = be32 r.rtp_time ++ (be32 r.packet_count ++ (be32 r.octet_count ++ rest))

  read_ssrc : uint32_at (info r ++ rest) 0 ≡ ok r.ssrc
  unfolding uint32_at info
  read_ssrc = uint32-be32 r.ssrc (be64 r.ntp_time ++ after_ntp) v.ssrc_bound

  read_ntp_time : (slice_from (info r ++ rest) 4 >>= uint64) ≡ ok r.ntp_time
  unfolding slice_from info
  read_ntp_time = uint64-be64 r.ntp_time after_ntp v.ntp_time_bound

  read_rtp_time : uint32_at (info r ++ rest) 12 ≡ ok r.rtp_time
  unfolding uint32_at info
  read_rtp_time =
      uint32-be32 r.rtp_time (be32 r.packet_count ++ (be32 r.octet_count ++ rest)) v.rtp_time_bound

  read_packet_count : uint32_at (info r ++ rest) 16 ≡ ok r.packet_count
  unfolding uint32_at info
  read_packet_count = uint32-be32 r.packet_count (be32 r.octet_count ++ rest) v.packet_count_bound

  read_octet_count : uint32_at (info r ++ rest) 20 ≡ ok r.octet_count
  unfolding uint32_at info
  read_octet_count = uint32-be32 r.octet_count rest v.octet_count_bound

  read_rest : slice_from (info r ++ rest) 24 ≡ ok rest
  unfolding slice_from info
  read_rest = refl

  info_is_long : 24 ≤ length (info r ++ rest)
  unfolding info
  info_is_long = omega arith

if_left : (left : Bytes) → (if ltb 0 (length left) then left else []) ≡ left
if_left [] = refl
if_left (b ∷ left) = ground arith

-- A valid packet is read back from its bytes.
pub unmarshal-encode : (r : SenderReport) → IsValid r → unmarshal zero_value (encode r) ≡ ok r
unfolding unmarshal encode header
unmarshal-encode r v =
    let rest = encode_reports r.reports ++ r.profile_extensions in
    let body = info r ++ rest in
    let count : to_uint8 (length r.reports) ≡ length r.reports = omega (arith, v.few_reports) in
    let long : 28 ≤ length (encode r) =
      omega (arith, Wire.length-encode (header r) body, info_is_long r v rest) in
    rw (
      le→ltb_false (length (encode r)) 28 long,
      Wire.unmarshal-encode (header r) body (header-IsValid r v),
      Wire.slice_from-encode (header r) body,
      read_ssrc r v rest,
      read_ntp_time r v rest,
      read_rtp_time r v rest,
      read_packet_count r v rest,
      read_octet_count r v rest,
      read_rest r v rest,
      count,
      unmarshal_reports-encode r.reports [] r.profile_extensions v.reports_valid,
      count,
      ==_refl (length r.reports),
      if_left r.profile_extensions,
    )

-- A sender report whose fields fit their widths, with at most 31 valid reports, is written, and
-- read back from the written bytes into a new packet, profile extensions of any length included.
pub unmarshal-marshal_sender_report :
    (r : SenderReport) → IsValid r → (marshal r >>= unmarshal zero_value) ≡ ok r
unmarshal-marshal_sender_report r v = rw (marshal-encode r v) (unmarshal-encode r v)
