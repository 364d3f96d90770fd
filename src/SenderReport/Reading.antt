-- ===== src/SenderReport/Reading.antt =====
-- `SenderReport.Unmarshal` on arbitrary bytes.
use rtcp.Prelude.{
  ℕ, zero, suc, ◌+◌, ◌≡◌, arith, length, length-append, All, All-append, List, [], ◌∷◌, ◌++◌, not,
  ◌==◌, ◌*◌, ltb, if◌then◌else◌,
}
use rtcp.Result.{err_wrong_type, err_invalid_header}
use rtcp.Header.{type_sender_report}
use rtcp.Outcome.{Ends, Ends-ok, Ends-bind, Ends-weaken, too_short-Ends, fail_if-Ends}
use rtcp.Bytes.{Bytes, IsByte, to_uint8}
use rtcp.Bytes.Outcome.{slice_from-Ends, slice_to-Ends, uint32_at-Ends, uint64-Ends}
use rtcp.Header.Reading as Header
use rtcp.Reception.{ReceptionReport}
use rtcp.Reception.Blocks
use rtcp.Reception.Reading as Reception
use rtcp.Reception.Blocks.{reports_len-eq}
use rtcp.SenderReport.{SenderReport, len, unmarshal_reports, unmarshal, zero_value}
use rtcp.SenderReport.RoundTrip.{IsValid}

-- `n` more valid reports, from the front of `rest`.
record Added (n : ℕ) (before : List ReceptionReport) (rest : Bytes) (after : List ReceptionReport)
    (left : Bytes) : Type 0 where
  valid : All Blocks.IsValid after
  count : length after ≡ length before + n
  size : length left + 24 * n ≡ length rest

unmarshal_reports-Ends :
    {panics : Type 0} (n : ℕ) (rest : Bytes) (reports : List ReceptionReport)
    → All IsByte rest
    → All Blocks.IsValid reports
    → Ends panics (λ found. Added n reports rest found.0 found.1) (unmarshal_reports n rest reports)
unfolding unmarshal_reports
unmarshal_reports-Ends zero rest reports w v =
    Ends-ok _ (reports, rest) (record { valid = v; count = omega arith; size = omega arith })
unmarshal_reports-Ends (suc n) rest reports w v =
    Ends-bind (too_short-Ends (length rest) 24 _) λ _ long.
      Ends-bind (slice_to-Ends rest 24 w long) λ body p.
        Ends-bind (slice_from-Ends rest 24 w long) λ rest' p'.
          Ends-bind (Reception.unmarshal-Ends body p.bytes) λ rr h.
            let more = reports ++ (rr ∷ []) in
            Ends-weaken (λ f. Added n more rest' f.0 f.1) (λ f. Added (suc n) reports rest f.0 f.1)
              _
              (λ f a. record {
                valid = a.valid;
                count = omega (arith, a.count, length-append reports (rr ∷ []));
                size = omega (arith, a.size, p'.size, long);
              })
              (unmarshal_reports-Ends n rest' more p'.bytes
                (All-append Blocks.IsValid reports (rr ∷ []) v (h.valid, tt)))

-- A report that was read from `raw`.
pub record Reads (raw : Bytes) (r : SenderReport) : Type 0 where
  pub valid : IsValid r
  pub size : len r ≡ length raw

pub Reads-Ends :
    {panics : Type 0} (raw : Bytes)
    → All IsByte raw
    → Ends panics (Reads raw) (unmarshal zero_value raw)
unfolding unmarshal
Reads-Ends raw w = Ends-bind (too_short-Ends (length raw) 28 _) λ _ long.
    Ends-bind (Header.unmarshal-Ends raw w) λ h hh.
      Ends-bind (fail_if-Ends (not (h.type == type_sender_report)) err_wrong_type) λ _ _.
        Ends-bind (slice_from-Ends raw 4 w (omega (arith, long))) λ body p.
          Ends-bind (uint32_at-Ends body 0 p.bytes (omega (arith, p.size, long))) λ ssrc hs.
            Ends-bind
              (Ends-bind (slice_from-Ends body 4 p.bytes (omega (arith, p.size, long)))
                λ b q. uint64-Ends b q.bytes (omega (arith, q.size, p.size, long)))
              λ ntp hn.
                Ends-bind (uint32_at-Ends body 12 p.bytes (omega (arith, p.size, long))) λ rtp hr.
                  Ends-bind (uint32_at-Ends body 16 p.bytes (omega (arith, p.size, long))) λ pc hp.
                    Ends-bind (uint32_at-Ends body 20 p.bytes (omega (arith, p.size, long)))
                      λ oc ho.
                        Ends-bind (slice_from-Ends body 24 p.bytes (omega (arith, p.size, long)))
                          λ rest q.
                            Ends-bind (unmarshal_reports-Ends h.count rest [] q.bytes tt) λ found a.
                              Ends-bind
                                (fail_if-Ends (not (to_uint8 (length found.0) == h.count))
                                  err_invalid_header)
                                λ _ _.
                                  let left = if ltb 0 (length found.1) then found.1 else [] in
                                  let size : length left ≡ length found.1 = ground arith in
                                  Ends-ok (Reads raw)
                                    (record {
                                      ssrc = ssrc;
                                      ntp_time = ntp;
                                      rtp_time = rtp;
                                      packet_count = pc;
                                      octet_count = oc;
                                      reports = found.0;
                                      profile_extensions = left;
                                    })
                                    (record {
                                      valid = record {
                                        ssrc_bound = hs;
                                        ntp_time_bound = hn;
                                        rtp_time_bound = hr;
                                        packet_count_bound = hp;
                                        octet_count_bound = ho;
                                        few_reports = omega (arith, a.count, hh.valid.count_bound);
                                        reports_valid = a.valid;
                                      };
                                      size =
                                          unfold len in
                                          omega (
                                            arith,
                                            p.size,
                                            q.size,
                                            a.size,
                                            a.count,
                                            size,
                                            long,
                                            reports_len-eq found.0,
                                          );
                                    })

pub unmarshal-Ends :
    {panics : Type 0} (raw : Bytes)
    → All IsByte raw
    → Ends panics IsValid (unmarshal zero_value raw)
unmarshal-Ends raw w =
    Ends-weaken (Reads raw) IsValid (unmarshal zero_value raw) (λ _ t. t.valid) (Reads-Ends raw w)
