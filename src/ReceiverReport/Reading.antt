-- ===== src/ReceiverReport/Reading.antt =====
-- `ReceiverReport.Unmarshal` on arbitrary bytes.
use rtcp.Prelude.{
  ℕ, zero, suc, ◌+◌, ◌*◌, ◌≤◌, ◌≡◌, arith, length, length-append, All, All-append, List, [], ◌∷◌,
  ◌++◌, ltb, not, ◌==◌, ◌&&◌, false, Bool-cases, inl, inr,
}
use rtcp.Result.{err_wrong_type, err_invalid_header}
use rtcp.Header.{type_receiver_report}
use rtcp.Outcome.{Ends, Ends-ok, Ends-bind, too_short-Ends, fail_if-Ends}
use rtcp.Bytes.{Bytes, IsByte, to_uint8}
use rtcp.Bytes.Outcome.{slice_from-Ends, uint32_at-Ends}
use rtcp.Header.Reading as Header
use rtcp.Reception.{ReceptionReport}
use rtcp.Reception.Blocks
use rtcp.Reception.Reading as ReceptionReading
use rtcp.ReceiverReport.{unmarshal_reports, unmarshal, zero_value}
use rtcp.ReceiverReport.RoundTrip.{IsValid}

-- The reports of the loop: valid, no more than the count, and no longer than the bytes.
record Found (count room : ℕ) (reports : List ReceptionReport) : Type 0 where
  valid : All Blocks.IsValid reports
  few : length reports ≤ count
  fits : 24 * length reports ≤ room

unmarshal_reports-Ends :
    {panics : Type 0} (fuel count room : ℕ) (rest : Bytes) (reports : List ReceptionReport)
    → All IsByte rest
    → All Blocks.IsValid reports
    → length reports ≤ count
    → count ≤ fuel + length reports
    → 24 * length reports + length rest ≤ room
    → Ends panics (Found count room) (unmarshal_reports fuel count rest reports)
unfolding unmarshal_reports
unmarshal_reports-Ends zero count room rest reports w v few enough fits =
    let done : (ltb 0 (length rest) && ltb (length reports) count) ≡ false = ground arith in
    rw done (
      Ends-ok (Found count room) reports
        (record { valid = v; few = few; fits = omega (arith, fits) }))
unmarshal_reports-Ends (suc fuel) count room rest reports w v few enough fits =
    elim (Bool-cases (ltb 0 (length rest) && ltb (length reports) count)) [
      | inr done ↦ rw done (
          Ends-ok (Found count room) reports
            (record { valid = v; few = few; fits = omega (arith, fits) }))
      | inl more ↦ rw more (
          Ends-bind (ReceptionReading.unmarshal-Ends rest w) λ rr h.
            Ends-bind (slice_from-Ends rest 24 w h.long) λ rest' p.
              let size = length-append reports (rr ∷ []) in
              unmarshal_reports-Ends fuel count room rest' (reports ++ (rr ∷ [])) p.bytes
                (All-append Blocks.IsValid reports (rr ∷ []) v (h.valid, tt))
                (ground (arith, size, more)) (omega (arith, size, enough))
                (omega (arith, size, fits, p.size, h.long)))
    ]

pub unmarshal-Ends :
    {panics : Type 0} (raw : Bytes)
    → All IsByte raw
    → Ends panics IsValid (unmarshal zero_value raw)
unfolding unmarshal
unmarshal-Ends raw w = Ends-bind (too_short-Ends (length raw) 8 _) λ _ long.
    Ends-bind (Header.unmarshal-Ends raw w) λ h hh.
      Ends-bind (fail_if-Ends (not (h.type == type_receiver_report)) err_wrong_type) λ _ _.
        Ends-bind (uint32_at-Ends raw 4 w (omega (arith, long))) λ ssrc hs.
          Ends-bind (slice_from-Ends raw 8 w (omega (arith, long))) λ rest q.
            Ends-bind
              (unmarshal_reports-Ends h.count h.count (length rest) rest [] q.bytes tt (omega arith)
                (omega arith) (omega arith))
              λ reports f.
                Ends-bind
                  (slice_from-Ends raw (8 + length reports * 24) w
                    (omega (arith, f.fits, q.size, long)))
                  λ pe _.
                    Ends-bind
                      (fail_if-Ends (not (to_uint8 (length reports) == h.count)) err_invalid_header)
                      λ _ _. Ends-ok IsValid _ (record {
                        ssrc_bound = hs;
                        few_reports = omega (arith, f.few, hh.valid.count_bound);
                        reports_valid = f.valid;
                      })
