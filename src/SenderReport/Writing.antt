-- ===== src/SenderReport/Writing.antt =====
-- `SenderReport.Marshal`, whatever the report is.
use rtcp.Prelude.{◌+◌, ◌*◌, ◌≤◌, ◌<◌, ◌≡◌, ◌∙◌, refl, arith, length, All, Any, Any-not-All, List}
use rtcp.Result.{Error, ok, err_invalid_total_lost, err_too_many_reports}
use rtcp.Outcome.Answers.{
  Answers, Answers-ok, Answers-bind, Answers-eq, Answers-weaken, too_many-Answers,
}
use rtcp.Bytes.{make, copy, be32, be64}
use rtcp.Bytes.Laws.{length-make}
use rtcp.Bytes.Written.{OfLength, put-Answers, copy_at-Answers, length-copy}
use rtcp.Header
use rtcp.Header.Wire
use rtcp.Reception.{ReceptionReport}
use rtcp.Reception.Blocks.{reports_len-eq}
use rtcp.Reception.Writing.{TooMuch, TooMuch-not-Fits, marshal_reports-Answers}
use rtcp.Reception.Writing as Reception
use rtcp.SenderReport.{SenderReport, len, header, marshal}

-- The reports of a sender or receiver report that can be written, and why others are refused: a
-- total lost is looked at before the count of the reports is.
abbrev pub Fits : List ReceptionReport → Type 0
Fits reports = All Reception.Fits reports × (length reports ≤ 31)

pub data Refused (reports : List ReceptionReport) (e : Error) : Type 0 where
  bad_total : Any TooMuch reports → e ≡ err_invalid_total_lost → Refused reports e
  many :
      All Reception.Fits reports
      → 31 < length reports
      → e ≡ err_too_many_reports
      → Refused reports e

pub Refused-not-Fits :
    {reports : List ReceptionReport} {e : Error} → Refused reports e → ¬ Fits reports
Refused-not-Fits (bad_total a _) f = Any-not-All TooMuch-not-Fits a f.0
Refused-not-Fits (many _ h _) f = omega (arith, h, f.1)

-- The header of few reports.
header_bytes :
    (r : SenderReport)
    → length r.reports ≤ 31
    → Header.marshal (header r) ≡ ok (Wire.encode (header r))
unfolding header
header_bytes r few = Wire.marshal-encode (header r) (record {
  count_bound = omega (arith, few);
  type_bound = omega arith;
  length_bound = omega arith;
})

pub marshal-Answers :
    (r : SenderReport)
    → Answers (Refused r.reports) (λ b. OfLength (len r) b × Fits r.reports) (marshal r)
unfolding marshal be32 be64 len
marshal-Answers r =
    let n = length-make (len r) in
    let total = reports_len-eq r.reports in
    Answers-bind (put-Answers (make (len r)) 4 (be32 r.ssrc) (omega (arith, n))) λ b1 s1.
      Answers-bind (put-Answers b1 8 (be64 r.ntp_time) (omega (arith, n, s1))) λ b2 s2.
        Answers-bind (put-Answers b2 16 (be32 r.rtp_time) (omega (arith, n, s1, s2))) λ b3 s3.
          Answers-bind (put-Answers b3 20 (be32 r.packet_count) (omega (arith, n, s1, s2, s3)))
            λ b4 s4.
              Answers-bind
                (put-Answers b4 24 (be32 r.octet_count) (omega (arith, n, s1, s2, s3, s4)))
                λ b5 s5.
                  let size : length b5 ≡ len r = s5 ∙ s4 ∙ s3 ∙ s2 ∙ s1 ∙ n in
                  Answers-bind
                    (Answers-weaken _ (λ _ t. t) (λ e c. bad_total c.0 c.1)
                      (marshal_reports-Answers b5 28 r.reports (omega (arith, size, total))))
                    λ b6 t.
                      Answers-bind
                        (too_many-Answers 31 (length r.reports) err_too_many_reports
                          (λ h. many t.1 h refl))
                        λ _ few.
                          Answers-bind
                            (copy_at-Answers b6 (4 + (24 + length r.reports * 24))
                              r.profile_extensions (omega (arith, t.0, size, total)))
                            λ b7 s7.
                              Answers-bind
                                (Answers-eq (header_bytes r few)
                                  (Answers-ok (λ _. Unit {0}) (Wire.encode (header r)) tt))
                                λ h _.
                                  Answers-ok (λ b. OfLength (len r) b × Fits r.reports) (copy b7 h)
                                    (length-copy b7 h ∙ s7 ∙ t.0 ∙ size, (t.1, few))
