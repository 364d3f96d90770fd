-- ===== src/Reception/Writing.antt =====
-- The writers of reception reports, whatever the reports are.
use rtcp.Prelude.{
  ℕ, ◌+◌, ◌*◌, ◌^◌, ◌≤◌, ◌<◌, ◌≡◌, ◌∙◌, refl, arith, length, All, Any, here, there, List, [], ◌∷◌,
}
use native.Mathlib.Decide.{dec_lt}
use rtcp.Result.{err_invalid_total_lost}
use rtcp.Outcome.Answers.{Answers, Answers-ok, Answers-bind, Answers-eq, Answers-weaken}
use rtcp.Bytes.{Bytes}
use rtcp.Bytes.Written.{OfLength, copy_at-Answers}
use rtcp.Reception.{ReceptionReport, marshal, marshal_reports}
use rtcp.Reception.RoundTrip.{encode, length-encode, marshal-encode, marshal_report_invalid}

-- A total lost of 25 bits at most, and one of more.
abbrev pub Fits : ReceptionReport → Type 0
Fits r = r.total_lost < 2 ^ 25

abbrev pub TooMuch : ReceptionReport → Type 0
TooMuch r = 2 ^ 25 ≤ r.total_lost

pub TooMuch-not-Fits : (r : ReceptionReport) → TooMuch r → ¬ Fits r
TooMuch-not-Fits r h f = omega (arith, h, f)

report-Answers :
    (r : ReceptionReport)
    → Answers
        (λ e. TooMuch r × (e ≡ err_invalid_total_lost))
        (λ b. OfLength 24 b × Fits r)
        (marshal r)
report-Answers r = elim (dec_lt r.total_lost (2 ^ 25)) [
  | yes h ↦
      Answers-eq (marshal-encode r h)
        (Answers-ok (λ b. OfLength 24 b × Fits r) (encode r) (length-encode r, h))
  | no h ↦
      let much : TooMuch r = omega (arith, h) in
      Answers-eq ((marshal_report_invalid r).1 much) (record { at = (much, refl) })
]

-- The first report whose total lost is too much is the cause of the error.
pub marshal_reports-Answers :
    (raw : Bytes) (i : ℕ) (reports : List ReceptionReport)
    → i + 24 * length reports ≤ length raw
    → Answers
        (λ e. Any TooMuch reports × (e ≡ err_invalid_total_lost))
        (λ b. OfLength (length raw) b × All Fits reports)
        (marshal_reports raw i reports)
unfolding marshal_reports
marshal_reports-Answers raw i [] h =
    Answers-ok (λ b. OfLength (length raw) b × Unit {0}) raw (refl, tt)
marshal_reports-Answers raw i (r ∷ reports) h =
    Answers-bind
      (Answers-weaken (λ b. OfLength 24 b × Fits r) (λ _ t. t) (λ e c. (here r reports c.0, c.1))
        (report-Answers r))
      λ block fits. Answers-bind (copy_at-Answers raw i block (omega (arith, h))) λ raw' size.
        Answers-weaken (λ b. OfLength (length raw) b × All Fits (r ∷ reports))
          (λ b t. (t.0 ∙ size, (fits.1, t.1))) (λ e c. (there r reports c.0, c.1))
          (marshal_reports-Answers raw' (i + 24) reports (omega (arith, h, size)))
