-- ===== src/ReceiverReport/Writing.antt =====
-- `ReceiverReport.Marshal`, whatever the report is.
use rtcp.Prelude.{ℕ, ◌+◌, ◌≤◌, ◌≡◌, ◌∙◌, refl, arith, length, length-append, ◌++◌}
use rtcp.Result.{Error, ok, err_too_many_reports}
use rtcp.Outcome.Answers.{
  Answers, Answers-ok, Answers-bind, Answers-eq, Answers-weaken, too_many-Answers,
}
use rtcp.Bytes.{Bytes, make, copy, be32}
use rtcp.Bytes.Laws.{length-make}
use rtcp.Bytes.Written.{OfLength, put-Answers, length-copy}
use rtcp.Util.{get_padding}
use rtcp.Util.Laws.{get_padding_lem}
use rtcp.Header
use rtcp.Header.Wire
use rtcp.Reception.Blocks.{reports_len-eq}
use rtcp.Reception.Writing.{marshal_reports-Answers}
use rtcp.SenderReport.Writing.{Fits, Refused, bad_total, many}
use rtcp.ReceiverReport.{ReceiverReport, len, header, marshal, pad_extensions}
use rtcp.ReceiverReport.RoundTrip.{pad_extensions-get_padding}

header_bytes :
    (r : ReceiverReport)
    → length r.reports ≤ 31
    → Header.marshal (header r) ≡ ok (Wire.encode (header r))
unfolding header
header_bytes r few = Wire.marshal-encode (header r) (record {
  count_bound = omega (arith, few);
  type_bound = omega arith;
  length_bound = omega arith;
})

-- The bytes of the packet, its extensions and their padding.
abbrev pub size : ReceiverReport → ℕ
size r = len r + length r.profile_extensions + get_padding (length r.profile_extensions)

pad-Answers :
    {E : Error → Type 0} (pe : Bytes)
    → Answers E (OfLength (length pe + get_padding (length pe))) (pad_extensions 3 pe)
pad-Answers pe =
    let pad = make (get_padding (length pe)) in
    Answers-eq (pad_extensions-get_padding 3 pe (omega (arith, get_padding_lem (length pe)))) (
      Answers-ok _ (pe ++ pad)
        (omega (arith, length-append pe pad, length-make (get_padding (length pe)))))

pub marshal-Answers :
    (r : ReceiverReport)
    → Answers (Refused r.reports) (λ b. OfLength (size r) b × Fits r.reports) (marshal r)
unfolding marshal be32 len
marshal-Answers r =
    let n = length-make (len r) in
    let total = reports_len-eq r.reports in
    let pe = copy (make (length r.profile_extensions)) r.profile_extensions in
    let whole : length pe ≡ length r.profile_extensions =
      length-copy (make (length r.profile_extensions)) r.profile_extensions
      ∙ length-make (length r.profile_extensions) in
    Answers-bind (put-Answers (make (len r)) 4 (be32 r.ssrc) (omega (arith, n))) λ b1 s1.
      Answers-bind
        (Answers-weaken _ (λ _ t. t) (λ e c. bad_total c.0 c.1)
          (marshal_reports-Answers b1 8 r.reports (omega (arith, n, s1, total))))
        λ b2 t.
          Answers-bind
            (too_many-Answers 31 (length r.reports) err_too_many_reports (λ h. many t.1 h refl))
            λ _ few. Answers-bind (pad-Answers pe) λ padded s3.
              Answers-bind
                (Answers-eq (header_bytes r few)
                  (Answers-ok (λ _. Unit {0}) (Wire.encode (header r)) tt))
                λ h _.
                  let last : length padded
                      ≡ length r.profile_extensions + get_padding (length r.profile_extensions) =
                    rw whole at s3 in
                  Answers-ok (λ b. OfLength (size r) b × Fits r.reports) (copy (b2 ++ padded) h)
                    (
                      length-copy (b2 ++ padded) h
                          ∙ omega (arith, length-append b2 padded, t.0, s1, n, last),
                      (t.1, few),
                    )
