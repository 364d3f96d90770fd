-- ===== src/SliceLossIndication/Writing.antt =====
-- `SliceLossIndication.Marshal`, whatever the entries are.
use rtcp.Prelude.{◌+◌, ◌*◌, ◌≤◌, ◌<◌, ◌≡◌, refl, arith, length, map, length-map}
use rtcp.Result.{Error, err_too_many_reports}
use rtcp.Outcome.Answers.{Answers, Answers-bind, Answers-weaken, too_many-Answers}
use rtcp.Bytes.{make, be32}
use rtcp.Bytes.Laws.{length-make}
use rtcp.Bytes.Written.{OfLength, put-Answers, put_uint32s-Answers}
use rtcp.Header.Written.{with_header}
use rtcp.SliceLossIndication.{SliceLossIndication, pack, len, header, marshal}

abbrev pub Fits : SliceLossIndication → Type 0
Fits p = length p.sli ≤ 253

abbrev pub Refused : SliceLossIndication → Error → Type 0
Refused p e = (253 < length p.sli) × (e ≡ err_too_many_reports)

pub marshal-Answers :
    (p : SliceLossIndication) → Answers (Refused p) (λ b. OfLength (len p) b × Fits p) (marshal p)
unfolding marshal len header be32
marshal-Answers p =
    let n = length p.sli in
    let zeros = length-make (8 + n * 4) in
    Answers-bind (too_many-Answers 255 (n + 2) err_too_many_reports (λ h. (omega (arith, h), refl)))
      λ _ few.
        Answers-bind (put-Answers (make (8 + n * 4)) 0 (be32 p.sender_ssrc) (omega (arith, zeros)))
          λ b1 s1.
            Answers-bind (put-Answers b1 4 (be32 p.media_ssrc) (omega (arith, zeros, s1))) λ b2 s2.
              Answers-bind
                (put_uint32s-Answers b2 8 (map pack p.sli)
                  (omega (arith, zeros, s1, s2, length-map pack p.sli)))
                λ b3 s3.
                  Answers-weaken (λ b. OfLength (12 + n * 4) b × Fits p)
                    (λ b s. (omega (arith, s, s3, s2, s1, zeros), omega (arith, few))) (λ _ e. e)
                    (with_header (header p) b3 (record {
                      count_bound = omega arith;
                      type_bound = omega arith;
                      length_bound = omega arith;
                    }))
