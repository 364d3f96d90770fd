-- ===== src/TransportLayerNack/Writing.antt =====
-- `TransportLayerNack.Marshal`, whatever the nack is.
use rtcp.Prelude.{ℕ, ◌+◌, ◌*◌, ◌≤◌, ◌<◌, ◌≡◌, ◌∙◌, refl, arith, length, List, [], ◌∷◌}
use rtcp.Result.{Error, err_too_many_reports}
use rtcp.Outcome.Answers.{Answers, Answers-ok, Answers-bind, Answers-weaken, too_many-Answers}
use rtcp.Bytes.{Bytes, make, be16, be32}
use rtcp.Bytes.Laws.{length-make}
use rtcp.Bytes.Written.{OfLength, put-Answers}
use rtcp.Header.Written.{with_header}
use rtcp.TransportLayerNack.{NackPair, TransportLayerNack, put_nacks, len, header, marshal}

abbrev pub Fits : TransportLayerNack → Type 0
Fits p = length p.nacks ≤ 253

abbrev pub Refused : TransportLayerNack → Error → Type 0
Refused p e = (253 < length p.nacks) × (e ≡ err_too_many_reports)

put_nacks-Answers :
    {E : Error → Type 0} (raw : Bytes) (i : ℕ) (nacks : List NackPair)
    → i + 4 * length nacks ≤ length raw
    → Answers E (OfLength (length raw)) (put_nacks raw i nacks)
unfolding put_nacks be16
put_nacks-Answers raw i [] h = Answers-ok _ raw refl
put_nacks-Answers raw i (n ∷ nacks) h =
    Answers-bind (put-Answers raw i (be16 n.packet_id) (omega (arith, h))) λ b1 s1.
      Answers-bind (put-Answers b1 (i + 2) (be16 n.lost_packets) (omega (arith, h, s1))) λ b2 s2.
        Answers-weaken (OfLength (length raw)) (λ _ t. t ∙ s2 ∙ s1) (λ _ e. e)
          (put_nacks-Answers b2 (i + 4) nacks (omega (arith, h, s1, s2)))

pub marshal-Answers :
    (p : TransportLayerNack) → Answers (Refused p) (λ b. OfLength (len p) b × Fits p) (marshal p)
unfolding marshal len header be32
marshal-Answers p =
    let n = length p.nacks in
    let zeros = length-make (8 + n * 4) in
    Answers-bind (too_many-Answers 255 (n + 2) err_too_many_reports (λ h. (omega (arith, h), refl)))
      λ _ few.
        Answers-bind (put-Answers (make (8 + n * 4)) 0 (be32 p.sender_ssrc) (omega (arith, zeros)))
          λ b1 s1.
            Answers-bind (put-Answers b1 4 (be32 p.media_ssrc) (omega (arith, zeros, s1))) λ b2 s2.
              Answers-bind (put_nacks-Answers b2 8 p.nacks (omega (arith, zeros, s1, s2))) λ b3 s3.
                Answers-weaken (λ b. OfLength (12 + n * 4) b × Fits p)
                  (λ b s. (omega (arith, s, s3, s2, s1, zeros), omega (arith, few))) (λ _ e. e)
                  (with_header (header p) b3 (record {
                    count_bound = omega arith;
                    type_bound = omega arith;
                    length_bound = omega arith;
                  }))
