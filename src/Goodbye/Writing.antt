-- ===== src/Goodbye/Writing.antt =====
-- `Goodbye.Marshal`, whatever the goodbye is.
use rtcp.Prelude.{ℕ, ◌+◌, ◌*◌, ◌≤◌, ◌<◌, ◌≡◌, ◌∙◌, refl, arith, length, [], ◌∷◌}
use rtcp.Result.{Error, ok, err_too_many_sources, err_reason_too_long}
use rtcp.Outcome.Answers.{
  Answers, Answers-ok, Answers-bind, Answers-eq, Answers-weaken, too_many-Answers,
}
use rtcp.Bytes.{Bytes, to_uint8, make, copy}
use rtcp.Bytes.Laws.{length-make}
use rtcp.Bytes.Written.{OfLength, put-Answers, put_uint32s-Answers, copy_at-Answers, length-copy}
use rtcp.Header
use rtcp.Header.Wire
use rtcp.Goodbye.{Goodbye, len, header, marshal, put_reason}

abbrev pub Fits : Goodbye → Type 0
Fits g = (length g.sources ≤ 31) × (length g.reason ≤ 255)

pub data Refused (g : Goodbye) (e : Error) : Type 0 where
  many_sources : 31 < length g.sources → e ≡ err_too_many_sources → Refused g e
  long_reason :
      length g.sources ≤ 31 → 255 < length g.reason → e ≡ err_reason_too_long → Refused g e

pub Refused-not-Fits : {g : Goodbye} {e : Error} → Refused g e → ¬ Fits g
Refused-not-Fits (many_sources h _) f = omega (arith, h, f.0)
Refused-not-Fits (long_reason _ h _) f = omega (arith, h, f.1)

put_reason-Answers :
    (raw : Bytes) (offset : ℕ) (reason : Bytes)
    → 4 + (offset + 1) + length reason ≤ length raw
    → Answers
        (λ e. (255 < length reason) × (e ≡ err_reason_too_long))
        (λ b. OfLength (length raw) b × (length reason ≤ 255))
        (put_reason raw offset reason)
unfolding put_reason
put_reason-Answers raw offset [] h =
    Answers-ok (λ b. OfLength (length raw) b × (0 ≤ 255)) raw (refl, omega arith)
put_reason-Answers raw offset (c ∷ cs) h =
    Answers-bind (too_many-Answers 255 (length (c ∷ cs)) err_reason_too_long (λ long. (long, refl)))
      λ _ short.
        Answers-bind
          (put-Answers raw (4 + offset) (to_uint8 (length (c ∷ cs)) ∷ []) (omega (arith, h)))
          λ raw' s1.
            Answers-weaken (λ b. OfLength (length raw) b × (length (c ∷ cs) ≤ 255))
              (λ b s2. (s2 ∙ s1, short)) (λ _ x. x)
              (copy_at-Answers raw' (4 + (offset + 1)) (c ∷ cs) (omega (arith, h, s1)))

header_bytes :
    (g : Goodbye) → length g.sources ≤ 31 → Header.marshal (header g) ≡ ok (Wire.encode (header g))
unfolding header
header_bytes g few = Wire.marshal-encode (header g) (record {
  count_bound = omega (arith, few);
  type_bound = omega arith;
  length_bound = omega arith;
})

pub marshal-Answers :
    (g : Goodbye) → Answers (Refused g) (λ b. OfLength (len g) b × Fits g) (marshal g)
unfolding marshal len
marshal-Answers g =
    let n = length-make (len g) in
    Answers-bind
      (too_many-Answers 31 (length g.sources) err_too_many_sources (λ h. many_sources h refl))
      λ _ few.
        Answers-bind (put_uint32s-Answers (make (len g)) 4 g.sources (omega (arith, n))) λ b1 s1.
          Answers-bind
            (Answers-weaken _ (λ _ t. t) (λ e c. long_reason few c.0 c.1)
              (put_reason-Answers b1 (length g.sources * 4) g.reason (omega (arith, n, s1))))
            λ b2 t.
              Answers-bind
                (Answers-eq (header_bytes g few)
                  (Answers-ok (λ _. Unit {0}) (Wire.encode (header g)) tt))
                λ h _.
                  Answers-ok (λ b. OfLength (len g) b × Fits g) (copy b2 h)
                    (length-copy b2 h ∙ t.0 ∙ s1 ∙ n, (few, t.1))
