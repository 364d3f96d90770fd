-- ===== src/Header/Written.antt =====
-- A header in front of other bytes.
use rtcp.Prelude.{◌+◌, refl, length, ◌++◌}
use rtcp.Result.{Error, ok, ◌>>=◌}
use rtcp.Outcome.Answers.{Answers, Answers-ok, Answers-eq}
use rtcp.Bytes.{Bytes}
use rtcp.Bytes.Written.{OfLength}
use rtcp.Header
use rtcp.Header.Wire

-- A header of a feedback message in front of `raw`.
pub with_header :
    {E : Error → Type 0} (h : Header.Header) (raw : Bytes)
    → Header.IsValid h
    → Answers E (OfLength (4 + length raw)) (Header.marshal h >>= λ b. ok (b ++ raw))
with_header h raw v =
    Answers-eq (rw (Wire.marshal-encode h v) refl)
      (Answers-ok _ (Wire.encode h ++ raw) (Wire.length-encode h raw))
