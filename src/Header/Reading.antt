-- ===== src/Header/Reading.antt =====
-- `Header.Unmarshal` on arbitrary bytes.
use rtcp.Prelude.{◌≤◌, arith, length, ◌∷◌, All, ◌==◌, ◌/◌, ◌%◌}
use rtcp.Result.{err_bad_version}
use rtcp.Outcome.{Ends, Ends-ok, Ends-err, Ends-if}
use rtcp.Bytes.{Bytes, IsByte}
use rtcp.Header.{Header, IsValid, unmarshal}
use rtcp.Header.Wire.{fields, unmarshal-fields}

-- A header that was read: valid, from four bytes at least.
pub record IsRead (raw : Bytes) (h : Header) : Type 0 where
  pub valid : IsValid h
  pub long : 4 ≤ length raw

pub unmarshal-Ends :
    {panics : Type 0} (raw : Bytes) → All IsByte raw → Ends panics (IsRead raw) (unmarshal raw)
unfolding unmarshal
unmarshal-Ends (a ∷ b ∷ c ∷ d ∷ rest) (wa, (wb, (wc, (wd, _)))) =
    rw (unmarshal-fields a b c d rest) (
      Ends-if (IsRead (a ∷ b ∷ c ∷ d ∷ rest)) (a / 64 % 4 == 2) _ _
        (Ends-ok (IsRead (a ∷ b ∷ c ∷ d ∷ rest)) (fields a b c d)
          (record { valid = omega arith; long = omega arith }))
        (Ends-err _ err_bad_version))
unmarshal-Ends _ w = Ends-err _ _
