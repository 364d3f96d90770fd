-- ===== src/RapidResynchronizationRequest/Reading.antt =====
-- `RapidResynchronizationRequest.Unmarshal` on arbitrary bytes.
use rtcp.Prelude.{arith, length, All, not, ◌||◌, ◌==◌}
use rtcp.Result.{err_wrong_type}
use rtcp.Outcome.{Ends, Ends-ok, Ends-bind, too_short-Ends, fail_if-Ends}
use rtcp.Bytes.{Bytes, IsByte}
use rtcp.Bytes.Outcome.{uint32_at-Ends}
use rtcp.Header.Reading as Header
use rtcp.RapidResynchronizationRequest.{IsTyped, unmarshal}

pub unmarshal-Ends :
    {panics : Type 0} (raw : Bytes) → All IsByte raw → Ends panics IsTyped (unmarshal raw)
unfolding unmarshal
unmarshal-Ends raw w = Ends-bind (too_short-Ends (length raw) 12 _) λ _ long.
    Ends-bind (Header.unmarshal-Ends raw w) λ h _.
      Ends-bind (fail_if-Ends (not (h.type == 205) || not (h.count == 5)) err_wrong_type) λ _ _.
        Ends-bind (uint32_at-Ends raw 4 w (omega (arith, long))) λ sender hs.
          Ends-bind (uint32_at-Ends raw 8 w (omega (arith, long)))
            λ media hm. Ends-ok IsTyped _ (record { sender_bound = hs; media_bound = hm })
