-- ===== src/Goodbye/Reading.antt =====
-- `Goodbye.Unmarshal` on arbitrary bytes.
use rtcp.Prelude.{
  ℕ, ◌+◌, ◌*◌, ◌≤◌, ◌<◌, arith, length, All, [], not, ltb, ◌==◌, Bool-cases, inl, inr,
}
use rtcp.Result.{err_wrong_type, err_packet_too_short}
use rtcp.Outcome.{Ends, Ends-ok, Ends-bind, Ends-weaken, too_short-Ends, fail_if-Ends}
use rtcp.Bytes.{Bytes, IsByte, to_uint8}
use rtcp.Bytes.Outcome.{index-Ends, slice-Ends, uint32s_at-Ends}
use rtcp.Util.{get_padding}
use rtcp.Header.Reading as Header
use rtcp.Goodbye.{unmarshal, reason_at, read_reason}
use rtcp.Goodbye.RoundTrip.{IsValid}

reason_at-Ends :
    {panics : Type 0} (raw : Bytes) (offset : ℕ)
    → All IsByte raw
    → offset < length raw
    → Ends panics (λ reason. length reason ≤ 255) (reason_at raw offset)
unfolding reason_at
reason_at-Ends raw offset w h = Ends-bind (index-Ends raw offset w h) λ n hn.
    Ends-bind (too_short-Ends (length raw) (offset + 1 + n) _) λ _ fits.
      Ends-weaken _ _ _ (λ reason p. omega (arith, p.size, hn))
        (slice-Ends raw (offset + 1) (offset + 1 + n) w (omega arith) fits)

read_reason-Ends :
    {panics : Type 0} (raw : Bytes) (offset : ℕ)
    → All IsByte raw
    → Ends panics (λ reason. length reason ≤ 255) (read_reason raw offset [])
unfolding read_reason
read_reason-Ends raw offset w = elim (Bool-cases (ltb offset (length raw))) [
  | inl more ↦ rw more (reason_at-Ends raw offset w (ground (arith, more)))
  | inr none ↦ rw none (Ends-ok (λ reason. length reason ≤ 255) [] (omega arith))
]

pub unmarshal-Ends :
    {panics : Type 0} (raw : Bytes)
    → All IsByte raw
    → Ends panics IsValid (unmarshal (record { sources = []; reason = [] }) raw)
unfolding unmarshal
unmarshal-Ends raw w = Ends-bind (Header.unmarshal-Ends raw w) λ h hh.
    Ends-bind (fail_if-Ends (not (h.type == 203)) err_wrong_type) λ _ _.
      Ends-bind (fail_if-Ends (not (get_padding (length raw) == 0)) err_packet_too_short) λ _ _.
        Ends-bind (too_short-Ends (length raw) (to_uint8 (4 + to_uint8 (h.count * 4))) _) λ _ long.
          Ends-bind (uint32s_at-Ends h.count raw 4 w (omega (arith, long, hh.valid.count_bound)))
            λ sources hs.
              Ends-bind (read_reason-Ends raw (to_uint8 (4 + to_uint8 (h.count * 4))) w)
                λ reason hr. Ends-ok IsValid _ (record {
                  few_sources = omega (arith, hs.1, hh.valid.count_bound);
                  sources_typed = hs.0;
                  short_reason = hr;
                })
