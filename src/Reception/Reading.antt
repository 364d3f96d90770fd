-- ===== src/Reception/Reading.antt =====
-- `ReceptionReport.Unmarshal` on arbitrary bytes.
use rtcp.Prelude.{ℕ, ◌+◌, ◌*◌, ◌^◌, ◌≤◌, ◌<◌, arith, bit_or, length, All}
use rtcp.Prelude.Bits.{bit_or_shift}
use rtcp.Outcome.{Ends, Ends-ok, Ends-bind, too_short-Ends}
use rtcp.Bytes.{Bytes, IsByte}
use rtcp.Bytes.Outcome.{slice_from-Ends, index-Ends, uint32-Ends, uint32_at-Ends}
use rtcp.Reception.{ReceptionReport, unmarshal}
use rtcp.Reception.Blocks.{IsValid}

total_fits :
    (low middle high : ℕ)
    → IsByte low
    → IsByte middle
    → IsByte high
    → bit_or (bit_or low (middle * 2 ^ 8)) (high * 2 ^ 16) < 2 ^ 24
total_fits low middle high hl hm hh =
    rw (bit_or_shift 8 middle low hl, bit_or_shift 16 high (low + middle * 2 ^ 8) (omega arith))
      (omega arith)

-- A report that was read: 24 bytes were there.
pub record IsRead (raw : Bytes) (r : ReceptionReport) : Type 0 where
  pub valid : IsValid r
  pub long : 24 ≤ length raw

pub unmarshal-Ends :
    {panics : Type 0} (raw : Bytes) → All IsByte raw → Ends panics (IsRead raw) (unmarshal raw)
unfolding unmarshal
unmarshal-Ends raw w = Ends-bind (too_short-Ends (length raw) 24 _) λ _ long.
    Ends-bind (uint32-Ends raw w (omega (arith, long))) λ ssrc hs.
      Ends-bind (index-Ends raw 4 w (omega (arith, long))) λ fraction hf.
        Ends-bind (slice_from-Ends raw 5 w (omega (arith, long))) λ tl p.
          Ends-bind (index-Ends tl 0 p.bytes (omega (arith, p.size, long))) λ high hh.
            Ends-bind (index-Ends tl 1 p.bytes (omega (arith, p.size, long))) λ middle hm.
              Ends-bind (index-Ends tl 2 p.bytes (omega (arith, p.size, long))) λ low hl.
                Ends-bind (uint32_at-Ends raw 8 w (omega (arith, long))) λ last hn.
                  Ends-bind (uint32_at-Ends raw 12 w (omega (arith, long))) λ jitter hj.
                    Ends-bind (uint32_at-Ends raw 16 w (omega (arith, long))) λ lsr hr.
                      Ends-bind (uint32_at-Ends raw 20 w (omega (arith, long))) λ delay hd.
                        let fits = total_fits low middle high hl hm hh in
                        Ends-ok (IsRead raw) _ (record {
                          valid = record {
                            typed = record {
                              ssrc_bound = hs;
                              fraction_lost_bound = hf;
                              total_lost_bound = omega (arith, fits);
                              last_sequence_number_bound = hn;
                              jitter_bound = hj;
                              last_sender_report_bound = hr;
                              delay_bound = hd;
                            };
                            total_fits = fits;
                          };
                          long = long;
                        })
