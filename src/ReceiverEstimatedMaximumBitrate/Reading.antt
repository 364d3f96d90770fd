-- ===== src/ReceiverEstimatedMaximumBitrate/Reading.antt =====
-- `ReceiverEstimatedMaximumBitrate.Unmarshal` on arbitrary bytes.
use rtcp.Prelude.{
  ℕ, ◌+◌, ◌*◌, ◌^◌, ◌/◌, ◌≡◌, arith, length, All, not, ltb, ◌==◌, ◌||◌, bit_and, Bool-cases, inl,
  inr, bit_or, ◌%◌, ◌-◌, ◌<◌, ◌⊎◌,
}
use rtcp.Result.{
  version_must_be_two, padding_must_be_zero, wrong_feedback_message_type, wrong_payload_type,
  media_ssrc_must_be_zero, missing_remb_identifier, ssrc_num_and_length_do_not_match,
}
use rtcp.Outcome.{Ends, Ends-ok, Ends-bind, Ends-weaken, too_short-Ends, fail_if-Ends}
use rtcp.Bytes.{Bytes, IsByte, IsUint64, to_uint16, rounds}
use rtcp.Bytes.Outcome.{index-Ends, uint16_at-Ends, uint32_at-Ends, uint32s_at-Ends}
use rtcp.ReceiverEstimatedMaximumBitrate.{
  ReceiverEstimatedMaximumBitrate, exponent, unmarshal, bitrate_of,
}
use rtcp.ReceiverEstimatedMaximumBitrate.Bitrate.{bitrate_of_exact}
use rtcp.Prelude.Bits.{shift_bit_or, bit_and_mask}
use rtcp.ReceiverEstimatedMaximumBitrate.RoundTrip.{IsValid}

bitrate_of_bound : (exp m : ℕ) → IsUint64 (bitrate_of exp m)
unfolding bitrate_of
bitrate_of_bound exp m = elim (Bool-cases (ltb 46 exp)) [
  | inl big ↦ rw big (omega arith)
  | inr small ↦ rw small (omega arith)
]

-- The two low bits of the byte of the exponent, and the two bytes behind it.
abbrev mantissa_of : ℕ → ℕ → ℕ → ℕ
mantissa_of b17 b18 b19 = bit_or (bit_or (bit_and b17 3 * 2 ^ 16) (b18 * 2 ^ 8)) b19

mantissa_of_bound : (b17 b18 b19 : ℕ) → IsByte b18 → IsByte b19 → mantissa_of b17 b18 b19 < 2 ^ 18
mantissa_of_bound b17 b18 b19 h k =
    let join : b17 % 2 ^ 2 * 2 ^ 16 + b18 * 2 ^ 8 ≡ (b17 % 2 ^ 2 * 2 ^ 8 + b18) * 2 ^ 8 =
      omega arith in
    rw
      (
        bit_and_mask 2 b17,
        shift_bit_or 16 (b17 % 2 ^ 2) (b18 * 2 ^ 8) (omega (arith, h)),
        join,
        shift_bit_or 8 (b17 % 2 ^ 2 * 2 ^ 8 + b18) b19 (omega (arith, k)),
      )
      (omega (arith, h, k))

-- A message that was read: its bitrate is the greatest there is, or is written with no loss.
pub record Reads (p : ReceiverEstimatedMaximumBitrate) : Type 0 where
  pub valid : IsValid p
  pub exact :
      (p.bitrate ≡ 2 ^ 64 - 1)
      ⊎ (p.bitrate / 2 ^ exponent p.bitrate * 2 ^ exponent p.bitrate ≡ p.bitrate)

pub Reads-Ends :
    {panics : Type 0} (raw : Bytes) → All IsByte raw → Ends panics Reads (unmarshal raw)
unfolding unmarshal
Reads-Ends raw w = Ends-bind (too_short-Ends (length raw) 20 _) λ _ long.
    Ends-bind (index-Ends raw 0 w (omega (arith, long))) λ first _.
      Ends-bind (fail_if-Ends (not (first / 2 ^ 6 == 2)) version_must_be_two) λ _ _.
        Ends-bind (fail_if-Ends (not (bit_and (first / 2 ^ 5) 1 == 0)) padding_must_be_zero) λ _ _.
          Ends-bind (fail_if-Ends (not (bit_and first 31 == 15)) wrong_feedback_message_type) λ _ _.
            Ends-bind (index-Ends raw 1 w (omega (arith, long))) λ second _.
              Ends-bind (fail_if-Ends (not (second == 206)) wrong_payload_type) λ _ _.
                Ends-bind (uint16_at-Ends raw 2 w (omega (arith, long))) λ field _.
                  let size = to_uint16 (to_uint16 (field + 1) * 4) in
                  Ends-bind (too_short-Ends size 20 _) λ _ enough.
                    Ends-bind (too_short-Ends (length raw) size _) λ _ fits.
                      Ends-bind (uint32_at-Ends raw 4 w (omega (arith, long))) λ sender hs.
                        Ends-bind (uint32_at-Ends raw 8 w (omega (arith, long))) λ media _.
                          Ends-bind (fail_if-Ends (not (media == 0)) media_ssrc_must_be_zero) λ _ _.
                            Ends-bind (index-Ends raw 12 w (omega (arith, long))) λ r _.
                              Ends-bind (index-Ends raw 13 w (omega (arith, long))) λ e _.
                                Ends-bind (index-Ends raw 14 w (omega (arith, long))) λ m _.
                                  Ends-bind (index-Ends raw 15 w (omega (arith, long))) λ b _.
                                    Ends-bind
                                      (fail_if-Ends
                                        (not (r == b'R')
                                          || (not (e == b'E')
                                              || (not (m == b'M') || not (b == b'B'))))
                                        missing_remb_identifier)
                                      λ _ _.
                                        Ends-bind (index-Ends raw 16 w (omega (arith, long)))
                                          λ num hn.
                                            Ends-bind
                                              (fail_if-Ends (not (size == 20 + 4 * num))
                                                ssrc_num_and_length_do_not_match)
                                              λ _ same.
                                                Ends-bind
                                                  (index-Ends raw 17 w (omega (arith, long)))
                                                  λ b17 h17.
                                                    Ends-bind
                                                      (index-Ends raw 18 w (omega (arith, long)))
                                                      λ b18 h18.
                                                        Ends-bind
                                                          (index-Ends raw 19 w
                                                            (omega (arith, long)))
                                                          λ b19 h19.
                                                            let exact : size ≡ 20 + 4 * num =
                                                            ground (arith, same) in
                                                            let turns : rounds 20 size ≡ num =
                                                            omega (arith, exact) in
                                                            Ends-bind
                                                            (uint32s_at-Ends (rounds 20 size) raw 20
                                                            w (omega (arith, exact, turns, fits)))
                                                            λ ssrcs hw.
                                                            Ends-ok Reads
                                                            (record {
                                                            sender_ssrc = sender;
                                                            bitrate =
                                                            bitrate_of (b17 / 2 ^ 2)
                                                            (mantissa_of b17 b18 b19);
                                                            ssrcs = ssrcs;
                                                            })
                                                            (record {
                                                            valid = record {
                                                            sender_bound = hs;
                                                            bitrate_bound =
                                                            bitrate_of_bound (b17 / 2 ^ 2) _;
                                                            few_ssrcs =
                                                            omega (arith, hw.1, turns, hn);
                                                            ssrcs_typed = hw.0;
                                                            };
                                                            exact =
                                                            bitrate_of_exact (b17 / 2 ^ 2)
                                                            (mantissa_of b17 b18 b19)
                                                            (mantissa_of_bound b17 b18 b19 h18 h19);
                                                            })

pub unmarshal-Ends :
    {panics : Type 0} (raw : Bytes) → All IsByte raw → Ends panics IsValid (unmarshal raw)
unmarshal-Ends raw w = Ends-weaken Reads IsValid (unmarshal raw) (λ _ t. t.valid) (Reads-Ends raw w)
