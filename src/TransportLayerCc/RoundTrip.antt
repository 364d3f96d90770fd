-- ===== src/TransportLayerCc/RoundTrip.antt =====
-- Deltas through their bytes.
use rtcp.Prelude.{ℕ, suc, ◌+◌, ◌-◌, ◌*◌, ◌/◌, ◌^◌, ◌≤◌, ◌<◌, ◌≡◌, arith}
use rtcp.Result.{ok, ◌>>=◌}
use rtcp.Bytes.{put, index, uint16, be16}
use rtcp.TransportLayerCc.Delta
use rtcp.TransportLayerCc.Delta.{
  RecvDelta, ℤ, pos, negsuc, neg, quot, is_small, is_large, low_digits,
}

-- A negative delta of `n + 1` steps.
steps_back : (n : ℕ) → quot (neg (250 * (n + 1))) 250 ≡ negsuc n
unfolding quot
steps_back n =
    let one : 250 * (n + 1) ≡ suc (250 * n + 249) = omega arith in
    let back : suc (250 * n + 249) / 250 ≡ suc n = omega arith in rw one (rw back)

-- A small delta of at most 255 steps of 250 microseconds is written in one byte and read back.
pub unmarshal-marshal_small_delta :
    (n : ℕ)
    → n ≤ 255
    → (Delta.marshal (record { type = 1; delta = pos (250 * n) }) >>= Delta.unmarshal)
      ≡ ok (record { type = 1; delta = pos (250 * n) })
unfolding Delta.marshal Delta.unmarshal put index uint16 quot is_small is_large low_digits
unmarshal-marshal_small_delta n h = ground arith

-- A large delta of less than 2 ^ 15 steps that is not negative is written in two bytes and read back.
pub unmarshal-marshal_large_delta :
    (n : ℕ)
    → n < 2 ^ 15
    → (Delta.marshal (record { type = 2; delta = pos (250 * n) }) >>= Delta.unmarshal)
      ≡ ok (record { type = 2; delta = pos (250 * n) })
unfolding Delta.marshal Delta.unmarshal put index uint16 quot is_small is_large low_digits be16
unmarshal-marshal_large_delta n h = ground arith

-- A negative delta of `n + 1` steps, for `n` below 2 ^ 15, is written, and read back as the positive number that its two
-- bytes are without a sign.
pub unmarshal-marshal_negative_delta :
    (n : ℕ)
    → n < 2 ^ 15
    → (Delta.marshal (record { type = 2; delta = neg (250 * (n + 1)) }) >>= Delta.unmarshal)
      ≡ ok (record { type = 2; delta = pos (250 * (2 ^ 16 - 1 - n)) })
unfolding Delta.marshal Delta.unmarshal put index uint16 is_small is_large low_digits be16
unmarshal-marshal_negative_delta n h = rw (steps_back n) (ground arith)
