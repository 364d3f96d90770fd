-- ===== src/TransportLayerCc/Delta.antt =====
-- `RecvDelta`: the time between two packets, in microseconds, sent in steps of 250.
use rtcp.Prelude.{
  ℕ, zero, suc, ◌-◌, ◌*◌, ◌/◌, ◌%◌, ◌^◌, Bool, false, not, ◌&&◌, ◌==◌, ltb, leb, if◌then◌else◌,
  length,
}
use rtcp.Result.{Result, ok, err, ◌>>=◌, ◌>>◌, fail_if, err_delta_exceed_limit}
use rtcp.Bytes.{Bytes, make, index, set, put, uint16, be16}
use rtcp.TransportLayerCc.Chunk.{type_packet_received_small_delta, type_packet_received_large_delta}

-- An int64. `negsuc n` is -(n + 1).
pub data ℤ : Type 0 where
  pos : ℕ → ℤ
  negsuc : ℕ → ℤ

-- -n
abbrev pub neg : ℕ → ℤ
neg zero = pos 0
neg (suc n) = negsuc n

-- Go's division rounds towards zero.
unfoldable pub quot : ℤ → ℕ → ℤ
quot (pos n) d = pos (n / d)
quot (negsuc n) d = neg (suc n / d)

-- `d >= 0 && d <= math.MaxUint8`
unfoldable pub is_small : ℤ → Bool
is_small (pos n) = leb n 255
is_small (negsuc n) = false

-- `d >= math.MinInt16 && d <= math.MaxInt16`
unfoldable pub is_large : ℤ → Bool
is_large (pos n) = leb n (2 ^ 15 - 1)
is_large (negsuc n) = ltb n (2 ^ 15)

-- The conversions to byte and to uint16 keep the low digits of the two's complement.
unfoldable pub low_digits : ℤ → ℕ → ℕ
low_digits (pos n) m = n % m
low_digits (negsuc n) m = m - 1 - n % m

abbrev pub delta_250us : ℕ
delta_250us = 250

pub record RecvDelta : Type 0 where
  pub type : ℕ
  pub delta : ℤ

-- `(r RecvDelta) Marshal`
unfoldable pub marshal : RecvDelta → Result Bytes
unfolding put quot is_small is_large low_digits
marshal r =
    let delta = quot r.delta delta_250us in
    let small = set (make 1) 0 (low_digits delta (2 ^ 8)) in
    let large = put (make 2) 0 (be16 (low_digits delta (2 ^ 16))) in
    if r.type == type_packet_received_small_delta && is_small delta
    then small
    else if r.type == type_packet_received_large_delta && is_large delta
    then large
    else err err_delta_exceed_limit

-- `(r *RecvDelta) Unmarshal`. Both fields are assigned.
unfoldable pub unmarshal : Bytes → Result RecvDelta
unfolding index uint16
unmarshal raw = do
  fail_if (not (length raw == 1) && not (length raw == 2)) err_delta_exceed_limit
  a ← index raw 0
  let small : RecvDelta = record {
    type = type_packet_received_small_delta;
    delta = pos (delta_250us * a);
  }
  let wide = uint16 raw
  let large = wide >>= λ w.
      ok (record { type = type_packet_received_large_delta; delta = pos (delta_250us * w) })
  if length raw == 1 then ok small else large
