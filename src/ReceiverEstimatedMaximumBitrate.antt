-- ===== src/ReceiverEstimatedMaximumBitrate.antt =====
-- receiver_estimated_maximum_bitrate.go: a bitrate as an 18-bit mantissa and a 6-bit exponent.
pub mod Bitrate
pub mod RoundTrip
pub mod Text
pub mod Reading
use rtcp.Prelude.{
  ℕ, zero, suc, ◌+◌, ◌-◌, ◌*◌, ◌/◌, ◌%◌, ◌^◌, ◌<◌, bit_and, bit_or, false, not, ◌||◌, ltb, leb,
  ◌==◌, if◌then◌else◌, length, map, List, [], ◌∷◌, ◌++◌,
}
use rtcp.Result.{
  Result, ok, ◌>>=◌, ◌>>◌, fail_if, wrong_marshal_size, short_buffer, buffer_too_short,
  version_must_be_two, padding_must_be_zero, wrong_feedback_message_type, wrong_payload_type,
  header_length_too_small, media_ssrc_must_be_zero, missing_remb_identifier,
  ssrc_num_and_length_do_not_match,
}
use rtcp.Bytes.{
  Bytes, to_uint8, to_uint16, make, index, set, put, uint16_at, uint32_at, uint32s_at, put_uint32s,
  be16, be32, rounds,
}
use rtcp.Header.{Header, format_remb, type_payload_specific_feedback}

pub record ReceiverEstimatedMaximumBitrate : Type 0 where
  pub sender_ssrc : ℕ
  pub bitrate : ℕ
  pub ssrcs : List ℕ

-- `(p ReceiverEstimatedMaximumBitrate) MarshalSize`
unfoldable pub marshal_size : ReceiverEstimatedMaximumBitrate → ℕ
marshal_size p = 20 + 4 * length p.ssrcs

-- `64 - bits.LeadingZeros64(v)`: the number of binary digits of `v`, for 64 digits at most.
unfoldable pub digits_of : ℕ → ℕ → ℕ
digits_of zero v = 0
digits_of (suc fuel) v = let rest = digits_of fuel (v / 2) in if v == 0 then 0 else suc rest

abbrev pub shift_of : ℕ → ℕ
shift_of bitrate = digits_of 64 bitrate

-- The exponent and the mantissa of a bitrate.
unfoldable pub exponent : ℕ → ℕ
exponent bitrate = if leb (shift_of bitrate) 18 then 0 else shift_of bitrate - 18

unfoldable pub mantissa : ℕ → ℕ
mantissa bitrate =
    if leb (shift_of bitrate) 18 then bitrate else bitrate / 2 ^ (shift_of bitrate - 18)

-- `(p ReceiverEstimatedMaximumBitrate) MarshalTo`: the count of bytes, and the buffer.
unfoldable pub marshal_to : ReceiverEstimatedMaximumBitrate → Bytes → Result (ℕ × Bytes)
marshal_to p buf = do
  fail_if (ltb (length buf) (marshal_size p)) short_buffer
  buf ← set buf 0 143
  buf ← set buf 1 206
  buf ← put buf 2 (be16 (to_uint16 (marshal_size p / 4 - 1)))
  buf ← put buf 4 (be32 p.sender_ssrc)
  buf ← put buf 8 (be32 0)
  buf ← set buf 12 b'R'
  buf ← set buf 13 b'E'
  buf ← set buf 14 b'M'
  buf ← set buf 15 b'B'
  buf ← set buf 16 (to_uint8 (length p.ssrcs))
  let exp = exponent p.bitrate
  let m = mantissa p.bitrate
  buf ← set buf 17 (to_uint8 (bit_or (exp * 2 ^ 2 % 2 ^ 64) (m / 2 ^ 16)))
  buf ← set buf 18 (to_uint8 (m / 2 ^ 8))
  buf ← set buf 19 (to_uint8 m)
  buf ← put_uint32s buf 20 p.ssrcs
  ok (20 + 4 * length p.ssrcs, buf)

-- `(p ReceiverEstimatedMaximumBitrate) Marshal`
unfoldable pub marshal : ReceiverEstimatedMaximumBitrate → Result Bytes
marshal p = do
  (n, buf) ← marshal_to p (make (marshal_size p))
  fail_if (not (n == length buf)) wrong_marshal_size
  ok buf

-- `exp > 46` gives the greatest uint64.
unfoldable pub bitrate_of : ℕ → ℕ → ℕ
bitrate_of exp m = if ltb 46 exp then 2 ^ 64 - 1 else m * 2 ^ exp % 2 ^ 64

-- `(p *ReceiverEstimatedMaximumBitrate) Unmarshal`. Every field is assigned, the SSRCs from empty.
unfoldable pub unmarshal : Bytes → Result ReceiverEstimatedMaximumBitrate
unmarshal buf = do
  fail_if (ltb (length buf) 20) buffer_too_short
  first ← index buf 0
  fail_if (not (first / 2 ^ 6 == 2)) version_must_be_two
  fail_if (not (bit_and (first / 2 ^ 5) 1 == 0)) padding_must_be_zero
  fail_if (not (bit_and first 31 == 15)) wrong_feedback_message_type
  second ← index buf 1
  fail_if (not (second == 206)) wrong_payload_type
  length_field ← uint16_at buf 2
  let size = to_uint16 (to_uint16 (length_field + 1) * 4)
  fail_if (ltb size 20) header_length_too_small
  fail_if (ltb (length buf) size) buffer_too_short
  sender_ssrc ← uint32_at buf 4
  media ← uint32_at buf 8
  fail_if (not (media == 0)) media_ssrc_must_be_zero
  r ← index buf 12
  e ← index buf 13
  m ← index buf 14
  b ← index buf 15
  fail_if (not (r == b'R') || (not (e == b'E') || (not (m == b'M') || not (b == b'B'))))
      missing_remb_identifier
  num ← index buf 16
  fail_if (not (size == 20 + 4 * num)) ssrc_num_and_length_do_not_match
  b17 ← index buf 17
  b18 ← index buf 18
  b19 ← index buf 19
  let mant = bit_or (bit_or (bit_and b17 3 * 2 ^ 16) (b18 * 2 ^ 8)) b19
  ssrcs ← uint32s_at (rounds 20 size) buf 20
  ok (record { sender_ssrc = sender_ssrc; bitrate = bitrate_of (b17 / 2 ^ 2) mant; ssrcs = ssrcs })

-- `(p *ReceiverEstimatedMaximumBitrate) Header`
unfoldable pub header : ReceiverEstimatedMaximumBitrate → Header
header p = record {
  padding = false;
  count = format_remb;
  type = type_payload_specific_feedback;
  length = to_uint16 (marshal_size p / 4 - 1);
}

-- `(p *ReceiverEstimatedMaximumBitrate) DestinationSSRC`
unfoldable pub destination_ssrc : ReceiverEstimatedMaximumBitrate → List ℕ
destination_ssrc p = p.ssrcs
