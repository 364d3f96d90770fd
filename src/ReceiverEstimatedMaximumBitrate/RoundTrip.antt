-- ===== src/ReceiverEstimatedMaximumBitrate/RoundTrip.antt =====
-- The bytes of the packet, and what is read back from them.
use rtcp.Prelude.{
  ℕ, ◌+◌, ◌-◌, ◌*◌, ◌/◌, ◌%◌, ◌^◌, ◌≤◌, ◌<◌, ◌≡◌, ◌∙◌, refl, sym, ap, arith, bit_and, bit_or,
  length, All, [], ◌∷◌, ◌++◌, append-nil, le→ltb_false, ==_refl,
}
use rtcp.Prelude.Bits.{shift_bit_or, bit_and_mask}
use rtcp.Result.{ok, ◌>>=◌}
use rtcp.Bytes.{
  Bytes, IsUint32, IsUint64, to_uint8, to_uint16, make, put, index, uint32s_at, uint16_at,
  uint32_at, be16, be32, rounds,
}
use rtcp.Bytes.Laws.{make-add, length-make, be16_value, be32_value}
use rtcp.Bytes.WordLists.{words, length-words, put_uint32s-append, uint32s_at-append}
use rtcp.ReceiverEstimatedMaximumBitrate.{
  ReceiverEstimatedMaximumBitrate, marshal_size, exponent, mantissa, marshal_to, marshal, unmarshal,
}
use rtcp.ReceiverEstimatedMaximumBitrate.Bitrate.{
  exponent_bound, mantissa_bound, bitrate_of-mantissa, exponent_small, cut_le, cut_lt,
}

-- A packet that can be written: at most 255 SSRCs.
pub record IsValid (p : ReceiverEstimatedMaximumBitrate) : Type 0 where
  pub sender_bound : IsUint32 p.sender_ssrc
  pub bitrate_bound : IsUint64 p.bitrate
  pub few_ssrcs : length p.ssrcs ≤ 255
  pub ssrcs_typed : All IsUint32 p.ssrcs

-- The byte of the exponent and of the top of the mantissa.
abbrev exponent_byte : ℕ → ℕ
exponent_byte b = to_uint8 (bit_or (exponent b * 2 ^ 2 % 2 ^ 64) (mantissa b / 2 ^ 16))

-- The twenty bytes before the SSRCs.
unfoldable pub front : ReceiverEstimatedMaximumBitrate → Bytes
unfolding be16 be32
front p =
    143
    ∷ 206
    ∷ (be16 (to_uint16 (marshal_size p / 4 - 1))
        ++ (be32 p.sender_ssrc
            ++ (be32 0
                ++ (b'R'
                    ∷ b'E'
                    ∷ b'M'
                    ∷ b'B'
                    ∷ to_uint8 (length p.ssrcs)
                    ∷ exponent_byte p.bitrate
                    ∷ to_uint8 (mantissa p.bitrate / 2 ^ 8)
                    ∷ to_uint8 (mantissa p.bitrate)
                    ∷ []))))

unfoldable pub encode : ReceiverEstimatedMaximumBitrate → Bytes
encode p = front p ++ words p.ssrcs

pub length-encode :
    (p : ReceiverEstimatedMaximumBitrate) → length (encode p) ≡ 20 + 4 * length p.ssrcs
unfolding encode front
length-encode p = omega (arith, length-words p.ssrcs)

pub marshal_to-encode :
    (p : ReceiverEstimatedMaximumBitrate)
    → marshal_to p (make (marshal_size p)) ≡ ok (20 + 4 * length p.ssrcs, encode p)
unfolding marshal_to marshal_size put front encode
marshal_to-encode p =
    let n = 4 * length p.ssrcs in
    let split : make (20 + n) ≡ make 20 ++ (make n ++ []) =
      make-add 20 n ∙ ap (λ t. make 20 ++ t) (sym (append-nil (make n))) in
    let placed = put_uint32s-append (front p) 20 p.ssrcs (make n) [] refl (length-make n) in
    rw (le→ltb_false (length (make (20 + n))) (20 + n) (omega (arith, length-make (20 + n))), split)
      (rw (placed, append-nil (words p.ssrcs)))

pub marshal-encode : (p : ReceiverEstimatedMaximumBitrate) → marshal p ≡ ok (encode p)
unfolding marshal
marshal-encode p = rw (marshal_to-encode p, length-encode p, ==_refl (20 + 4 * length p.ssrcs))

-- The packet with the bitrate that the mantissa and the exponent can hold.
abbrev pub truncated : ReceiverEstimatedMaximumBitrate → ReceiverEstimatedMaximumBitrate
truncated p = record p { bitrate = p.bitrate / 2 ^ exponent p.bitrate * 2 ^ exponent p.bitrate }

byte_sum : (b : ℕ) → IsUint64 b → exponent_byte b ≡ exponent b * 4 + mantissa b / 2 ^ 16
byte_sum b h =
    let e = exponent_bound b in
    let m = mantissa_bound b h in
    let fits : exponent b * 2 ^ 2 % 2 ^ 64 ≡ exponent b * 2 ^ 2 = omega (arith, e) in
    rw (fits, shift_bit_or 2 (exponent b) (mantissa b / 2 ^ 16) (omega (arith, m)))
      (omega (arith, e, m))

exponent_back : (b : ℕ) → IsUint64 b → exponent_byte b / 2 ^ 2 ≡ exponent b
exponent_back b h = rw (byte_sum b h) (omega (arith, mantissa_bound b h))

mantissa_back :
    (b : ℕ)
    → IsUint64 b
    → bit_or
        (bit_or (bit_and (exponent_byte b) 3 * 2 ^ 16) (to_uint8 (mantissa b / 2 ^ 8) * 2 ^ 8))
        (to_uint8 (mantissa b))
      ≡ mantissa b
mantissa_back b h =
    let m = mantissa_bound b h in
    let middle = mantissa b / 2 ^ 8 % 2 ^ 8 in
    let top : exponent_byte b % 2 ^ 2 ≡ mantissa b / 2 ^ 16 =
      rw (byte_sum b h) (omega (arith, m)) in
    let join : mantissa b / 2 ^ 16 * 2 ^ 16 + middle * 2 ^ 8
        ≡ (mantissa b / 2 ^ 16 * 2 ^ 8 + middle) * 2 ^ 8 =
      omega arith in
    rw (bit_and_mask 2 (exponent_byte b), top)
      (rw (shift_bit_or 16 (mantissa b / 2 ^ 16) (middle * 2 ^ 8) (omega arith), join)
        (shift_bit_or 8 (mantissa b / 2 ^ 16 * 2 ^ 8 + middle) (mantissa b % 2 ^ 8) (omega arith)
          ∙ omega (arith, m)))

module _ (p : ReceiverEstimatedMaximumBitrate) where
  abbrev bytes : Bytes
  bytes = encode p

  first_bytes : (index bytes 0 ≡ ok 143) × (index bytes 1 ≡ ok 206)
  unfolding index encode front
  first_bytes = (refl, refl)

  identifier :
      (index bytes 12 ≡ ok b'R')
      × (index bytes 13 ≡ ok b'E')
      × (index bytes 14 ≡ ok b'M')
      × (index bytes 15 ≡ ok b'B')
  unfolding index encode front
  identifier = (refl, refl, refl, refl)

  last_bytes :
      (index bytes 16 ≡ ok (to_uint8 (length p.ssrcs)))
      × (index bytes 17 ≡ ok (exponent_byte p.bitrate))
      × (index bytes 18 ≡ ok (to_uint8 (mantissa p.bitrate / 2 ^ 8)))
      × (index bytes 19 ≡ ok (to_uint8 (mantissa p.bitrate)))
  unfolding index encode front
  last_bytes = (refl, refl, refl, refl)

  length_word : length p.ssrcs ≤ 255 → uint16_at bytes 2 ≡ ok (4 + length p.ssrcs)
  unfolding uint16_at encode front marshal_size
  length_word few =
      let field = to_uint16 ((20 + 4 * length p.ssrcs) / 4 - 1) in
      ap ok (be16_value field (omega arith) ∙ omega (arith, few))

  sender_word : IsUint32 p.sender_ssrc → uint32_at bytes 4 ≡ ok p.sender_ssrc
  unfolding uint32_at encode front
  sender_word b = ap ok (be32_value p.sender_ssrc b)

  media_word : uint32_at bytes 8 ≡ ok 0
  unfolding uint32_at encode front
  media_word = refl

  ssrc_words : All IsUint32 p.ssrcs → uint32s_at (length p.ssrcs) bytes 20 ≡ ok p.ssrcs
  unfolding encode front
  ssrc_words t = rw (append-nil (words p.ssrcs)) at tail
    where
      tail : uint32s_at (length p.ssrcs) (front p ++ (words p.ssrcs ++ [])) 20 ≡ ok p.ssrcs
      tail = uint32s_at-append (front p) 20 p.ssrcs [] refl t

-- A valid packet is read back from its bytes, with its bitrate truncated.
pub unmarshal-encode :
    (p : ReceiverEstimatedMaximumBitrate) → IsValid p → unmarshal (encode p) ≡ ok (truncated p)
unfolding unmarshal
unmarshal-encode p v =
    let n = length p.ssrcs in
    let size : to_uint16 (to_uint16 (4 + n + 1) * 4) ≡ 20 + 4 * n = omega (arith, v.few_ssrcs) in
    let turns : rounds 20 (20 + 4 * n) ≡ n = omega arith in
    let count : to_uint8 n ≡ n = omega (arith, v.few_ssrcs) in
    let (i0, i1) = first_bytes p in
    let (i12, i13, i14, i15) = identifier p in
    let (i16, i17, i18, i19) = last_bytes p in
    rw (le→ltb_false (length (encode p)) 20 (omega (arith, length-encode p)), i0, i1)
      (rw
        (
          length_word p v.few_ssrcs,
          size,
          le→ltb_false (20 + 4 * n) 20 (omega arith),
          le→ltb_false (length (encode p)) (20 + 4 * n) (omega (arith, length-encode p)),
          sender_word p v.sender_bound,
          media_word p,
        )
        (rw
          (
            i12,
            i13,
            i14,
            i15,
            i16,
            count,
            ==_refl (20 + 4 * n),
            i17,
            i18,
            i19,
            turns,
            ssrc_words p v.ssrcs_typed,
          )
          (rw (
            exponent_back p.bitrate v.bitrate_bound,
            mantissa_back p.bitrate v.bitrate_bound,
            bitrate_of-mantissa p.bitrate v.bitrate_bound,
          ))))

-- A bitrate message with fields that fit their widths and at most 255 SSRCs is written, and reading
-- the written bytes gives the same SSRCs and a bitrate that is at most the one written, less than
-- it by under 2 ^ (exponent), and equal to it where it has no more than 18 bits.
pub unmarshal-marshal_remb :
    (p : ReceiverEstimatedMaximumBitrate)
    → IsValid p
    → (q : ReceiverEstimatedMaximumBitrate) × ((marshal p >>= unmarshal) ≡ ok q)
      × (q.sender_ssrc ≡ p.sender_ssrc)
      × (q.ssrcs ≡ p.ssrcs)
      × (q.bitrate ≤ p.bitrate)
      × (p.bitrate < q.bitrate + 2 ^ exponent p.bitrate)
      × (p.bitrate < 2 ^ 18 → q.bitrate ≡ p.bitrate)
unmarshal-marshal_remb p v = (
  truncated p,
  rw (marshal-encode p) (unmarshal-encode p v),
  refl,
  refl,
  cut_le p.bitrate (exponent p.bitrate),
  cut_lt p.bitrate (exponent p.bitrate),
  λ h. rw (exponent_small p.bitrate h) (omega arith),
)
