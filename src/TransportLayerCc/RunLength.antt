-- ===== src/TransportLayerCc/RunLength.antt =====
-- The run length chunks through their two bytes.
use rtcp.Prelude.{ℕ, ◌+◌, ◌*◌, ◌/◌, ◌%◌, ◌^◌, ◌<◌, ◌≡◌, ◌∙◌, refl, sym, ap, arith, [], ◌∷◌}
use rtcp.Result.{ok, ◌>>=◌}
use rtcp.Bytes.{put, index, be16, to_uint16}
use rtcp.Util.{append_nbits_to_uint16, get_nbits_from_byte}
use rtcp.Util.Fields.{append_nbits_to_uint16_lem, get_nbits_from_byte_lem}
use rtcp.TransportLayerCc.Chunk.{RunLengthChunk, marshal_run_length, unmarshal_run_length}

-- A run: a symbol of two bits, and a length of thirteen.
pub record FitsRun (r : RunLengthChunk) : Type 0 where
  pub type_zero : r.type ≡ 0
  pub symbol_bound : r.packet_status_symbol < 2 ^ 2
  pub run_bound : r.run_length < 2 ^ 13

run_word :
    (s n : ℕ)
    → s < 2 ^ 2
    → n < 2 ^ 13
    → append_nbits_to_uint16 (append_nbits_to_uint16 (append_nbits_to_uint16 0 1 0) 2 s) 13 n
      ≡ s * 2 ^ 13 + n
run_word s n hs hn =
    rw
      (
        append_nbits_to_uint16_lem 0 1 0 (omega arith),
        append_nbits_to_uint16_lem 0 2 s (omega arith),
        append_nbits_to_uint16_lem _ 13 n (omega arith),
      )
      (omega (arith, hs, hn))

-- The two bytes of a run. Their first bit is zero.
pub run_bytes :
    (r : RunLengthChunk)
    → FitsRun r
    → let w = r.packet_status_symbol * 2 ^ 13 + r.run_length in
      (marshal_run_length r ≡ ok (w / 2 ^ 8 % 256 ∷ w % 256 ∷ []))
      × (get_nbits_from_byte (w / 2 ^ 8 % 256) 0 1 ≡ 0)
unfolding marshal_run_length put be16
run_bytes r f =
    let word = run_word r.packet_status_symbol r.run_length f.symbol_bound f.run_bound in
    (
      rw word refl,
      get_nbits_from_byte_lem _ 0 1 (omega arith) ∙ omega (arith, f.symbol_bound, f.run_bound),
    )

-- A run of a symbol of two bits and a length of thirteen bits is written, and read back.
pub unmarshal-marshal_run_length :
    (r : RunLengthChunk) → FitsRun r → (marshal_run_length r >>= unmarshal_run_length) ≡ ok r
unfolding marshal_run_length unmarshal_run_length put index be16
unmarshal-marshal_run_length r f =
    let s = r.packet_status_symbol in
    let n = r.run_length in
    let v = s * 2 ^ 13 + n in
    let a = v / 2 ^ 8 % 256 in
    let symbol : a / 2 ^ 5 % 2 ^ 2 ≡ s = omega (arith, f.symbol_bound, f.run_bound) in
    let run : to_uint16 (a / 2 ^ 0 % 2 ^ 5 * 2 ^ 8 % 2 ^ 16 + v % 256) ≡ n =
      omega (arith, f.symbol_bound, f.run_bound) in
    rw
      (
        run_word s n f.symbol_bound f.run_bound,
        get_nbits_from_byte_lem a 1 2 (omega arith),
        get_nbits_from_byte_lem a 3 5 (omega arith),
        symbol,
        run,
      )
      (ap (λ t. ok (record { type = t; packet_status_symbol = s; run_length = n }))
        (sym f.type_zero))
