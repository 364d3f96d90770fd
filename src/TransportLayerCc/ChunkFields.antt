-- ===== src/TransportLayerCc/ChunkFields.antt =====
-- The two chunks of congestion control feedback, read from arbitrary bytes.
use rtcp.Prelude.{
  refl, ◌≤◌, ◌*◌, All-append, Bool-cases, inl, inr, ℕ, zero, suc, ◌+◌, ◌^◌, ◌<◌, ◌≡◌, arith, ◌==◌,
  length, All, List, [], ◌∷◌, ◌++◌,
}
use rtcp.Outcome.{Ends, Ends-ok}
use rtcp.Bytes.{Bytes}
use rtcp.Bytes.Outcome.{Piece}
use rtcp.TransportLayerCc.Chunk.{
  PacketStatusChunk, StatusVectorChunk, run_length_chunk, status_vector_chunk, symbols_from,
  unmarshal_run_length, unmarshal_status_vector,
}
use rtcp.Util.{get_nbits_from_byte}
use rtcp.Util.Fields.{get_nbits_from_byte_lem}

-- A chunk whose fields fit their bits: a symbol of two bits and a run length of thirteen, or a vector of
-- fourteen symbols of one bit or of seven of two.
pub data ChunkRead : PacketStatusChunk → Type 0 where
  run_read :
      (symbol n : ℕ)
      → symbol < 4
      → n < 2 ^ 13
      → ChunkRead
          (run_length_chunk (record { type = 0; packet_status_symbol = symbol; run_length = n }))
  one_bit_read :
      (symbols : List ℕ)
      → length symbols ≡ 14
      → All (λ s. s < 2) symbols
      → ChunkRead
          (status_vector_chunk (record { type = 1; symbol_size = 0; symbol_list = symbols }))
  two_bit_read :
      (symbols : List ℕ)
      → length symbols ≡ 7
      → All (λ s. s < 4) symbols
      → ChunkRead
          (status_vector_chunk (record { type = 1; symbol_size = 1; symbol_list = symbols }))

pub run_length-Ends :
    {panics : Type 0} (b : Bytes)
    → Piece 2 b
    → Ends panics (λ r. ChunkRead (run_length_chunk r)) (unmarshal_run_length b)
unfolding unmarshal_run_length
run_length-Ends (x ∷ y ∷ []) p =
    let high : get_nbits_from_byte x 3 5 < 32 =
      rw (get_nbits_from_byte_lem x 3 5 (omega arith)) (omega arith) in
    let symbol : get_nbits_from_byte x 1 2 < 4 =
      rw (get_nbits_from_byte_lem x 1 2 (omega arith)) (omega arith) in
    record { at = run_read _ _ symbol (omega (arith, high, p.bytes.1.0)) }
run_length-Ends [] p = absurd (omega (arith, p.size))
run_length-Ends (x ∷ []) p = absurd (omega (arith, p.size))
run_length-Ends (x ∷ y ∷ z ∷ b) p = absurd (omega (arith, p.size))

-- The symbols of a byte.
one_bits : (n b begin : ℕ) → begin + n ≤ 8 → All (λ s. s < 2) (symbols_from n b begin 1)
unfolding symbols_from
one_bits zero b begin h = tt
one_bits (suc n) b begin h = (
  rw (get_nbits_from_byte_lem b begin 1 (omega (arith, h))) (omega arith),
  one_bits n b (begin + 1) (omega (arith, h)),
)

two_bits : (n b begin : ℕ) → begin + 2 * n ≤ 8 → All (λ s. s < 4) (symbols_from n b begin 2)
unfolding symbols_from
two_bits zero b begin h = tt
two_bits (suc n) b begin h = (
  rw (get_nbits_from_byte_lem b begin 2 (omega (arith, h))) (omega arith),
  two_bits n b (begin + 2) (omega (arith, h)),
)

fourteen :
    (x y : ℕ)
    → ChunkRead (
        status_vector_chunk (record {
          type = 1;
          symbol_size = 0;
          symbol_list = symbols_from 6 x 2 1 ++ symbols_from 8 y 0 1;
        }))
fourteen x y =
    let high = symbols_from 6 x 2 1 in
    let low = symbols_from 8 y 0 1 in
    let size : length (high ++ low) ≡ 14 = unfold symbols_from in refl in
    one_bit_read (high ++ low) size (
      All-append (λ s. s < 2) high low (one_bits 6 x 2 (omega arith))
        (one_bits 8 y 0 (omega arith)))

seven :
    (x y : ℕ)
    → ChunkRead (
        status_vector_chunk (record {
          type = 1;
          symbol_size = 1;
          symbol_list = symbols_from 3 x 2 2 ++ symbols_from 4 y 0 2;
        }))
seven x y =
    let high = symbols_from 3 x 2 2 in
    let low = symbols_from 4 y 0 2 in
    let size : length (high ++ low) ≡ 7 = unfold symbols_from in refl in
    two_bit_read (high ++ low) size (
      All-append (λ s. s < 4) high low (two_bits 3 x 2 (omega arith))
        (two_bits 4 y 0 (omega arith)))

pub status_vector-Ends :
    {panics : Type 0} (b : Bytes)
    → Piece 2 b
    → Ends panics
        (λ v. ChunkRead (status_vector_chunk v))
        (unmarshal_status_vector (record { type = 1; symbol_size = 0; symbol_list = [] }) b)
unfolding unmarshal_status_vector
status_vector-Ends (x ∷ y ∷ []) p =
    let size : get_nbits_from_byte x 1 1 < 2 =
      rw (get_nbits_from_byte_lem x 1 1 (omega arith)) (omega arith) in
    let vector = λ (v : StatusVectorChunk). ChunkRead (status_vector_chunk v) in
    elim (Bool-cases (get_nbits_from_byte x 1 1 == 0)) [
      | inl zero_size ↦
          let is : get_nbits_from_byte x 1 1 ≡ 0 = ground (arith, zero_size) in
          rw is (Ends-ok vector _ (fourteen x y))
      | inr other ↦
          let is : get_nbits_from_byte x 1 1 ≡ 1 = ground (arith, other, size) in
          rw is (Ends-ok vector _ (seven x y))
    ]
status_vector-Ends [] p = absurd (omega (arith, p.size))
status_vector-Ends (x ∷ []) p = absurd (omega (arith, p.size))
status_vector-Ends (x ∷ y ∷ z ∷ b) p = absurd (omega (arith, p.size))
