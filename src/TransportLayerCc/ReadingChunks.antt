-- ===== src/TransportLayerCc/ReadingChunks.antt =====
-- The loop of `TransportLayerCC.Unmarshal` over the chunks, on arbitrary bytes.
use rtcp.Prelude.{
  All-append, ℕ, zero, suc, ◌+◌, ◌-◌, ◌^◌, ◌<◌, ◌≡◌, arith, Bool, true, false, ◌==◌, if◌then◌else◌,
  le→ltb_false, length, length-append, All, List, [], ◌∷◌, ◌++◌,
}
use rtcp.Outcome.{Ends, Ends-ok, Ends-bind, Ends-weaken, Ends-if, too_short-Ends}
use rtcp.Bytes.{Bytes, IsByte, to_uint16}
use rtcp.Bytes.Outcome.{Piece, index-Ends, slice-Ends_or}
use rtcp.TransportLayerCc.Chunk.{PacketStatusChunk}
use rtcp.TransportLayerCc.Packet.{Deltas, append_one_bit}
use rtcp.TransportLayerCc.ChunkFields.{ChunkRead, run_length-Ends, status_vector-Ends}
use rtcp.TransportLayerCc.Pointers.{
  InRange, append_run-InRange, append_one_bit-InRange, append_two_bit-InRange,
}
use rtcp.TransportLayerCc.Read.{window, read_run, read_vector, read_chunk, read_chunks}
use rtcp.Util.{get_nbits_from_byte}

-- `rawPacket[i:i+n]` is out of range only where the memory ends before.
pub window-Ends :
    {panics : Type 0} (memory : Bytes) (i n : ℕ)
    → All IsByte memory
    → i + n < 2 ^ 16
    → (length memory < i + n → panics)
    → Ends panics (Piece n) (window memory i n)
unfolding window
window-Ends memory i n w small out =
    let hi : to_uint16 (i + n) ≡ i + n = omega (arith, small) in
    rw (hi, le→ltb_false (i + n) i (omega arith))
      (Ends-weaken (Piece (i + n - i)) (Piece n) _
        (λ b p. record { bytes = p.bytes; size = omega (arith, p.size) })
        (slice-Ends_or memory i (i + n) w (omega arith) out))

-- A chunk whose fields fit, and deltas in range.
abbrev Fits : PacketStatusChunk × Deltas → Type 0
Fits found = ChunkRead found.0 × InRange found.1

read_run-Ends :
    {panics : Type 0} (ds : Deltas) (b : Bytes)
    → InRange ds
    → Piece 2 b
    → Ends panics Fits (read_run ds b)
unfolding read_run
read_run-Ends ds b r p =
    Ends-bind (run_length-Ends b p)
      λ c f. Ends-ok Fits _ (f, append_run-InRange ds c.packet_status_symbol c.run_length r)

either-InRange :
    (b : Bool) (ds ds' : Deltas) → InRange ds → InRange ds' → InRange (if b then ds else ds')
either-InRange true ds ds' r r' = r
either-InRange false ds ds' r r' = r'

read_vector-Ends :
    {panics : Type 0} (ds : Deltas) (b : Bytes)
    → InRange ds
    → Piece 2 b
    → Ends panics Fits (read_vector ds b)
unfolding read_vector
read_vector-Ends ds b r p = Ends-bind (status_vector-Ends b p) λ v f.
    let one = if v.symbol_size == 0 then append_one_bit ds v.symbol_list else ds in
    let one-InRange =
      either-InRange (v.symbol_size == 0) _ ds (append_one_bit-InRange v.symbol_list ds r) r in
    Ends-ok Fits _ (
      f,
      either-InRange (v.symbol_size == 1) _ one
          (append_two_bit-InRange v.symbol_list one one-InRange) one-InRange,
    )

read_chunk-Ends :
    {panics : Type 0} (memory : Bytes) (i : ℕ) (ds : Deltas)
    → All IsByte memory
    → i + 2 < 2 ^ 16
    → (length memory < i + 2 → panics)
    → InRange ds
    → Ends panics Fits (read_chunk memory i ds)
unfolding read_chunk
read_chunk-Ends memory i ds w small out r =
    Ends-bind
      (window-Ends memory i 1 w (omega (arith, small)) (λ short. out (omega (arith, short))))
      λ first p. Ends-bind (index-Ends first 0 p.bytes (omega (arith, p.size))) λ b _.
        Ends-if Fits (get_nbits_from_byte b 0 1 == 0) _ _
          (Ends-bind (window-Ends memory i 2 w small out) λ two q. read_run-Ends ds two r q)
          (Ends-bind (window-Ends memory i 2 w small out) λ two q. read_vector-Ends ds two r q)

-- The chunks so far, and the pointers.
pub record Chunks (n : ℕ) (found : List PacketStatusChunk × Deltas) : Type 0 where
  pub count : length found.0 ≡ n
  pub chunks_read : All ChunkRead found.0
  pub pointers : InRange found.1

pub read_chunks-Ends :
    {panics : Type 0} (n : ℕ) (memory : Bytes) (total i : ℕ) (chunks : List PacketStatusChunk)
    (ds : Deltas)
    → All IsByte memory
    → total < 65533
    → (length memory < total + 2 → panics)
    → InRange ds
    → All ChunkRead chunks
    → Ends panics (Chunks (length chunks + n)) (read_chunks n memory total i chunks ds)
unfolding read_chunks
read_chunks-Ends zero memory total i chunks ds w small out r f =
    Ends-ok (Chunks (length chunks + 0)) (chunks, ds)
      (record { count = omega arith; chunks_read = f; pointers = r })
read_chunks-Ends (suc n) memory total i chunks ds w small out r f =
    Ends-bind (too_short-Ends total i _) λ _ h.
      Ends-bind
        (read_chunk-Ends memory i ds w (omega (arith, h, small))
          (λ short. out (omega (arith, short, h))) r)
        λ found r'.
          let size = length-append chunks (found.0 ∷ []) in
          Ends-weaken _ (Chunks (length chunks + suc n)) _
            (λ f c. record {
              count = omega (arith, c.count, size);
              chunks_read = c.chunks_read;
              pointers = c.pointers;
            })
            (read_chunks-Ends n memory total (to_uint16 (i + 2)) (chunks ++ (found.0 ∷ [])) found.1
              w small out r'.1 (All-append ChunkRead chunks (found.0 ∷ []) f (r'.0, tt)))
