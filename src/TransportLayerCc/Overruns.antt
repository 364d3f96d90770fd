-- ===== src/TransportLayerCc/Overruns.antt =====
-- `TransportLayerCC.Unmarshal` where more packet statuses are counted than there are chunks.
use rtcp.Prelude.{
  ℕ, zero, suc, ◌+◌, ◌*◌, ◌-◌, ◌/◌, ◌^◌, ◌≤◌, ◌<◌, ◌≡◌, refl, arith, Bool, true, false,
  if◌then◌else◌, ◌==◌, leb, le→ltb_false, length, List, [], ◌∷◌, append-nil,
}
use rtcp.Result.{Result, ok, panic}
use rtcp.Bytes.{Bytes, to_uint16, uint16_at}
use rtcp.Bytes.Reads.{
  Gives, GivesBytes, slice_ok, slice_panic, index_ok, uint16_at_ok, uint32_at_ok, panic_behind,
  no_fail,
}
use rtcp.Header
use rtcp.Header.{Header}
use rtcp.TransportLayerCc.Chunk.{PacketStatusChunk, unmarshal_run_length, unmarshal_status_vector}
use rtcp.TransportLayerCc.Packet.{TransportLayerCc, Deltas}
use rtcp.TransportLayerCc.Read.{window, read_run, read_vector, read_chunk, read_chunks, unmarshal}
use rtcp.Util.{get_24_bits_from_bytes, get_nbits_from_byte}

window_ok :
    (memory : Bytes) (i n : ℕ)
    → i + n < 2 ^ 16
    → i + n ≤ length memory
    → GivesBytes n (window memory i n)
unfolding window
window_ok memory i n small fits =
    let hi : to_uint16 (i + n) ≡ i + n = omega (arith, small) in
    let (b, e, size) = slice_ok memory i (i + n) (omega arith) fits in
    rw (hi, le→ltb_false (i + n) i (omega arith)) (b, e, omega (arith, size))

window_panic :
    (memory : Bytes) (n : ℕ)
    → length memory + suc n < 2 ^ 16
    → window memory (length memory) (suc n) ≡ panic
unfolding window
window_panic memory n small =
    let i = length memory in
    let hi : to_uint16 (i + suc n) ≡ i + suc n = omega (arith, small) in
    rw (hi, le→ltb_false (i + suc n) i (omega arith))
      (slice_panic memory i (i + suc n) (omega arith) (omega arith))

run_ok : (ds : Deltas) (b : Bytes) → length b ≡ 2 → Gives (read_run ds b)
unfolding read_run unmarshal_run_length
run_ok ds (x ∷ y ∷ []) size = (_, refl)
run_ok ds [] size = absurd (omega (arith, size))
run_ok ds (x ∷ []) size = absurd (omega (arith, size))
run_ok ds (x ∷ y ∷ z ∷ b) size = absurd (omega (arith, size))

vector_ok : (ds : Deltas) (b : Bytes) → length b ≡ 2 → Gives (read_vector ds b)
unfolding read_vector unmarshal_status_vector
vector_ok ds (x ∷ y ∷ []) size = (_, refl)
vector_ok ds [] size = absurd (omega (arith, size))
vector_ok ds (x ∷ []) size = absurd (omega (arith, size))
vector_ok ds (x ∷ y ∷ z ∷ b) size = absurd (omega (arith, size))

either : {A : Type 0} (b : Bool) {m n : Result A} → Gives m → Gives n → Gives (if b then m else n)
either true g g' = g
either false g g' = g'

-- Two bytes are a chunk, whatever they are.
chunk_ok :
    (memory : Bytes) (i : ℕ) (ds : Deltas)
    → i + 2 < 2 ^ 16
    → i + 2 ≤ length memory
    → Gives (read_chunk memory i ds)
unfolding read_chunk
chunk_ok memory i ds small fits =
    let (first, e, size) = window_ok memory i 1 (omega (arith, small)) (omega (arith, fits)) in
    let (b, f) = index_ok first 0 (omega (arith, size)) in
    let (two, g, wide) = window_ok memory i 2 small fits in
    rw (e, f, g)
      (either (get_nbits_from_byte b 0 1 == 0) (run_ok ds two wide) (vector_ok ds two wide))

chunk_panic :
    (memory : Bytes) (ds : Deltas)
    → length memory + 2 < 2 ^ 16
    → read_chunk memory (length memory) ds ≡ panic
unfolding read_chunk
chunk_panic memory ds small = rw (window_panic memory 0 (omega (arith, small))) refl

-- `k` chunks are left, and more than `k` are to be read.
chunks_panic :
    (n k : ℕ) (memory : Bytes) (i : ℕ) (chunks : List PacketStatusChunk) (ds : Deltas)
    → length memory + 2 < 2 ^ 16
    → i + 2 * k ≡ length memory
    → k < n
    → read_chunks n memory (length memory) i chunks ds ≡ panic
unfolding read_chunks
chunks_panic zero k memory i chunks ds small at more = absurd (omega arith)
chunks_panic (suc n) zero memory i chunks ds small at more =
    let here : i ≡ length memory = omega (arith, at) in
    rw
      (
        here,
        le→ltb_false (length memory) (length memory) (omega arith),
        chunk_panic memory ds small,
      )
      refl
chunks_panic (suc n) (suc k) memory i chunks ds small at more =
    let (c, e) = chunk_ok memory i ds (omega (arith, small, at)) (omega (arith, at)) in
    let next : to_uint16 (i + 2) ≡ i + 2 = omega (arith, small, at) in
    rw (le→ltb_false (length memory) i (omega (arith, at)), e, next)
      (chunks_panic n k memory (i + 2) _ _ small (omega (arith, at)) (omega (arith, more)))

time_ok : (b : Bytes) → length b ≡ 3 → Gives (get_24_bits_from_bytes b)
unfolding get_24_bits_from_bytes
time_ok b size =
    let (x, e) = index_ok b 0 (omega (arith, size)) in
    let (y, f) = index_ok b 1 (omega (arith, size)) in
    let (z, g) = index_ok b 2 (omega (arith, size)) in rw (e, f, g) (_, refl)

-- Where the packet's bytes are the last of the memory, and it counts more packet statuses than two
-- bytes each are there for, the reader panics: it takes the two bytes behind the end for a chunk.
pub unmarshal_overrun :
    (t : TransportLayerCc) (raw : Bytes) (h : Header) (count : ℕ)
    → Header.unmarshal raw ≡ ok h
    → h.type ≡ 205
    → h.count ≡ 15
    → to_uint16 (h.length + 1) * 4 ≡ length raw
    → 20 < length raw
    → length raw < 2 ^ 16
    → uint16_at raw 14 ≡ ok count
    → length raw < 20 + 2 * count
    → unmarshal t raw [] ≡ panic
unfolding unmarshal
unmarshal_overrun t raw h count read type format size room small statuses more =
    let n = length raw in
    let total : to_uint16 (4 * to_uint16 (h.length + 1)) ≡ n = omega (arith, size, small) in
    let k = (n - 20) / 2 in
    rw
      (
        append-nil raw,
        le→ltb_false n 8 (omega (arith, room)),
        read,
        total,
        le→ltb_false n n (omega arith),
        type,
        format,
      )
      (panic_behind (no_fail (leb n 20) _ (ground (arith, room))) λ _ _.
        panic_behind (uint32_at_ok raw 4 (omega (arith, room))) λ sender _.
          panic_behind (uint32_at_ok raw 8 (omega (arith, room))) λ media _.
            panic_behind (uint16_at_ok raw 12 (omega (arith, room))) λ base _.
              let (time_bytes, e, wide) = slice_ok raw 16 19 (omega arith) (omega (arith, room)) in
              let (time, f) = time_ok time_bytes (omega (arith, wide)) in
              let (fb_bytes, g, one) = slice_ok raw 19 20 (omega arith) (omega (arith, room)) in
              let (fb, i) = index_ok fb_bytes 0 (omega (arith, one)) in
              rw
                (
                  statuses,
                  e,
                  f,
                  g,
                  i,
                  chunks_panic count k raw 20 _ _ (omega (arith, size, small))
                      (omega (arith, size, room)) (omega (arith, size, more)),
                )
                refl)
