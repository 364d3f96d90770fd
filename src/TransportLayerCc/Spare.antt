-- ===== src/TransportLayerCc/Spare.antt =====
-- `TransportLayerCC.Unmarshal` with more bytes behind the packet.
use rtcp.Prelude.{
  ℕ, zero, suc, ◌+◌, ◌-◌, ◌*◌, ◌≡◌, arith, not, ◌||◌, ltb, leb, ◌==◌, length, List, [], ◌∷◌, ◌++◌,
  append_assoc,
}
use rtcp.Result.{ok, panic, bind-eq-ok, fail_if, err_packet_too_short, err_wrong_type}
use rtcp.Outcome.{Keeps, Keeps-refl, Keeps-bind, Keeps-if, Keeps-after}
use rtcp.Bytes.{Bytes, to_uint16, slice_from, slice_to, slice, index, uint16_at, uint32_at}
use rtcp.Header
use rtcp.Util.{get_nbits_from_byte, get_24_bits_from_bytes}
use rtcp.TransportLayerCc.Chunk.{PacketStatusChunk, type_run_length_chunk}
use rtcp.TransportLayerCc.Delta.{RecvDelta}
use rtcp.TransportLayerCc.Packet.{TransportLayerCc, Deltas, deref}
use rtcp.TransportLayerCc.Read.{
  window, read_chunk, read_chunks, read_cell, read_delta, read_deltas, read_run, read_vector,
  initial, deref_all, unmarshal,
}

-- A slice in range stays the same in front of more bytes.
slice_from-Keeps :
    (b more : Bytes) (i : ℕ) (s : Bytes)
    → slice_from b i ≡ ok s
    → slice_from (b ++ more) i ≡ ok (s ++ more)
unfolding slice_from
slice_from-Keeps b more zero s e = ground (arith, e)
slice_from-Keeps [] more (suc i) s e = cc
slice_from-Keeps (x ∷ b) more (suc i) s e = slice_from-Keeps b more i s e

slice_to-Keeps : (b more : Bytes) (n : ℕ) → Keeps (slice_to b n) (slice_to (b ++ more) n)
unfolding slice_to
slice_to-Keeps b more zero = Keeps-refl (ok [])
slice_to-Keeps [] more (suc n) = record { value = λ a e. cc }
slice_to-Keeps (x ∷ b) more (suc n) =
    Keeps-bind (slice_to-Keeps b more n) λ s. Keeps-refl (ok (x ∷ s))

slice-Keeps : (b more : Bytes) (lo hi : ℕ) → Keeps (slice b lo hi) (slice (b ++ more) lo hi)
unfolding slice
slice-Keeps b more lo hi = record {
  value = λ a e.
      let (s, from, to) = bind-eq-ok (slice_from b lo) (λ s. slice_to s (hi - lo)) e in
      let moved = slice_from-Keeps b more lo s from in
      rw moved ((slice_to-Keeps s more (hi - lo)).value a to);
}

window-Keeps : (b more : Bytes) (i n : ℕ) → Keeps (window b i n) (window (b ++ more) i n)
unfolding window
window-Keeps b more i n =
    Keeps-if (ltb (to_uint16 (i + n)) i) (Keeps-refl panic)
      (slice-Keeps b more i (to_uint16 (i + n)))

read_chunk-Keeps :
    (b more : Bytes) (i : ℕ) (ds : Deltas) → Keeps (read_chunk b i ds) (read_chunk (b ++ more) i ds)
unfolding read_chunk
read_chunk-Keeps b more i ds = Keeps-bind (window-Keeps b more i 1) λ first.
    Keeps-after (index first 0) λ x.
      Keeps-if (get_nbits_from_byte x 0 1 == type_run_length_chunk)
        (Keeps-bind (window-Keeps b more i 2) λ w. Keeps-refl (read_run ds w))
        (Keeps-bind (window-Keeps b more i 2) λ w. Keeps-refl (read_vector ds w))

read_chunks-Keeps :
    (n : ℕ) (b more : Bytes) (total i : ℕ) (chunks : List PacketStatusChunk) (ds : Deltas)
    → Keeps (read_chunks n b total i chunks ds) (read_chunks n (b ++ more) total i chunks ds)
unfolding read_chunks
read_chunks-Keeps zero b more total i chunks ds = Keeps-refl (ok (chunks, ds))
read_chunks-Keeps (suc n) b more total i chunks ds =
    Keeps-after (fail_if (ltb total i) err_packet_too_short) λ _.
      Keeps-bind (read_chunk-Keeps b more i ds)
        λ c. read_chunks-Keeps n b more total (to_uint16 (i + 2)) (chunks ++ (c.0 ∷ [])) c.1

read_cell-Keeps :
    (b more : Bytes) (cells : List RecvDelta) (p i n : ℕ)
    → Keeps (read_cell b cells p i n) (read_cell (b ++ more) cells p i n)
unfolding read_cell
read_cell-Keeps b more cells p i n = Keeps-bind (window-Keeps b more i n) λ w. Keeps-refl _

read_delta-Keeps :
    (b more : Bytes) (cells : List RecvDelta) (p i : ℕ)
    → Keeps (read_delta b cells p i) (read_delta (b ++ more) cells p i)
unfolding read_delta
read_delta-Keeps b more cells p i = Keeps-after (deref cells p) λ d.
    Keeps-if (d.type == 1) (read_cell-Keeps b more cells p i 1)
      (Keeps-if (d.type == 2) (read_cell-Keeps b more cells p i 2) (Keeps-refl (ok (cells, i))))

read_deltas-Keeps :
    (pointers : List ℕ) (b more : Bytes) (total i : ℕ) (cells : List RecvDelta)
    → Keeps (read_deltas pointers b total i cells) (read_deltas pointers (b ++ more) total i cells)
unfolding read_deltas
read_deltas-Keeps [] b more total i cells = Keeps-refl (ok cells)
read_deltas-Keeps (p ∷ pointers) b more total i cells =
    Keeps-after (fail_if (leb total i) err_packet_too_short) λ _.
      Keeps-bind (read_delta-Keeps b more cells p i)
        λ c. read_deltas-Keeps pointers b more total c.1 c.0

-- Feedback that is read in front of some bytes is read the same in front of more.
pub unmarshal-Keeps :
    (t : TransportLayerCc) (raw spare more : Bytes)
    → Keeps (unmarshal t raw spare) (unmarshal t raw (spare ++ more))
unfolding unmarshal
unmarshal-Keeps t raw spare more = rw (← append_assoc raw spare more) (
    Keeps-after (fail_if (ltb (length raw) 8) err_packet_too_short) λ _.
      Keeps-after (Header.unmarshal raw) λ h.
        let total = to_uint16 (4 * to_uint16 (h.length + 1)) in
        Keeps-after (fail_if (leb total 20) err_packet_too_short) λ _.
          Keeps-after (fail_if (ltb (length raw) total) err_packet_too_short) λ _.
            Keeps-after (fail_if (not (h.type == 205) || not (h.count == 15)) err_wrong_type) λ _.
              Keeps-after (uint32_at raw 4) λ _. Keeps-after (uint32_at raw 8) λ _.
                Keeps-after (uint16_at raw 12) λ _. Keeps-after (uint16_at raw 14) λ count.
                  Keeps-bind (slice-Keeps (raw ++ spare) more 16 19) λ time.
                    Keeps-after (get_24_bits_from_bytes time) λ _.
                      Keeps-bind (slice-Keeps (raw ++ spare) more 19 20) λ fb.
                        Keeps-after (index fb 0) λ _.
                          Keeps-bind
                            (read_chunks-Keeps count (raw ++ spare) more total 20 t.packet_chunks
                              (initial t.recv_deltas))
                            λ c.
                              Keeps-bind
                                (read_deltas-Keeps c.1.pointers (raw ++ spare) more total
                                  (to_uint16 (20 + to_uint16 (2 * count))) c.1.cells)
                                λ cells.
                                  Keeps-after (deref_all cells c.1.pointers) λ _. Keeps-refl _)
