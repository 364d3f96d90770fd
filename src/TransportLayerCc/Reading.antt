-- ===== src/TransportLayerCc/Reading.antt =====
-- `TransportLayerCC.Unmarshal` on arbitrary bytes.
use rtcp.Prelude.{
  ℕ, ◌+◌, ◌*◌, ◌^◌, ◌<◌, ◌≡◌, refl, arith, not, leb, ◌==◌, ◌||◌, length, length-append, All,
  All-append, List, [], ◌∷◌, ◌++◌, inl, inr, ◌⊎◌, ◌∙◌, sym,
}
use mathlib.Core.Path.{subst}
use rtcp.Result.{err_wrong_type, err_packet_too_short}
use rtcp.Outcome.{Ends, Ends-ok, Ends-bind, Ends-weaken, Ends-if, too_short-Ends, fail_if-Ends}
use rtcp.Bytes.{uint16, Bytes, IsByte, IsUint16, IsUint32, to_uint16}
use rtcp.Bytes.Outcome.{Piece, index-Ends, uint16_at-Ends, uint32_at-Ends, slice-Ends}
use rtcp.Header
use rtcp.Header.Reading as HeaderReading
use rtcp.TransportLayerCc.Delta
use rtcp.TransportLayerCc.Delta.{RecvDelta}
use rtcp.TransportLayerCc.Packet.{TransportLayerCc, zero_value}
use rtcp.TransportLayerCc.Pointers.{
  Below, DeltaRead, small_read, large_read, deref-Ends, deref_all-Ends, length-store,
  store-DeltaRead,
}
use rtcp.TransportLayerCc.Read.{read_cell, read_delta, read_deltas, initial, upto, unmarshal}
use rtcp.Util.{get_24_bits_from_bytes}
use rtcp.TransportLayerCc.ChunkFields.{ChunkRead}
use rtcp.TransportLayerCc.ReadingChunks.{window-Ends, read_chunks-Ends}

delta-Ends :
    {panics : Type 0} (b : Bytes)
    → Piece 1 b ⊎ Piece 2 b
    → Ends panics DeltaRead (Delta.unmarshal b)
unfolding Delta.unmarshal uint16
delta-Ends (x ∷ []) (inl p) = record { at = small_read x p.bytes.0 }
delta-Ends (x ∷ []) (inr p) = absurd (omega (arith, p.size))
delta-Ends (x ∷ y ∷ []) (inl p) = absurd (omega (arith, p.size))
delta-Ends (x ∷ y ∷ []) (inr p) = record {
  at = large_read (x * 2 ^ 8 + y) (omega (arith, p.bytes.0, p.bytes.1.0));
}
delta-Ends [] (inl p) = absurd (omega (arith, p.size))
delta-Ends [] (inr p) = absurd (omega (arith, p.size))
delta-Ends (x ∷ y ∷ z ∷ b) (inl p) = absurd (omega (arith, p.size))
delta-Ends (x ∷ y ∷ z ∷ b) (inr p) = absurd (omega (arith, p.size))

-- As many cells as before, with deltas that were read.
pub record CellsRead (n : ℕ) (cells : List RecvDelta) : Type 0 where
  pub size : length cells ≡ n
  pub deltas_read : All DeltaRead cells

-- A delta of `n` bytes is stored.
read_cell-Ends :
    {panics : Type 0} (memory : Bytes) (cells : List RecvDelta) (p i n : ℕ)
    → All IsByte memory
    → i + n < 2 ^ 16
    → (length memory < i + n → panics)
    → n ≡ 1 ⊎ n ≡ 2
    → All DeltaRead cells
    → Ends panics (λ found. CellsRead (length cells) found.0) (read_cell memory cells p i n)
unfolding read_cell
read_cell-Ends memory cells p i n w small out one_or_two r =
    Ends-bind (window-Ends memory i n w small out) λ b q.
      Ends-bind (delta-Ends b (of_size b q one_or_two)) λ d t.
        Ends-ok (λ found. CellsRead (length cells) found.0) _
          (record { size = length-store cells p d; deltas_read = store-DeltaRead cells p d r t })
  where
    of_size : (b : Bytes) → Piece n b → n ≡ 1 ⊎ n ≡ 2 → Piece 1 b ⊎ Piece 2 b
    of_size b q (inl e) = inl (record { bytes = q.bytes; size = omega (arith, q.size, e) })
    of_size b q (inr e) = inr (record { bytes = q.bytes; size = omega (arith, q.size, e) })

read_delta-Ends :
    {panics : Type 0} (memory : Bytes) (cells : List RecvDelta) (p i : ℕ)
    → All IsByte memory
    → i + 2 < 2 ^ 16
    → (length memory < i + 2 → panics)
    → p < length cells
    → All DeltaRead cells
    → Ends panics (λ found. CellsRead (length cells) found.0) (read_delta memory cells p i)
unfolding read_delta
read_delta-Ends memory cells p i w small out h r =
    let same = λ (found : List RecvDelta × ℕ). CellsRead (length cells) found.0 in
    Ends-bind (deref-Ends cells p h r) λ d _.
      Ends-if same (d.type == 1) _ _
        (read_cell-Ends memory cells p i 1 w (omega (arith, small))
          (λ short. out (omega (arith, short))) (inl refl) r)
        (Ends-if same (d.type == 2) _ _ (read_cell-Ends memory cells p i 2 w small out (inr refl) r)
          (Ends-ok same (cells, i) (record { size = refl; deltas_read = r })))

read_deltas-Ends :
    {panics : Type 0} (pointers : List ℕ) (memory : Bytes) (total i : ℕ) (cells : List RecvDelta)
    → All IsByte memory
    → total < 65533
    → (length memory < total + 2 → panics)
    → Below (length cells) pointers
    → All DeltaRead cells
    → Ends panics (CellsRead (length cells)) (read_deltas pointers memory total i cells)
unfolding read_deltas
read_deltas-Ends [] memory total i cells w small out b r =
    Ends-ok (CellsRead (length cells)) cells (record { size = refl; deltas_read = r })
read_deltas-Ends (p ∷ pointers) memory total i cells w small out b r =
    Ends-bind (fail_if-Ends (leb total i) err_packet_too_short) λ _ more.
      let before : i < total = ground (arith, more) in
      Ends-bind
        (read_delta-Ends memory cells p i w (omega (arith, before, small))
          (λ short. out (omega (arith, short, before))) b.0 r)
        λ found e.
          Ends-weaken _ (CellsRead (length cells)) _
            (λ f e'. record { size = e'.size ∙ e.size; deltas_read = e'.deltas_read })
            (read_deltas-Ends pointers memory total found.1 found.0 w small out
              (subst (λ n. Below n pointers) (sym e.size) b.1) e.deltas_read)

-- A packet that was read: its fields, those of its chunks and its deltas fit their bits, and there is a
-- chunk for each status counted.
pub record IsRead (t : TransportLayerCc) : Type 0 where
  pub header_valid : Header.IsValid t.header
  pub sender_bound : IsUint32 t.sender_ssrc
  pub media_bound : IsUint32 t.media_ssrc
  pub base_sequence_number_bound : IsUint16 t.base_sequence_number
  pub packet_status_count_bound : IsUint16 t.packet_status_count
  pub reference_time_bound : t.reference_time < 2 ^ 24
  pub fb_pkt_count_bound : IsByte t.fb_pkt_count
  pub chunk_count : length t.packet_chunks ≡ t.packet_status_count
  pub chunks_read : All ChunkRead t.packet_chunks
  pub deltas_read : All DeltaRead t.recv_deltas

time-Ends :
    {panics : Type 0} (b : Bytes)
    → Piece 3 b
    → Ends panics (λ v. v < 2 ^ 24) (get_24_bits_from_bytes b)
unfolding get_24_bits_from_bytes
time-Ends b p = Ends-bind (index-Ends b 0 p.bytes (omega (arith, p.size))) λ x hx.
    Ends-bind (index-Ends b 1 p.bytes (omega (arith, p.size))) λ y hy.
      Ends-bind (index-Ends b 2 p.bytes (omega (arith, p.size)))
        λ z hz. Ends-ok (λ v. v < 2 ^ 24) _ (omega (arith, hx, hy, hz))

-- A feedback packet, and any bytes behind it, all below 256, are read to an end: with an error, or
-- with fields that fit their bits and one chunk for each packet status that is counted. It may panic
-- only where less than two bytes stand behind the packet.
pub unmarshal_tcc-Ends :
    (raw spare : Bytes)
    → All IsByte raw
    → All IsByte spare
    → Ends (length spare < 2) IsRead (unmarshal zero_value raw spare)
unfolding unmarshal initial upto
unmarshal_tcc-Ends raw spare w ws = Ends-bind (too_short-Ends (length raw) 8 _) λ _ long.
    Ends-bind (HeaderReading.unmarshal-Ends raw w) λ h hh.
      let total = to_uint16 (4 * to_uint16 (h.length + 1)) in
      Ends-bind (fail_if-Ends (leb total 20) err_packet_too_short) λ _ enough.
        Ends-bind (too_short-Ends (length raw) total _) λ _ fits.
          let room : 20 < length raw = ground (arith, enough, fits) in
          let wide : total < 65533 = omega arith in
          let memory = raw ++ spare in
          let wm = All-append IsByte raw spare w ws in
          let size : length memory ≡ length raw + length spare = length-append raw spare in
          let out : length memory < total + 2 → length spare < 2 =
            λ short. omega (arith, short, size, fits) in
          Ends-bind (fail_if-Ends (not (h.type == 205) || not (h.count == 15)) err_wrong_type)
            λ _ _. Ends-bind (uint32_at-Ends raw 4 w (omega (arith, room))) λ sender hs.
              Ends-bind (uint32_at-Ends raw 8 w (omega (arith, room))) λ media hm.
                Ends-bind (uint16_at-Ends raw 12 w (omega (arith, room))) λ base hb.
                  Ends-bind (uint16_at-Ends raw 14 w (omega (arith, room))) λ count hc.
                    Ends-bind (slice-Ends memory 16 19 wm (omega arith) (omega (arith, size, room)))
                      λ time_bytes p. Ends-bind (time-Ends time_bytes p) λ time ht.
                        Ends-bind
                          (slice-Ends memory 19 20 wm (omega arith) (omega (arith, size, room)))
                          λ fb_bytes q.
                            Ends-bind (index-Ends fb_bytes 0 q.bytes (omega (arith, q.size)))
                              λ fb hf.
                                Ends-bind
                                  (read_chunks-Ends count memory total 20 [] _ wm wide out
                                    (record { targets = tt; cells_read = tt }) tt)
                                  λ found c.
                                    Ends-bind
                                      (read_deltas-Ends found.1.pointers memory total
                                        (to_uint16 (20 + to_uint16 (2 * count))) found.1.cells wm
                                        wide out c.pointers.targets c.pointers.cells_read)
                                      λ cells e.
                                        Ends-bind
                                          (deref_all-Ends cells found.1.pointers
                                            (subst (λ n. Below n found.1.pointers) (sym e.size)
                                              c.pointers.targets)
                                            e.deltas_read)
                                          λ deltas read. Ends-ok IsRead _ (record {
                                            header_valid = hh.valid;
                                            sender_bound = hs;
                                            media_bound = hm;
                                            base_sequence_number_bound = hb;
                                            packet_status_count_bound = hc;
                                            reference_time_bound = ht;
                                            fb_pkt_count_bound = hf;
                                            chunk_count = omega (arith, c.count);
                                            chunks_read = c.chunks_read;
                                            deltas_read = read;
                                          })
