-- ===== src/TransportLayerCc/Runs.antt =====
-- The deltas of a run are one object.
use rtcp.Prelude.{
  length, ltb, leb, not, ◌||◌, ◌*◌, ℕ, zero, suc, ◌+◌, ◌≡◌, ◌∙◌, refl, sym, ap, arith, ◌==◌,
  if◌then◌else◌, Bool-cases, inl, inr, replicate, List, [], ◌∷◌, ◌++◌,
}
use rtcp.Result.{ok, bind-eq-ok, fail_if, err_packet_too_short, err_wrong_type}
use rtcp.Outcome.Yields.{Yields, Yields-ok, Yields-if, Yields-bind, Yields-after}
use rtcp.Bytes.{Bytes, to_uint16, index, slice, uint16_at, uint32_at}
use rtcp.Header
use rtcp.Util.{get_nbits_from_byte, get_24_bits_from_bytes}
use rtcp.TransportLayerCc.Chunk.{
  unmarshal_run_length, unmarshal_status_vector, RunLengthChunk, PacketStatusChunk,
  run_length_chunk,
}
use rtcp.TransportLayerCc.Delta.{RecvDelta, pos}
use rtcp.TransportLayerCc.Packet.{
  TransportLayerCc, zero_value, Deltas, deref, append_new, append_run, has_delta,
}
use rtcp.TransportLayerCc.Read.{
  window, read_deltas, deref_all, read_run, read_vector, read_chunk, read_chunks, initial, upto,
  unmarshal,
}

deref_same :
    (n : ℕ) (cells : List RecvDelta) (p : ℕ) (d : RecvDelta)
    → deref cells p ≡ ok d
    → deref_all cells (replicate n p) ≡ ok (replicate n d)
unfolding deref_all
deref_same zero cells p d e = refl
deref_same (suc n) cells p d e = rw (e, deref_same n cells p d e)

first_deref :
    (n p : ℕ) (cells out : List RecvDelta)
    → deref_all cells (replicate (suc n) p) ≡ ok out
    → (d : RecvDelta) × (deref cells p ≡ ok d)
unfolding deref_all
first_deref n p cells out e = let (d, first, _) = bind-eq-ok (deref cells p) _ e in (d, first)

-- Equal pointers are dereferenced to equal deltas.
deref_all-Yields :
    (n p : ℕ) (cells : List RecvDelta)
    → Yields (λ out. (d : RecvDelta) × (out ≡ replicate n d)) (deref_all cells (replicate n p))
deref_all-Yields zero p cells =
    unfold deref_all in
    Yields-ok (λ out. (d : RecvDelta) × (out ≡ [])) [] (record { type = 0; delta = pos 0 }, refl)
deref_all-Yields (suc n) p cells = record {
  value = λ out e.
      let (d, first) = first_deref n p cells out e in
      let same = sym (deref_same (suc n) cells p d first) ∙ e in (d, ground (arith, same));
}

abbrev no_deltas : Deltas
no_deltas = record { cells = []; pointers = [] }

-- The deltas after no chunk, and after one run.
record OneRun (chunks : List PacketStatusChunk) (ds : Deltas) : Type 0 where
  none_yet : chunks ≡ [] → ds ≡ no_deltas
  one_yet :
      (r : RunLengthChunk)
      → chunks ≡ run_length_chunk r ∷ []
      → ds ≡ append_run no_deltas r.packet_status_symbol r.run_length

-- What a chunk that is a run adds.
abbrev Added : Deltas → PacketStatusChunk × Deltas → Type 0
Added ds found =
    (r : RunLengthChunk)
    → found.0 ≡ run_length_chunk r
    → found.1 ≡ append_run ds r.packet_status_symbol r.run_length

read_run-Added : (ds : Deltas) (b : Bytes) → Yields (Added ds) (read_run ds b)
unfolding read_run
read_run-Added ds b = Yields-after (unmarshal_run_length b) λ c.
    Yields-ok (Added ds) _ λ r e.
      let same : c ≡ r = cc in ap (λ q. append_run ds q.packet_status_symbol q.run_length) same

read_vector-Added : (ds : Deltas) (b : Bytes) → Yields (Added ds) (read_vector ds b)
unfolding read_vector
read_vector-Added ds b =
    Yields-after
      (unmarshal_status_vector (record { type = 1; symbol_size = 0; symbol_list = [] }) b)
      λ v. Yields-ok (Added ds) _ λ r e. cc

read_chunk-Added :
    (memory : Bytes) (i : ℕ) (ds : Deltas) → Yields (Added ds) (read_chunk memory i ds)
unfolding read_chunk
read_chunk-Added memory i ds = Yields-after (window memory i 1) λ first.
    Yields-after (index first 0) λ b.
      Yields-if (get_nbits_from_byte b 0 1 == 0)
        (Yields-after (window memory i 2) λ two. read_run-Added ds two)
        (Yields-after (window memory i 2) λ two. read_vector-Added ds two)

more-OneRun :
    (chunks : List PacketStatusChunk) (ds : Deltas) (found : PacketStatusChunk × Deltas)
    → OneRun chunks ds
    → Added ds found
    → OneRun (chunks ++ (found.0 ∷ [])) found.1
more-OneRun [] ds found o added = record {
  none_yet = λ e. cc;
  one_yet = λ r e.
      let run : found.0 ≡ run_length_chunk r = cc in
      added r run
      ∙ ap (λ before. append_run before r.packet_status_symbol r.run_length) (o.none_yet refl);
}
more-OneRun (c ∷ []) ds found o added = record { none_yet = λ e. cc; one_yet = λ r e. cc }
more-OneRun (c ∷ c' ∷ chunks) ds found o added = record { none_yet = λ e. cc; one_yet = λ r e. cc }

read_chunks-OneRun :
    (n : ℕ) (memory : Bytes) (total i : ℕ) (chunks : List PacketStatusChunk) (ds : Deltas)
    → OneRun chunks ds
    → Yields (λ found. OneRun found.0 found.1) (read_chunks n memory total i chunks ds)
unfolding read_chunks
read_chunks-OneRun zero memory total i chunks ds o =
    Yields-ok (λ found. OneRun found.0 found.1) (chunks, ds) o
read_chunks-OneRun (suc n) memory total i chunks ds o =
    Yields-after (fail_if (ltb total i) err_packet_too_short) λ _.
      Yields-bind (read_chunk-Added memory i ds) λ found added.
        read_chunks-OneRun n memory total (to_uint16 (i + 2)) (chunks ++ (found.0 ∷ [])) found.1
          (more-OneRun chunks ds found o added)

run_pointers :
    (s n : ℕ) → (append_run no_deltas s n).pointers ≡ replicate (if has_delta s then n else 0) 0
unfolding append_run append_new
run_pointers s n = elim (Bool-cases (has_delta s)) [ inl e ↦ rw e refl | inr e ↦ rw e refl ]

-- All deltas are one, if there is one chunk and it is a run.
abbrev pub Shared : TransportLayerCc → Type 0
Shared t =
    (r : RunLengthChunk)
    → t.packet_chunks ≡ run_length_chunk r ∷ []
    → (d : RecvDelta) × (t.recv_deltas
        ≡ replicate (if has_delta r.packet_status_symbol then r.run_length else 0) d)

unmarshal-Shared : (raw spare : Bytes) → Yields Shared (unmarshal zero_value raw spare)
unfolding unmarshal initial upto
unmarshal-Shared raw spare = Yields-after (fail_if (ltb (length raw) 8) err_packet_too_short) λ _.
    Yields-after (Header.unmarshal raw) λ h.
      let total = to_uint16 (4 * to_uint16 (h.length + 1)) in
      Yields-after (fail_if (leb total 20) err_packet_too_short) λ _.
        Yields-after (fail_if (ltb (length raw) total) err_packet_too_short) λ _.
          Yields-after (fail_if (not (h.type == 205) || not (h.count == 15)) err_wrong_type) λ _.
            Yields-after (uint32_at raw 4) λ sender. Yields-after (uint32_at raw 8) λ media.
              Yields-after (uint16_at raw 12) λ base. Yields-after (uint16_at raw 14) λ count.
                let memory = raw ++ spare in
                Yields-after (slice memory 16 19) λ time_bytes.
                  Yields-after (get_24_bits_from_bytes time_bytes) λ time.
                    Yields-after (slice memory 19 20) λ fb_bytes.
                      Yields-after (index fb_bytes 0) λ fb.
                        Yields-bind
                          (read_chunks-OneRun count memory total 20 [] no_deltas
                            (record { none_yet = λ _. refl; one_yet = λ r e. cc }))
                          λ found o.
                            Yields-after
                              (read_deltas found.1.pointers memory total
                                (to_uint16 (20 + to_uint16 (2 * count))) found.1.cells)
                              λ cells.
                                Yields-bind
                                  {Q = λ deltas.
                                    (r : RunLengthChunk)
                                    → found.0 ≡ run_length_chunk r ∷ []
                                    → (d : RecvDelta) × (deltas
                                        ≡ replicate
                                            (if has_delta r.packet_status_symbol
                                              then r.run_length
                                              else 0)
                                            d)}
                                  (record {
                                    value = λ deltas e r one.
                                        let s = r.packet_status_symbol in
                                        let same =
                                          ap (λ ds. ds.pointers) (o.one_yet r one)
                                          ∙ run_pointers s r.run_length in
                                        (deref_all-Yields (if has_delta s then r.run_length else 0)
                                            0 cells).value
                                          deltas (ap (deref_all cells) (sym same) ∙ e);
                                  })
                                  λ deltas shared. Yields-ok Shared _ shared

-- Where feedback is read that has one chunk, a run, all its deltas are the same: as many as the run is
-- long where its symbol, 1 or 2, comes with deltas, and none otherwise; whatever bytes the deltas are
-- read from.
pub unmarshal_run_shares :
    (raw spare : Bytes) (t : TransportLayerCc) (r : RunLengthChunk)
    → unmarshal zero_value raw spare ≡ ok t
    → t.packet_chunks ≡ run_length_chunk r ∷ []
    → (d : RecvDelta) × (t.recv_deltas
        ≡ replicate (if has_delta r.packet_status_symbol then r.run_length else 0) d)
unmarshal_run_shares raw spare t r read one = (unmarshal-Shared raw spare).value t read r one
