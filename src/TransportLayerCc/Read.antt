-- ===== src/TransportLayerCc/Read.antt =====
-- `TransportLayerCC.Unmarshal`: the chunks, then a delta for each symbol that comes with one.
use rtcp.Prelude.{
  ℕ, zero, suc, ◌+◌, ◌*◌, not, ◌||◌, ltb, leb, ◌==◌, if◌then◌else◌, length, List, [], ◌∷◌, ◌++◌,
}
use rtcp.Result.{Result, ok, panic, ◌>>=◌, ◌>>◌, fail_if, err_packet_too_short, err_wrong_type}
use rtcp.Bytes.{Bytes, to_uint16, index, slice, uint16_at, uint32_at}
use rtcp.Util.{get_nbits_from_byte, get_24_bits_from_bytes}
use rtcp.Header
use rtcp.Header.{header_length, ssrc_length, format_tcc, type_transport_specific_feedback}
use rtcp.TransportLayerCc.Chunk.{
  PacketStatusChunk, run_length_chunk, status_vector_chunk, type_run_length_chunk,
  type_symbol_size_one_bit, type_symbol_size_two_bit, type_packet_received_small_delta,
  type_packet_received_large_delta, unmarshal_run_length, unmarshal_status_vector,
}
use rtcp.TransportLayerCc.Delta
use rtcp.TransportLayerCc.Delta.{RecvDelta}
use rtcp.TransportLayerCc.Packet.{
  TransportLayerCc, base_sequence_number_offset, packet_status_count_offset, reference_time_offset,
  fb_pkt_count_offset, packet_chunk_offset, Deltas, deref, store, append_run, append_one_bit,
  append_two_bit,
}

-- `rawPacket[i:i+n]` with a uint16 `i`. The bounds of a Go slice may reach into the capacity, which
-- `memory` holds too.
unfoldable pub window : Bytes → ℕ → ℕ → Result Bytes
window memory i n = let hi = to_uint16 (i + n) in if ltb hi i then panic else slice memory i hi

-- The numbers from `i` on.
unfoldable pub upto : ℕ → ℕ → List ℕ
upto i zero = []
upto i (suc n) = i ∷ upto (i + 1) n

-- The deltas there before stay in front; they are taken to be different objects.
unfoldable pub initial : List RecvDelta → Deltas
initial deltas = record { cells = deltas; pointers = upto 0 (length deltas) }

-- What a run adds.
unfoldable pub read_run : Deltas → Bytes → Result (PacketStatusChunk × Deltas)
read_run ds b = do
  r ← unmarshal_run_length b
  ok (run_length_chunk r, append_run ds r.packet_status_symbol r.run_length)

-- What a vector adds.
unfoldable pub read_vector : Deltas → Bytes → Result (PacketStatusChunk × Deltas)
read_vector ds b = do
  v ← unmarshal_status_vector (record { type = 1; symbol_size = 0; symbol_list = [] }) b
  let one =
      if v.symbol_size == type_symbol_size_one_bit then append_one_bit ds v.symbol_list else ds
  let two =
      if v.symbol_size == type_symbol_size_two_bit then append_two_bit one v.symbol_list else one
  ok (status_vector_chunk v, two)

-- One round of the loop over the chunks, at position `i`. The type is one bit.
unfoldable pub read_chunk : Bytes → ℕ → Deltas → Result (PacketStatusChunk × Deltas)
read_chunk memory i ds = do
  first ← window memory i 1
  b ← index first 0
  let run = window memory i 2 >>= read_run ds
  let vector = window memory i 2 >>= read_vector ds
  if get_nbits_from_byte b 0 1 == type_run_length_chunk then run else vector

-- The loop over the chunks, `n` of them, from position `i` on.
unfoldable pub read_chunks :
    ℕ → Bytes → ℕ → ℕ → List PacketStatusChunk → Deltas → Result (List PacketStatusChunk × Deltas)
read_chunks zero memory total i chunks ds = ok (chunks, ds)
read_chunks (suc n) memory total i chunks ds = do
  fail_if (ltb total i) err_packet_too_short
  (c, ds') ← read_chunk memory i ds
  read_chunks n memory total (to_uint16 (i + 2)) (chunks ++ (c ∷ [])) ds'

-- `*delta` read from the `n` bytes at position `i`, and the position behind them.
unfoldable pub read_cell : Bytes → List RecvDelta → ℕ → ℕ → ℕ → Result (List RecvDelta × ℕ)
read_cell memory cells p i n = do
  b ← window memory i n
  d ← Delta.unmarshal b
  ok (store cells p d, to_uint16 (i + n))

-- One round of the loop over the deltas: the cells, and the next position.
unfoldable pub read_delta : Bytes → List RecvDelta → ℕ → ℕ → Result (List RecvDelta × ℕ)
read_delta memory cells p i = do
  d ← deref cells p
  let small = read_cell memory cells p i 1
  let large = read_cell memory cells p i 2
  if d.type == type_packet_received_small_delta
      then small
      else if d.type == type_packet_received_large_delta
      then large
      else ok (cells, i)

-- The loop over the pointers to the deltas, from position `i` on.
unfoldable pub read_deltas : List ℕ → Bytes → ℕ → ℕ → List RecvDelta → Result (List RecvDelta)
read_deltas [] memory total i cells = ok cells
read_deltas (p ∷ pointers) memory total i cells = do
  fail_if (leb total i) err_packet_too_short
  (cells', i') ← read_delta memory cells p i
  read_deltas pointers memory total i' cells'

-- What the pointers point to.
unfoldable pub deref_all : List RecvDelta → List ℕ → Result (List RecvDelta)
deref_all cells [] = ok []
deref_all cells (p ∷ pointers) = do
  d ← deref cells p
  rest ← deref_all cells pointers
  ok (d ∷ rest)

-- `(t *TransportLayerCC) Unmarshal`: `t` is the packet there before, whose chunks and deltas stay in
-- front, and `spare` are the bytes behind `raw` up to its capacity.
unfoldable pub unmarshal : TransportLayerCc → Bytes → Bytes → Result TransportLayerCc
unmarshal t raw spare = do
  fail_if (ltb (length raw) (header_length + ssrc_length)) err_packet_too_short
  h ← Header.unmarshal raw
  let total_length = to_uint16 (4 * to_uint16 (h.length + 1))
  fail_if (leb total_length (header_length + packet_chunk_offset)) err_packet_too_short
  fail_if (ltb (length raw) total_length) err_packet_too_short
  fail_if (not (h.type == type_transport_specific_feedback) || not (h.count == format_tcc))
      err_wrong_type
  sender_ssrc ← uint32_at raw header_length
  media_ssrc ← uint32_at raw (header_length + ssrc_length)
  base_sequence_number ← uint16_at raw (header_length + base_sequence_number_offset)
  packet_status_count ← uint16_at raw (header_length + packet_status_count_offset)
  let memory = raw ++ spare
  time_bytes ←
      slice memory (header_length + reference_time_offset)
        (header_length + reference_time_offset + 3)
  reference_time ← get_24_bits_from_bytes time_bytes
  fb_bytes ←
      slice memory (header_length + fb_pkt_count_offset) (header_length + fb_pkt_count_offset + 1)
  fb_pkt_count ← index fb_bytes 0
  let first = header_length + packet_chunk_offset
  (chunks, ds) ←
      read_chunks packet_status_count memory total_length first t.packet_chunks
        (initial t.recv_deltas)
  let deltas_pos = to_uint16 (first + to_uint16 (2 * packet_status_count))
  cells ← read_deltas ds.pointers memory total_length deltas_pos ds.cells
  recv_deltas ← deref_all cells ds.pointers
  ok (record {
    header = h;
    sender_ssrc = sender_ssrc;
    media_ssrc = media_ssrc;
    base_sequence_number = base_sequence_number;
    packet_status_count = packet_status_count;
    reference_time = reference_time;
    fb_pkt_count = fb_pkt_count;
    packet_chunks = chunks;
    recv_deltas = recv_deltas;
  })

-- `(t TransportLayerCC) DestinationSSRC`
unfoldable pub destination_ssrc : TransportLayerCc → List ℕ
destination_ssrc t = t.media_ssrc ∷ []
