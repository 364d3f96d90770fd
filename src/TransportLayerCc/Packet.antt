-- ===== src/TransportLayerCc/Packet.antt =====
-- `TransportLayerCC`: the whole feedback packet.
use rtcp.Prelude.{
  ℕ, zero, suc, ◌+◌, ◌-◌, ◌*◌, ◌/◌, ◌%◌, Bool, false, ◌||◌, ◌==◌, if◌then◌else◌, length, replicate,
  List, [], ◌∷◌, ◌++◌,
}
use rtcp.Result.{Result, ok, err, panic, stuck, ◌>>=◌}
use rtcp.Bytes.{Bytes, make, put, copy_at, be16, be32}
use rtcp.Util.{append_nbits_to_uint32}
use rtcp.Header
use rtcp.Header.{Header, header_length, ssrc_length, format_tcc, type_transport_specific_feedback}
use rtcp.TransportLayerCc.Chunk
use rtcp.TransportLayerCc.Chunk.{
  PacketStatusChunk, run_length_chunk, status_vector_chunk, type_run_length_chunk,
  type_symbol_size_one_bit, type_symbol_size_two_bit, type_packet_received_small_delta,
  type_packet_received_large_delta,
}
use rtcp.TransportLayerCc.Delta
use rtcp.TransportLayerCc.Delta.{RecvDelta, ℤ, pos, quot, is_small, is_large, delta_250us}

abbrev pub base_sequence_number_offset : ℕ
base_sequence_number_offset = 8

abbrev pub packet_status_count_offset : ℕ
packet_status_count_offset = 10

abbrev pub reference_time_offset : ℕ
reference_time_offset = 12

abbrev pub fb_pkt_count_offset : ℕ
fb_pkt_count_offset = 15

abbrev pub packet_chunk_offset : ℕ
packet_chunk_offset = 16

pub record TransportLayerCc : Type 0 where
  pub header : Header
  pub sender_ssrc : ℕ
  pub media_ssrc : ℕ
  pub base_sequence_number : ℕ
  pub packet_status_count : ℕ
  pub reference_time : ℕ
  pub fb_pkt_count : ℕ
  pub packet_chunks : List PacketStatusChunk
  -- What the pointers of the source's slice point to.
  pub recv_deltas : List RecvDelta

-- `new(TransportLayerCC)`
abbrev pub zero_value : TransportLayerCc
zero_value = record {
  header = record { padding = false; count = 0; type = 0; length = 0 };
  sender_ssrc = 0;
  media_ssrc = 0;
  base_sequence_number = 0;
  packet_status_count = 0;
  reference_time = 0;
  fb_pkt_count = 0;
  packet_chunks = [];
  recv_deltas = [];
}

-- The loop of `len`: the bytes of the deltas.
unfoldable pub deltas_len : List RecvDelta → ℕ
deltas_len [] = 0
deltas_len (d ∷ deltas) =
    let rest = deltas_len deltas in
    let delta = quot d.delta delta_250us in
    (if is_small delta then 1 else if is_large delta then 2 else 0) + rest

-- `(t *TransportLayerCC) len`
unfoldable pub len : TransportLayerCc → ℕ
len t =
    let n =
      header_length + packet_chunk_offset + length t.packet_chunks * 2 + deltas_len t.recv_deltas in
    if n % 4 == 0 then n else (n / 4 + 1) * 4

-- `if err == nil { copy(payload[i:], b) }`
unfoldable pub copy_written : Bytes → ℕ → Result Bytes → Result Bytes
copy_written payload i (ok b) = copy_at payload i b
copy_written payload i (err e) = ok payload
copy_written payload i panic = panic
copy_written payload i stuck = stuck

-- The loop over the chunks, from chunk `i` on.
unfoldable pub put_chunks : Bytes → ℕ → List PacketStatusChunk → Result Bytes
put_chunks payload i [] = ok payload
put_chunks payload i (c ∷ chunks) = do
  payload' ← copy_written payload (packet_chunk_offset + i * 2) (Chunk.marshal c)
  put_chunks payload' (i + 1) chunks

-- One round of the loop over the deltas: delta `i`, `n` chunks before it.
unfoldable pub put_delta : Bytes → ℕ → ℕ → RecvDelta → Result Bytes
put_delta payload n i d =
    let start = packet_chunk_offset + n * 2 in
    let small = copy_written payload (start + i) (Delta.marshal d) in
    let large = copy_written payload (start + i * 2) (Delta.marshal d) in
    if d.type == type_packet_received_small_delta
    then small
    else if d.type == type_packet_received_large_delta
    then large
    else ok payload

-- The loop over the deltas, from delta `i` on.
unfoldable pub put_deltas : Bytes → ℕ → ℕ → List RecvDelta → Result Bytes
put_deltas payload n i [] = ok payload
put_deltas payload n i (d ∷ deltas) = do
  payload' ← put_delta payload n i d
  put_deltas payload' n (i + 1) deltas

-- `(t TransportLayerCC) Marshal`
unfoldable pub marshal : TransportLayerCc → Result Bytes
marshal t = do
  h_data ← Header.marshal t.header
  payload ← put (make (len t - header_length)) 0 (be32 t.sender_ssrc)
  payload ← put payload 4 (be32 t.media_ssrc)
  payload ← put payload base_sequence_number_offset (be16 t.base_sequence_number)
  payload ← put payload packet_status_count_offset (be16 t.packet_status_count)
  let time = append_nbits_to_uint32 0 24 t.reference_time
  payload ← put payload reference_time_offset (be32 (append_nbits_to_uint32 time 8 t.fb_pkt_count))
  payload ← put_chunks payload 0 t.packet_chunks
  payload ← put_deltas payload (length t.packet_chunks) 0 t.recv_deltas
  ok (h_data ++ payload)

-- The `RecvDelta`s in memory, and the pointers of `t.RecvDeltas`, which are positions there.
pub record Deltas : Type 0 where
  pub cells : List RecvDelta
  pub pointers : List ℕ

-- `*p`
unfoldable pub deref : List RecvDelta → ℕ → Result RecvDelta
deref [] p = panic
deref (c ∷ cells) zero = ok c
deref (c ∷ cells) (suc p) = deref cells p

-- `*p = d`
unfoldable pub store : List RecvDelta → ℕ → RecvDelta → List RecvDelta
store [] p d = []
store (c ∷ cells) zero d = d ∷ cells
store (c ∷ cells) (suc p) d = c ∷ store cells p d

-- `d := &RecvDelta{Type: typ}`, and `n` times `t.RecvDeltas = append(t.RecvDeltas, d)`.
unfoldable pub append_new : Deltas → ℕ → ℕ → Deltas
append_new ds type n = record {
  cells = ds.cells ++ (record { type = type; delta = pos 0 } ∷ []);
  pointers = ds.pointers ++ replicate n (length ds.cells);
}

-- Symbols 1 and 2 come with a delta.
abbrev pub has_delta : ℕ → Bool
has_delta s = s == type_packet_received_small_delta || s == type_packet_received_large_delta

-- A run of one symbol appends one pointer as often as the run is long.
unfoldable pub append_run : Deltas → ℕ → ℕ → Deltas
append_run ds s n = if has_delta s then append_new ds s n else ds

-- The loops over the symbols of a vector: a new delta for each symbol of one bit that is set.
unfoldable pub append_one_bit : Deltas → List ℕ → Deltas
append_one_bit ds [] = ds
append_one_bit ds (s ∷ symbols) =
    let ds' =
      if s == type_packet_received_small_delta
      then append_new ds type_packet_received_small_delta 1
      else ds in
    append_one_bit ds' symbols

unfoldable pub append_two_bit : Deltas → List ℕ → Deltas
append_two_bit ds [] = ds
append_two_bit ds (s ∷ symbols) =
    append_two_bit (if has_delta s then append_new ds s 1 else ds) symbols
