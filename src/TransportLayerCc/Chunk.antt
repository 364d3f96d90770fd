-- ===== src/TransportLayerCc/Chunk.antt =====
-- The packet status chunks: a run of one symbol, or a vector of symbols, in two bytes.
use rtcp.Prelude.{
  ℕ, zero, suc, ◌+◌, ◌*◌, ◌^◌, ◌%◌, not, ◌==◌, if◌then◌else◌, length, List, [], ◌∷◌, ◌++◌,
}
use rtcp.Result.{Result, ok, panic, ◌>>=◌, ◌>>◌, fail_if, err_packet_status_chunk_length}
use rtcp.Bytes.{Bytes, to_uint16, make, index, put, be16}
use rtcp.Util.{append_nbits_to_uint16, get_nbits_from_byte}

abbrev pub type_run_length_chunk : ℕ
type_run_length_chunk = 0

abbrev pub type_status_vector_chunk : ℕ
type_status_vector_chunk = 1

-- `packetStautsChunkLength`
abbrev pub packet_status_chunk_length : ℕ
packet_status_chunk_length = 2

abbrev pub type_symbol_size_one_bit : ℕ
type_symbol_size_one_bit = 0

abbrev pub type_symbol_size_two_bit : ℕ
type_symbol_size_two_bit = 1

-- The symbols that come with a delta.
abbrev pub type_packet_received_small_delta : ℕ
type_packet_received_small_delta = 1

abbrev pub type_packet_received_large_delta : ℕ
type_packet_received_large_delta = 2

pub record RunLengthChunk : Type 0 where
  pub type : ℕ
  pub packet_status_symbol : ℕ
  pub run_length : ℕ

pub record StatusVectorChunk : Type 0 where
  pub type : ℕ
  pub symbol_size : ℕ
  pub symbol_list : List ℕ

-- `iPacketStautsChunk`: an interface value, which may be nil.
pub data PacketStatusChunk : Type 0 where
  nil_chunk : PacketStatusChunk
  run_length_chunk : RunLengthChunk → PacketStatusChunk
  status_vector_chunk : StatusVectorChunk → PacketStatusChunk

-- `(r RunLengthChunk) Marshal`
unfoldable pub marshal_run_length : RunLengthChunk → Result Bytes
unfolding put
marshal_run_length r =
    let chunk = make 2 in
    let dst = append_nbits_to_uint16 0 1 0 in
    let dst1 = append_nbits_to_uint16 dst 2 r.packet_status_symbol in
    let dst2 = append_nbits_to_uint16 dst1 13 r.run_length in put chunk 0 (be16 dst2)

-- `(r *RunLengthChunk) Unmarshal`. Every field is assigned.
unfoldable pub unmarshal_run_length : Bytes → Result RunLengthChunk
unfolding index
unmarshal_run_length raw = do
  fail_if (not (length raw == packet_status_chunk_length)) err_packet_status_chunk_length
  a ← index raw 0
  b ← index raw 1
  ok (record {
    type = type_run_length_chunk;
    packet_status_symbol = get_nbits_from_byte a 1 2;
    run_length = to_uint16 (get_nbits_from_byte a 3 5 * 2 ^ 8 % 2 ^ 16 + b);
  })

-- The loop of `(r StatusVectorChunk) Marshal` over the symbols.
unfoldable pub append_symbols : ℕ → ℕ → List ℕ → ℕ
append_symbols size dst [] = dst
append_symbols size dst (s ∷ symbols) =
    let dst1 = if size == type_symbol_size_one_bit then append_nbits_to_uint16 dst 1 s else dst in
    let dst2 = if size == type_symbol_size_two_bit then append_nbits_to_uint16 dst1 2 s else dst1 in
    append_symbols size dst2 symbols

-- `(r StatusVectorChunk) Marshal`
unfoldable pub marshal_status_vector : StatusVectorChunk → Result Bytes
unfolding put
marshal_status_vector r =
    let chunk = make 2 in
    let dst = append_nbits_to_uint16 0 1 1 in
    let dst1 = append_nbits_to_uint16 dst 1 r.symbol_size in
    put chunk 0 (be16 (append_symbols r.symbol_size dst1 r.symbol_list))

-- `n` symbols of `width` bits from the byte `b`, the first at bit `begin`.
unfoldable pub symbols_from : ℕ → ℕ → ℕ → ℕ → List ℕ
symbols_from zero b begin width = []
symbols_from (suc n) b begin width =
    get_nbits_from_byte b begin width ∷ symbols_from n b (begin + width) width

-- `(r *StatusVectorChunk) Unmarshal`: the symbols there before stay in front.
unfoldable pub unmarshal_status_vector : StatusVectorChunk → Bytes → Result StatusVectorChunk
unfolding index
unmarshal_status_vector r raw = do
  fail_if (not (length raw == packet_status_chunk_length)) err_packet_status_chunk_length
  a ← index raw 0
  b ← index raw 1
  let size = get_nbits_from_byte a 1 1
  let one = r.symbol_list ++ (symbols_from 6 a 2 1 ++ symbols_from 8 b 0 1)
  let two = r.symbol_list ++ (symbols_from 3 a 2 2 ++ symbols_from 4 b 0 2)
  let other = to_uint16 (get_nbits_from_byte a 2 6 * 2 ^ 8 % 2 ^ 16 + b)
  ok (
      if size == type_symbol_size_one_bit
      then record { type = type_status_vector_chunk; symbol_size = size; symbol_list = one }
      else if size == type_symbol_size_two_bit
      then record { type = type_status_vector_chunk; symbol_size = size; symbol_list = two }
      else record {
        type = type_status_vector_chunk;
        symbol_size = other;
        symbol_list = r.symbol_list;
      })

-- `chunk.Marshal()` through the interface: a nil value panics.
unfoldable pub marshal : PacketStatusChunk → Result Bytes
marshal nil_chunk = panic
marshal (run_length_chunk r) = marshal_run_length r
marshal (status_vector_chunk r) = marshal_status_vector r
