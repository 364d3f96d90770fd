-- ===== src/SourceDescription/Packet.antt =====
-- `SourceDescription`: the packet.
use rtcp.Prelude.{
  ℕ, zero, suc, ◌+◌, ◌-◌, ◌/◌, false, not, ltb, ◌==◌, length, drop, map, List, [], ◌∷◌, ◌++◌,
}
use rtcp.Result.{
  Result, ok, stuck, ◌>>=◌, ◌>>◌, fail_if, err_too_many_chunks, err_wrong_type, err_invalid_header,
}
use rtcp.Bytes.{Bytes, to_uint8, to_uint16, make, copy, copy_at, slice_from}
use rtcp.Header
use rtcp.Header.{Header, header_length, count_max, type_source_description}
use rtcp.SourceDescription.Chunk
use rtcp.SourceDescription.Chunk.{SourceDescriptionChunk}

pub record SourceDescription : Type 0 where
  pub chunks : List SourceDescriptionChunk

-- The sum of `c.len()` over the chunks.
unfoldable pub chunks_len : List SourceDescriptionChunk → ℕ
chunks_len [] = 0
chunks_len (c ∷ chunks) = Chunk.len c + chunks_len chunks

-- `(s *SourceDescription) len`
unfoldable pub len : SourceDescription → ℕ
len s = header_length + chunks_len s.chunks

-- `(s *SourceDescription) Header`
unfoldable pub header : SourceDescription → Header
header s = record {
  padding = false;
  count = to_uint8 (length s.chunks);
  type = type_source_description;
  length = to_uint16 (len s / 4 - 1);
}

-- The loop of `Marshal`, on the packet and the offset of the chunk in its body.
unfoldable pub marshal_chunks : Bytes → ℕ → List SourceDescriptionChunk → Result Bytes
marshal_chunks raw chunk_offset [] = ok raw
marshal_chunks raw chunk_offset (c ∷ chunks) = do
  bytes ← Chunk.marshal c
  raw' ← copy_at raw (header_length + chunk_offset) bytes
  marshal_chunks raw' (chunk_offset + length bytes) chunks

-- `(s SourceDescription) Marshal`
unfoldable pub marshal : SourceDescription → Result Bytes
marshal s = do
  raw ← marshal_chunks (make (len s)) 0 s.chunks
  fail_if (ltb count_max (length s.chunks)) err_too_many_chunks
  h_data ← Header.marshal (header s)
  ok (copy raw h_data)

-- The loop of `Unmarshal`: `rest` is `rawPacket[i:]`, and `i` moves on by `chunk.len()`.
unfoldable pub unmarshal_chunks :
    ℕ → Bytes → List SourceDescriptionChunk → Result (List SourceDescriptionChunk)
unmarshal_chunks fuel [] chunks = ok chunks
unmarshal_chunks zero (b ∷ rest) chunks = stuck
unmarshal_chunks (suc fuel) (b ∷ rest) chunks = do
  c ← Chunk.unmarshal (record { source = 0; items = [] }) (b ∷ rest)
  unmarshal_chunks fuel (drop (Chunk.len c) (b ∷ rest)) (chunks ++ (c ∷ []))

-- `(s *SourceDescription) Unmarshal`: `s` is the packet there before, whose chunks stay in front.
-- Each chunk takes bytes, so `len(rawPacket)` rounds are enough.
unfoldable pub unmarshal : SourceDescription → Bytes → Result SourceDescription
unmarshal s raw = do
  h ← Header.unmarshal raw
  fail_if (not (h.type == type_source_description)) err_wrong_type
  rest ← slice_from raw header_length
  chunks ← unmarshal_chunks (length raw) rest s.chunks
  fail_if (not (length chunks == h.count)) err_invalid_header
  ok (record { chunks = chunks })

-- `(s *SourceDescription) DestinationSSRC`
unfoldable pub destination_ssrc : SourceDescription → List ℕ
destination_ssrc s = map (λ c. c.source) s.chunks
