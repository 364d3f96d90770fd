-- ===== src/TransportLayerCc/Coded.antt =====
-- The chunks that fit, as the two bytes that are read back.
use rtcp.Prelude.{ℕ, suc, ◌+◌, ◌*◌, ◌/◌, ◌%◌, ◌^◌, ◌≡◌, ◌∙◌, refl, All, List, [], ◌∷◌, ◌++◌}
use rtcp.Bytes.{Bytes}
use rtcp.TransportLayerCc.Chunk
use rtcp.TransportLayerCc.Chunk.{
  PacketStatusChunk, RunLengthChunk, StatusVectorChunk, nil_chunk, run_length_chunk,
  status_vector_chunk, unmarshal_status_vector, unmarshal_run_length,
}
use rtcp.Prelude.Digits.{horner}
use rtcp.TransportLayerCc.RunLength.{run_bytes, unmarshal-marshal_run_length}
use rtcp.TransportLayerCc.StatusVector.{vector_bytes, unmarshal-marshal_status_vector}
use rtcp.TransportLayerCc.Read.{read_run, read_vector}
use rtcp.TransportLayerCc.Wire.{ChunkCoded}
use rtcp.Result.{ok, bind-of_ok}
use rtcp.TransportLayerCc.Arrivals.{FitsChunk}

run-Coded :
    (type : ℕ) (r : RunLengthChunk)
    → FitsChunk type (run_length_chunk r)
    → ChunkCoded (run_length_chunk r)
unfolding Chunk.marshal read_run
run-Coded type r (f, _) =
    let w = r.packet_status_symbol * 2 ^ 13 + r.run_length in
    let a = w / 2 ^ 8 % 256 in
    let b = w % 256 in
    let (written, leading) = run_bytes r f in
    let back : unmarshal_run_length (a ∷ b ∷ []) ≡ ok r =
      bind-of_ok unmarshal_run_length written (unmarshal-marshal_run_length r f) in
    record { first = a; second = b; written = written; read = λ ds. rw (leading, back) refl }

-- The vector there before does not matter where it has no symbols.
from_empty :
    (raw : Bytes)
    → unmarshal_status_vector (record { type = 1; symbol_size = 0; symbol_list = [] }) raw
      ≡ unmarshal_status_vector (record { type = 0; symbol_size = 0; symbol_list = [] }) raw
unfolding unmarshal_status_vector
from_empty raw = refl

vector-Coded :
    (type : ℕ) (v : StatusVectorChunk)
    → FitsChunk type (status_vector_chunk v)
    → ChunkCoded (status_vector_chunk v)
unfolding Chunk.marshal read_vector
vector-Coded type v (f, _) =
    let w = horner (2 ^ suc v.symbol_size) (2 + v.symbol_size) (f.first ++ f.second) in
    let a = w / 2 ^ 8 % 256 in
    let b = w % 256 in
    let (written, leading) = vector_bytes v f in
    let empty : StatusVectorChunk = record { type = 0; symbol_size = 0; symbol_list = [] } in
    let back : unmarshal_status_vector (record { type = 1; symbol_size = 0; symbol_list = [] })
          (a ∷ b ∷ [])
        ≡ ok v =
      from_empty (a ∷ b ∷ [])
      ∙ bind-of_ok (unmarshal_status_vector empty) written (unmarshal-marshal_status_vector v f) in
    record { first = a; second = b; written = written; read = λ ds. rw (leading, back) refl }

pub chunks-Coded :
    (type : ℕ) (chunks : List PacketStatusChunk)
    → All (FitsChunk type) chunks
    → All ChunkCoded chunks
chunks-Coded type [] f = tt
chunks-Coded type (nil_chunk ∷ chunks) f = absurd f.0
chunks-Coded type (run_length_chunk r ∷ chunks) f =
    (run-Coded type r f.0, chunks-Coded type chunks f.1)
chunks-Coded type (status_vector_chunk v ∷ chunks) f =
    (vector-Coded type v f.0, chunks-Coded type chunks f.1)
