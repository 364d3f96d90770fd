-- ===== src/TransportLayerCc/Wire.antt =====
-- The chunks and the deltas of a feedback packet, as the bytes that they are written in.
use rtcp.Prelude.{
  ℕ, suc, ◌+◌, ◌*◌, ◌^◌, ◌≤◌, ◌<◌, ◌≡◌, ◌∙◌, refl, sym, ap, arith, length, length-append,
  append_assoc, append-nil, All, List, [], ◌∷◌, ◌++◌, ◌⊎◌, inl, inr, true, false, le→ltb_false,
  ◌==◌, if◌then◌else◌,
}
use rtcp.Result.{Result, ok, err, panic, stuck}
use rtcp.Bytes.{Bytes, make, index, copy_at, to_uint16}
use rtcp.Bytes.Laws.{make-add, length-make, copy_at_offset, slice_at}
use rtcp.Util.{get_nbits_from_byte}
use rtcp.TransportLayerCc.Chunk
use rtcp.TransportLayerCc.Chunk.{
  PacketStatusChunk, nil_chunk, run_length_chunk, status_vector_chunk,
}
use rtcp.TransportLayerCc.Delta
use rtcp.TransportLayerCc.Delta.{RecvDelta}
use rtcp.TransportLayerCc.Packet.{
  copy_written, put_chunks, put_delta, put_deltas, Deltas, append_run, append_one_bit,
  append_two_bit,
}
use rtcp.TransportLayerCc.Read.{window, read_chunk, read_chunks, read_run, read_vector}

-- What was written, if it was.
abbrev pub bytes_of : Result Bytes → Bytes
bytes_of (ok b) = b
bytes_of (err e) = []
bytes_of panic = []
bytes_of stuck = []

abbrev pub encode_deltas : List RecvDelta → Bytes
encode_deltas [] = []
encode_deltas (d ∷ deltas) = bytes_of (Delta.marshal d) ++ encode_deltas deltas

-- A delta of `type` bytes that is written and read back.
pub record DeltaCoded (type : ℕ) (d : RecvDelta) : Type 0 where
  pub same_type : d.type ≡ type
  pub written : Delta.marshal d ≡ ok (bytes_of (Delta.marshal d))
  pub size : length (bytes_of (Delta.marshal d)) ≡ type
  pub read : Delta.unmarshal (bytes_of (Delta.marshal d)) ≡ ok d

-- The two types of deltas.
abbrev pub IsDeltaType : ℕ → Type 0
IsDeltaType type = type ≡ 1 ⊎ type ≡ 2

pub put_delta-copy_at :
    (payload : Bytes) (type n i : ℕ) (d : RecvDelta)
    → IsDeltaType type
    → DeltaCoded type d
    → put_delta payload n i d ≡ copy_at payload (16 + n * 2 + i * type) (bytes_of (Delta.marshal d))
unfolding put_delta copy_written
put_delta-copy_at payload type n i d (inl one) c =
    let is : (d.type == 1) ≡ true = ground (arith, c.same_type, one) in
    let at : 16 + n * 2 + i ≡ 16 + n * 2 + i * type = rw one (omega arith) in
    rw (is, c.written) (ap (λ k. copy_at payload k (bytes_of (Delta.marshal d))) at)
put_delta-copy_at payload type n i d (inr two) c =
    let is_not : (d.type == 1) ≡ false = ground (arith, c.same_type, two) in
    let is : (d.type == 2) ≡ true = ground (arith, c.same_type, two) in
    let at : 16 + n * 2 + i * 2 ≡ 16 + n * 2 + i * type = rw two refl in
    rw (is_not, is, c.written) (ap (λ k. copy_at payload k (bytes_of (Delta.marshal d))) at)

pub put_deltas-append :
    (type n i : ℕ) (front : Bytes) (deltas : List RecvDelta) (back : Bytes)
    → IsDeltaType type
    → 16 + n * 2 + i * type ≡ length front
    → All (DeltaCoded type) deltas
    → put_deltas (front ++ (make (type * length deltas) ++ back)) n i deltas
      ≡ ok (front ++ (encode_deltas deltas ++ back))
unfolding put_deltas
put_deltas-append type n i front [] back t at c =
    let none : type * 0 ≡ 0 = omega arith in rw none refl
put_deltas-append type n i front (d ∷ deltas) back t at c =
    let b = bytes_of (Delta.marshal d) in
    let more = make (type * length deltas) in
    let room : make (type * suc (length deltas)) ≡ make type ++ more =
      ap make (grind arith) ∙ make-add type (type * length deltas) in
    let size : length b ≡ length (make type) = c.0.size ∙ sym (length-make type) in
    let next : 16 + n * 2 + (i + 1) * type ≡ length (front ++ b) =
      grind (arith, at, length-append front b, c.0.size) in
    rw
      (
        room,
        append_assoc (make type) more back,
        put_delta-copy_at (front ++ (make type ++ (more ++ back))) type n i d t c.0,
        copy_at_offset front (16 + n * 2 + i * type) b (make type) (more ++ back) at size,
        ← append_assoc front b (more ++ back),
        put_deltas-append type n (i + 1) (front ++ b) deltas back t next c.1,
        append_assoc front b (encode_deltas deltas ++ back),
        append_assoc b (encode_deltas deltas) back,
      )
      refl

abbrev pub encode_chunks : List PacketStatusChunk → Bytes
encode_chunks [] = []
encode_chunks (c ∷ chunks) = bytes_of (Chunk.marshal c) ++ encode_chunks chunks

-- The deltas that a chunk adds when it is read.
abbrev pub added : Deltas → PacketStatusChunk → Deltas
added ds nil_chunk = ds
added ds (run_length_chunk r) = append_run ds r.packet_status_symbol r.run_length
added ds (status_vector_chunk v) =
    let one = if v.symbol_size == 0 then append_one_bit ds v.symbol_list else ds in
    if v.symbol_size == 1 then append_two_bit one v.symbol_list else one

abbrev pub added_all : Deltas → List PacketStatusChunk → Deltas
added_all ds [] = ds
added_all ds (c ∷ chunks) = added_all (added ds c) chunks

-- A chunk that is written in two bytes, and read back by the reader that its first bit chooses.
pub record ChunkCoded (c : PacketStatusChunk) : Type 0 where
  pub first : ℕ
  pub second : ℕ
  pub written : Chunk.marshal c ≡ ok (first ∷ second ∷ [])
  pub read :
      (ds : Deltas)
      → (if get_nbits_from_byte first 0 1 == 0
          then read_run ds (first ∷ second ∷ [])
          else read_vector ds (first ∷ second ∷ []))
        ≡ ok (c, added ds c)

pub put_chunks-append :
    (i : ℕ) (front : Bytes) (chunks : List PacketStatusChunk) (back : Bytes)
    → 16 + i * 2 ≡ length front
    → All ChunkCoded chunks
    → put_chunks (front ++ (make (2 * length chunks) ++ back)) i chunks
      ≡ ok (front ++ (encode_chunks chunks ++ back))
unfolding put_chunks copy_written
put_chunks-append i front [] back at c = refl
put_chunks-append i front (d ∷ chunks) back at c =
    let b = c.0.first ∷ c.0.second ∷ [] in
    let more = make (2 * length chunks) in
    let room : make (2 * suc (length chunks)) ≡ make 2 ++ more =
      ap make (grind arith) ∙ make-add 2 (2 * length chunks) in
    let next : 16 + (i + 1) * 2 ≡ length (front ++ b) = omega (arith, at, length-append front b) in
    rw
      (
        room,
        c.0.written,
        copy_at_offset front (16 + i * 2) b (make 2) (more ++ back) at refl,
        ← append_assoc front b (more ++ back),
        put_chunks-append (i + 1) (front ++ b) chunks back next c.1,
        append_assoc front b (encode_chunks chunks ++ back),
      )
      refl

pub window_at :
    (front middle back : Bytes) (i n : ℕ)
    → i ≡ length front
    → n ≡ length middle
    → i + n < 2 ^ 16
    → window (front ++ (middle ++ back)) i n ≡ ok middle
unfolding window
window_at front middle back i n at size small =
    let hi : to_uint16 (i + n) ≡ i + n = omega (arith, small) in
    rw (hi, le→ltb_false (i + n) i (omega arith))
      (slice_at front middle back i (i + n) at (omega (arith, size)))

read_chunk-append :
    (i : ℕ) (front : Bytes) (c : PacketStatusChunk) (back : Bytes) (ds : Deltas)
    → i ≡ length front
    → i + 2 < 2 ^ 16
    → ChunkCoded c
    → read_chunk (front ++ (bytes_of (Chunk.marshal c) ++ back)) i ds ≡ ok (c, added ds c)
unfolding read_chunk index
read_chunk-append i front c back ds at small k =
    let one = window_at front (k.first ∷ []) (k.second ∷ back) i 1 at refl (omega (arith, small)) in
    let two = window_at front (k.first ∷ k.second ∷ []) back i 2 at refl small in
    rw (k.written, one, two) (k.read ds)

pub read_chunks-append :
    (total i : ℕ) (front : Bytes) (chunks : List PacketStatusChunk) (back : Bytes)
    (found : List PacketStatusChunk) (ds : Deltas)
    → i ≡ length front
    → i + 2 * length chunks ≤ total
    → total < 65533
    → All ChunkCoded chunks
    → read_chunks (length chunks) (front ++ (encode_chunks chunks ++ back)) total i found ds
      ≡ ok (found ++ chunks, added_all ds chunks)
unfolding read_chunks
read_chunks-append total i front [] back found ds at room small c = rw (append-nil found) refl
read_chunks-append total i front (d ∷ chunks) back found ds at room small c =
    let b = bytes_of (Chunk.marshal d) in
    let two : length b ≡ 2 = rw (c.0.written) refl in
    let next : to_uint16 (i + 2) ≡ length (front ++ b) =
      omega (arith, at, room, small, two, length-append front b) in
    rw
      (
        le→ltb_false total i (omega (arith, room)),
        append_assoc b (encode_chunks chunks) back,
        read_chunk-append i front d (encode_chunks chunks ++ back) ds at
            (omega (arith, room, small)) c.0,
        ← append_assoc front b (encode_chunks chunks ++ back),
        read_chunks-append total (to_uint16 (i + 2)) (front ++ b) chunks back (found ++ (d ∷ []))
            (added ds d) next (omega (arith, room, small)) small c.1,
        append_assoc found (d ∷ []) chunks,
      )
      refl

pub length-encode_chunks :
    (chunks : List PacketStatusChunk)
    → All ChunkCoded chunks
    → length (encode_chunks chunks) ≡ 2 * length chunks
length-encode_chunks [] c = refl
length-encode_chunks (d ∷ chunks) c =
    let b = bytes_of (Chunk.marshal d) in
    let two : length b ≡ 2 = rw (c.0.written) refl in
    omega (arith, two, length-append b (encode_chunks chunks), length-encode_chunks chunks c.1)

pub length-encode_deltas :
    (type : ℕ) (deltas : List RecvDelta)
    → All (DeltaCoded type) deltas
    → length (encode_deltas deltas) ≡ type * length deltas
length-encode_deltas type [] c = omega arith
length-encode_deltas type (d ∷ deltas) c =
    let b = bytes_of (Delta.marshal d) in
    grind (
      arith,
      c.0.size,
      length-append b (encode_deltas deltas),
      length-encode_deltas type deltas c.1,
    )
