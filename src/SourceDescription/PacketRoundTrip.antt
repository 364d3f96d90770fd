-- ===== src/SourceDescription/PacketRoundTrip.antt =====
-- The bytes of a whole packet, and what is read back from them.
use rtcp.Prelude.{
  ℕ, zero, suc, ◌+◌, ◌%◌, ◌≤◌, ◌<◌, ◌≡◌, ◌∙◌, refl, sym, ap, arith, length, drop, All, List, [],
  ◌∷◌, ◌++◌, append_assoc, append-nil, length-append, le→ltb_false, drop_append, ==_refl,
}
use rtcp.Result.{ok, ◌>>=◌}
use rtcp.Bytes.{Bytes, make, to_uint8}
use rtcp.Bytes.Laws.{length-make, make-add, copy_at_offset}
use rtcp.Header
use rtcp.Header.Wire
use rtcp.SourceDescription.Chunk
use rtcp.SourceDescription.Chunk.{SourceDescriptionChunk}
use rtcp.SourceDescription.Packet.{
  SourceDescription, chunks_len, len, header, marshal_chunks, marshal, unmarshal_chunks, unmarshal,
}
use rtcp.SourceDescription.RoundTrip.{
  IsValidChunk, encode_chunk, length-encode_chunk, chunk_len_bounds, marshal-encode_chunk,
  unmarshal-encode_chunk,
}

-- A packet that can be written: at most 31 chunks, each of them valid.
pub record IsValid (s : SourceDescription) : Type 0 where
  pub few_chunks : length s.chunks ≤ 31
  pub chunks_valid : All IsValidChunk s.chunks

abbrev pub encode_chunks : List SourceDescriptionChunk → Bytes
encode_chunks [] = []
encode_chunks (c ∷ chunks) = encode_chunk c ++ encode_chunks chunks

unfoldable pub encode : SourceDescription → Bytes
encode s = Wire.encode (header s) ++ encode_chunks s.chunks

pub length-encode_chunks :
    (chunks : List SourceDescriptionChunk) → length (encode_chunks chunks) ≡ chunks_len chunks
unfolding chunks_len
length-encode_chunks [] = refl
length-encode_chunks (c ∷ chunks) = omega (
  arith,
  length-append (encode_chunk c) (encode_chunks chunks),
  length-encode_chunk c,
  length-encode_chunks chunks,
)

chunks_multiple : (chunks : List SourceDescriptionChunk) → chunks_len chunks % 4 ≡ 0
unfolding chunks_len
chunks_multiple [] = refl
chunks_multiple (c ∷ chunks) = omega (arith, (chunk_len_bounds c).0, chunks_multiple chunks)

pub length-encode : (s : SourceDescription) → length (encode s) ≡ len s
unfolding encode len
length-encode s = Wire.length-encode (header s) _ ∙ omega (arith, length-encode_chunks s.chunks)

pub header-IsValid : (s : SourceDescription) → IsValid s → Header.IsValid (header s)
unfolding header
header-IsValid s v = record {
  count_bound = omega (arith, v.few_chunks);
  type_bound = omega arith;
  length_bound = omega arith;
}

marshal_chunks-append :
    (front : Bytes) (k : ℕ) (chunks : List SourceDescriptionChunk)
    → 4 + k ≡ length front
    → All IsValidChunk chunks
    → marshal_chunks (front ++ make (chunks_len chunks)) k chunks
      ≡ ok (front ++ encode_chunks chunks)
unfolding marshal_chunks chunks_len
marshal_chunks-append front k [] e v = refl
marshal_chunks-append front k (c ∷ chunks) e v =
    let n = Chunk.len c in
    let back = make (chunks_len chunks) in
    let size = length-encode_chunk c in
    let placed =
      copy_at_offset front (4 + k) (encode_chunk c) (make n) back e (size ∙ sym (length-make n)) in
    let again =
      marshal_chunks-append (front ++ encode_chunk c) (k + length (encode_chunk c)) chunks
        (omega (arith, length-append front (encode_chunk c))) v.1 in
    rw (marshal-encode_chunk c v.0, make-add n (chunks_len chunks), placed)
      (rw (← append_assoc front (encode_chunk c) back)
        (again ∙ ap ok (append_assoc front (encode_chunk c) (encode_chunks chunks))))

pub marshal-encode : (s : SourceDescription) → IsValid s → marshal s ≡ ok (encode s)
unfolding marshal len encode
marshal-encode s v =
    rw
      (
        make-add 4 (chunks_len s.chunks),
        marshal_chunks-append (make 4) 0 s.chunks refl v.chunks_valid,
        le→ltb_false 31 (length s.chunks) v.few_chunks,
        Wire.marshal-encode (header s) (header-IsValid s v),
      )
      (ap ok (Wire.copy-encode (header s) (encode_chunks s.chunks)))

unmarshal_chunks_step :
    (fuel : ℕ) (raw : Bytes) (acc : List SourceDescriptionChunk) {c : SourceDescriptionChunk}
    → 0 < length raw
    → Chunk.unmarshal (record { source = 0; items = [] }) raw ≡ ok c
    → unmarshal_chunks (suc fuel) raw acc
      ≡ unmarshal_chunks fuel (drop (Chunk.len c) raw) (acc ++ (c ∷ []))
unfolding unmarshal_chunks
unmarshal_chunks_step fuel [] acc h e = absurd (omega arith)
unmarshal_chunks_step fuel (b ∷ raw) acc h e = rw e

drop_chunk :
    (c : SourceDescriptionChunk) (rest : Bytes) → drop (Chunk.len c) (encode_chunk c ++ rest) ≡ rest
drop_chunk c rest = rw (← length-encode_chunk c) (drop_append (encode_chunk c) rest)

first_is_long :
    (c : SourceDescriptionChunk) (chunks : List SourceDescriptionChunk)
    → 5 + length (encode_chunks chunks) ≤ length (encode_chunks (c ∷ chunks))
first_is_long c chunks = omega (
  arith,
  length-append (encode_chunk c) (encode_chunks chunks),
  length-encode_chunk c,
  (chunk_len_bounds c).1,
)

unmarshal_chunks-encode :
    (fuel : ℕ) (chunks acc : List SourceDescriptionChunk)
    → length (encode_chunks chunks) ≤ fuel
    → All IsValidChunk chunks
    → unmarshal_chunks fuel (encode_chunks chunks) acc ≡ ok (acc ++ chunks)
unmarshal_chunks-encode fuel [] acc h v = unfold unmarshal_chunks in ap ok (sym (append-nil acc))
unmarshal_chunks-encode zero (c ∷ chunks) acc h v = absurd (omega (arith, first_is_long c chunks))
unmarshal_chunks-encode (suc fuel) (c ∷ chunks) acc h v =
    let later = encode_chunks chunks in
    let size = first_is_long c chunks in
    unmarshal_chunks_step fuel (encode_chunk c ++ later) acc (omega (arith, size))
      (unmarshal-encode_chunk (record { source = 0; items = [] }) c later v.0)
    ∙ ap (λ t. unmarshal_chunks fuel t (acc ++ (c ∷ []))) (drop_chunk c later)
    ∙ unmarshal_chunks-encode fuel chunks (acc ++ (c ∷ [])) (omega (arith, size)) v.1
    ∙ ap ok (append_assoc acc (c ∷ []) chunks)

-- A valid packet is read back from its bytes.
pub unmarshal-encode :
    (s : SourceDescription) → IsValid s → unmarshal (record { chunks = [] }) (encode s) ≡ ok s
unfolding unmarshal encode header
unmarshal-encode s v =
    let count : to_uint8 (length s.chunks) ≡ length s.chunks = omega (arith, v.few_chunks) in
    rw (
      Wire.unmarshal-encode (header s) (encode_chunks s.chunks) (header-IsValid s v),
      Wire.slice_from-encode (header s) (encode_chunks s.chunks),
      unmarshal_chunks-encode (length (encode s)) s.chunks []
          (rw length-encode (unfold len in omega (arith, length-encode_chunks s.chunks)))
          v.chunks_valid,
      count,
      ==_refl (length s.chunks),
    )

-- A source description with at most 31 valid chunks is written, and read back from the written bytes
-- into an empty packet.
pub unmarshal-marshal_sdes :
    (s : SourceDescription) → IsValid s → (marshal s >>= unmarshal (record { chunks = [] })) ≡ ok s
unmarshal-marshal_sdes s v = rw (marshal-encode s v) (unmarshal-encode s v)

-- The packet takes whole words.
pub len_multiple : (s : SourceDescription) → (len s % 4 ≡ 0) × (4 ≤ len s)
unfolding len
len_multiple s = (omega (arith, chunks_multiple s.chunks), omega arith)
