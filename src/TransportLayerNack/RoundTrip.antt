-- ===== src/TransportLayerNack/RoundTrip.antt =====
-- The bytes of a packet, what is read back from them, and the packets that stop the program.
use rtcp.Prelude.{
  ◌+◌, ◌*◌, ◌≤◌, ◌≡◌, ◌∙◌, refl, ap, arith, length, All, [], ◌++◌, append_assoc, append-nil,
  length-append, le→ltb_false,
}
use rtcp.Result.{ok, ◌>>=◌}
use rtcp.Bytes.{Bytes, IsUint32, make, put, to_uint16, uint32_at, be32, rounds}
use rtcp.Bytes.Laws.{make-add, length-be32}
use rtcp.Header
use rtcp.Header.{Header, format_tln, type_transport_specific_feedback}
use rtcp.Header.Wire as HeaderWire
use rtcp.TransportLayerNack.{TransportLayerNack, len, header, marshal, nacks_at, unmarshal}
use rtcp.TransportLayerNack.Wire.{
  IsTyped, encode_nacks, length-encode_nacks, put_nacks-append, nacks_at-append,
}

-- `new(TransportLayerNack)`
abbrev pub zero_value : TransportLayerNack
zero_value = record { sender_ssrc = 0; media_ssrc = 0; nacks = [] }

-- A packet that is written with no loss: at most 253 pairs.
pub record IsValid (p : TransportLayerNack) : Type 0 where
  pub sender_bound : IsUint32 p.sender_ssrc
  pub media_bound : IsUint32 p.media_ssrc
  pub few_nacks : length p.nacks ≤ 253
  pub nacks_typed : All IsTyped p.nacks

unfoldable pub encode : TransportLayerNack → Bytes
encode p =
    HeaderWire.encode (header p)
    ++ (be32 p.sender_ssrc ++ (be32 p.media_ssrc ++ encode_nacks p.nacks))

header_length_field :
    (p : TransportLayerNack) → length p.nacks ≤ 253 → (header p).length ≡ 2 + length p.nacks
unfolding header len
header_length_field p h = omega arith

pub header-IsValid : (p : TransportLayerNack) → length p.nacks ≤ 253 → Header.IsValid (header p)
header-IsValid p h = record {
  count_bound = unfold header in omega arith;
  type_bound = unfold header in omega arith;
  length_bound = omega (arith, header_length_field p h);
}

pub marshal-encode : (p : TransportLayerNack) → IsValid p → marshal p ≡ ok (encode p)
unfolding marshal put be32 encode
marshal-encode p v =
    let n = length p.nacks in
    let body = be32 p.sender_ssrc ++ be32 p.media_ssrc in
    let split : make (8 + n * 4) ≡ make 8 ++ make (4 * n) =
      ap make (omega arith) ∙ make-add 8 (4 * n) in
    rw (le→ltb_false 255 (n + 2) (omega (arith, v.few_nacks)), split)
      (rw (
        put_nacks-append body 8 p.nacks refl,
        HeaderWire.marshal-encode (header p) (header-IsValid p v.few_nacks),
      ))

layout :
    (p : TransportLayerNack) (rest : Bytes)
    → encode p ++ rest
      ≡ HeaderWire.encode (header p)
        ++ (be32 p.sender_ssrc ++ (be32 p.media_ssrc ++ (encode_nacks p.nacks ++ rest)))
unfolding encode
layout p rest = simp append_assoc

pub length-encode :
    (p : TransportLayerNack) (rest : Bytes)
    → length (encode p ++ rest) ≡ 12 + 4 * length p.nacks + length rest
length-encode p rest =
    let tail = encode_nacks p.nacks ++ rest in
    ap length (layout p rest)
    ∙ omega (
      arith,
      HeaderWire.length-encode (header p) (be32 p.sender_ssrc ++ (be32 p.media_ssrc ++ tail)),
      length-be32 p.sender_ssrc (be32 p.media_ssrc ++ tail),
      length-be32 p.media_ssrc tail,
      length-append (encode_nacks p.nacks) rest,
      length-encode_nacks p.nacks,
    )

header_of :
    (p : TransportLayerNack) (rest : Bytes)
    → IsValid p
    → Header.unmarshal (encode p ++ rest) ≡ ok (header p)
header_of p rest v =
    rw layout (HeaderWire.unmarshal-encode (header p) _ (header-IsValid p v.few_nacks))

sender_of :
    (p : TransportLayerNack) (rest : Bytes)
    → IsValid p
    → uint32_at (encode p ++ rest) 4 ≡ ok p.sender_ssrc
sender_of p rest v = rw layout (HeaderWire.uint32_at_first (header p) _ _ v.sender_bound)

media_of :
    (p : TransportLayerNack) (rest : Bytes)
    → IsValid p
    → uint32_at (encode p ++ rest) 8 ≡ ok p.media_ssrc
media_of p rest v = rw layout (HeaderWire.uint32_at_second (header p) _ _ _ v.media_bound)

nacks_of :
    (p : TransportLayerNack) (rest : Bytes)
    → IsValid p
    → nacks_at (length p.nacks) (encode p ++ rest) 12 [] ≡ ok p.nacks
nacks_of p rest v =
    let front = HeaderWire.encode (header p) ++ (be32 p.sender_ssrc ++ be32 p.media_ssrc) in
    let shape : encode p ++ rest ≡ front ++ (encode_nacks p.nacks ++ rest) =
      layout p rest ∙ simp append_assoc in
    let size : 12 ≡ length front = omega (
      arith,
      HeaderWire.length-encode (header p) (be32 p.sender_ssrc ++ be32 p.media_ssrc),
      length-be32 p.sender_ssrc (be32 p.media_ssrc),
      length-be32 p.media_ssrc [],
      ap length (append-nil (be32 p.media_ssrc)),
    ) in
    rw shape (nacks_at-append front 12 p.nacks [] rest size v.nacks_typed)

-- A valid packet is read back from its bytes, whatever follows them.
pub unmarshal-encode :
    (p : TransportLayerNack) (rest : Bytes)
    → IsValid p
    → unmarshal zero_value (encode p ++ rest) ≡ ok p
unfolding unmarshal
unmarshal-encode p rest v =
    let n = length p.nacks in
    let size = length-encode p rest in
    let field = header_length_field p v.few_nacks in
    let need : to_uint16 (4 * (header p).length) ≡ 8 + 4 * n = omega (arith, v.few_nacks, field) in
    let turns : rounds 12 (4 + to_uint16 ((header p).length * 4)) ≡ n =
      omega (arith, v.few_nacks, field) in
    rw
      (
        le→ltb_false (length (encode p ++ rest)) 8 (omega (arith, size)),
        header_of p rest v,
        need,
        le→ltb_false (length (encode p ++ rest)) (4 + (8 + 4 * n)) (omega (arith, size)),
        sender_of p rest v,
        media_of p rest v,
        turns,
        nacks_of p rest v,
      )
      (unfold header in refl)

-- A nack with SSRCs of 32 bits and at most 253 pairs of 16-bit words is written, and read back
-- from the written bytes into a new packet, whatever bytes follow them.
pub unmarshal-marshal_nack :
    (p : TransportLayerNack) (rest : Bytes)
    → IsValid p
    → (marshal p >>= λ raw. unmarshal zero_value (raw ++ rest)) ≡ ok p
unmarshal-marshal_nack p rest v = rw (marshal-encode p v) (unmarshal-encode p rest v)
