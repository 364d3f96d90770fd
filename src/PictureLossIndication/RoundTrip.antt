-- ===== src/PictureLossIndication/RoundTrip.antt =====
-- The twelve bytes of the packet, and what is read back from them.
use rtcp.Prelude.{append_assoc, ◌≤◌, ◌≡◌, arith, length, ◌++◌, le→ltb_false}
use rtcp.Result.{ok, ◌>>=◌}
use rtcp.Bytes.{Bytes, be32}
use rtcp.Bytes.Laws.{length-be32}
use rtcp.Header
use rtcp.Header.Wire
use rtcp.Header.Wire.{uint32_at_first, uint32_at_second, length-encode}
use rtcp.PictureLossIndication.{len, PictureLossIndication, IsTyped, header, marshal, unmarshal}

unfoldable pub encode : PictureLossIndication → Bytes
encode p = Wire.encode (header p) ++ (be32 p.sender_ssrc ++ be32 p.media_ssrc)

pub header-IsValid : (p : PictureLossIndication) → Header.IsValid (header p)
unfolding header
header-IsValid p = omega arith

pub marshal-encode : (p : PictureLossIndication) → marshal p ≡ ok (encode p)
unfolding marshal encode Wire.encode be32
marshal-encode p = rw (Wire.marshal-encode (header p) (header-IsValid p))

layout :
    (p : PictureLossIndication) (rest : Bytes)
    → encode p ++ rest
      ≡ Wire.encode (header p) ++ (be32 p.sender_ssrc ++ (be32 p.media_ssrc ++ rest))
unfolding encode
layout p rest = simp append_assoc

pub unmarshal-encode :
    (p : PictureLossIndication) (rest : Bytes) → IsTyped p → unmarshal (encode p ++ rest) ≡ ok p
unfolding unmarshal header
unmarshal-encode p rest t =
    let body = be32 p.sender_ssrc ++ (be32 p.media_ssrc ++ rest) in
    let long : 12 ≤ length (Wire.encode (header p) ++ body) = omega (
      arith,
      length-encode (header p) body,
      length-be32 p.sender_ssrc (be32 p.media_ssrc ++ rest),
      length-be32 p.media_ssrc rest,
    ) in
    rw (
      layout,
      le→ltb_false _ 12 long,
      Wire.unmarshal-encode (header p) body (header-IsValid p),
      uint32_at_first _ _ _ t.sender_bound,
      uint32_at_second _ _ _ _ t.media_bound,
    )

-- A picture loss indication whose SSRCs fit 32 bits is written, and read back from the written
-- bytes, whatever bytes follow them.
pub unmarshal-marshal_pli :
    (p : PictureLossIndication) (rest : Bytes)
    → IsTyped p
    → (marshal p >>= λ raw. unmarshal (raw ++ rest)) ≡ ok p
unmarshal-marshal_pli p rest t = rw marshal-encode (unmarshal-encode p rest t)

pub length-encode_packet : (p : PictureLossIndication) → length (encode p) ≡ len p
unfolding encode len Wire.encode be32
length-encode_packet p = omega arith
