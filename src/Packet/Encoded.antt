-- ===== src/Packet/Encoded.antt =====
-- A packet as its bytes, at the front of a datagram.
use rtcp.Prelude.{◌+◌, ◌≤◌, ◌≡◌, ◌∙◌, sym, arith, length, ◌++◌}
use rtcp.Result.{ok}
use rtcp.Bytes.{Bytes}
use rtcp.Header
use rtcp.Header.{Header}
use rtcp.Header.Wire
use rtcp.Packet.{Packet, kind_of, bytes_processed, unmarshal_kind, unmarshal_first, marshal_packet}
use rtcp.Packet.First.{header_first, first_of}

-- The bytes of a packet, and that they alone are read from the front of a datagram.
pub record Written (p : Packet) : Type 0 where
  pub bytes : Bytes
  pub marshals : marshal_packet p ≡ ok bytes
  pub long : 4 ≤ length bytes
  pub first : (rest : Bytes) → unmarshal_first (bytes ++ rest) ≡ ok (p, length bytes)

-- A packet that starts with its header, whose length field counts its words.
pub written :
    (p : Packet) (h : Header) (body : Bytes)
    → Header.IsValid h
    → bytes_processed h ≡ 4 + length body
    → marshal_packet p ≡ ok (Wire.encode h ++ body)
    → ((spare : Bytes) → unmarshal_kind (kind_of h) (Wire.encode h ++ body) spare ≡ ok p)
    → Written p
written p h body v size m read =
    let whole = Wire.length-encode h body in
    record {
      bytes = Wire.encode h ++ body;
      marshals = m;
      long = omega (arith, whole);
      first = λ rest.
          first_of h (Wire.encode h ++ body) rest (header_first h body rest v) (size ∙ sym whole)
            (read rest);
    }
