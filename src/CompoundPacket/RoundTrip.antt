-- ===== src/CompoundPacket/RoundTrip.antt =====
-- Compound packets through a datagram.
use rtcp.Prelude.{◌≤◌, ◌≡◌, arith, length, [], All}
use rtcp.Result.{ok, ◌>>=◌}
use rtcp.Packet
use rtcp.Packet.Valid.{IsValid}
use rtcp.Packet.RoundTrip.{packets-Stream}
use rtcp.CompoundPacket.{CompoundPacket, validate, marshal, unmarshal}

-- A compound packet that `Validate` accepts, made of packets that a datagram carries with no loss,
-- is written, and read back from the written bytes.
pub unmarshal-marshal_compound :
    (c : CompoundPacket) → validate c ≡ ok tt → All IsValid c → (marshal c >>= unmarshal) ≡ ok c
unfolding marshal unmarshal Packet.marshal
unmarshal-marshal_compound c e v =
    let s = packets-Stream c v in
    let fuel : length s.bytes ≤ length s.bytes = omega arith in
    rw (e, s.marshals [], s.unmarshals (length s.bytes) [] fuel, e)
