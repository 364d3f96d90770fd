-- ===== src/RawPacket.antt =====
-- raw_packet.go: a packet of an unknown type, kept as its bytes.
use rtcp.Prelude.{ℕ, ltb, length, false, List, []}
use rtcp.Result.{Result, ok, err, panic, stuck, ◌>>=◌, ◌>>◌, fail_if, err_packet_too_short}
use rtcp.Bytes.{Bytes}
use rtcp.Header
use rtcp.Header.{Header, header_length}

pub record RawPacket : Type 0 where
  pub raw : Bytes

-- `(r RawPacket) Marshal`
unfoldable pub marshal : RawPacket → Result Bytes
marshal r = ok r.raw

-- `(r *RawPacket) Unmarshal`: the bytes are kept, and an error of the header is passed on.
unfoldable pub unmarshal : Bytes → Result RawPacket
unmarshal b = do
  fail_if (ltb (length b) header_length) err_packet_too_short
  h ← Header.unmarshal b
  ok (record { raw = b })

-- `(r RawPacket) Header`: the zero header where the bytes hold none.
unfoldable pub header : RawPacket → Result Header
header r = elim (Header.unmarshal r.raw) [
  | ok h ↦ ok h
  | err e ↦ ok (record { padding = false; count = 0; type = 0; length = 0 })
  | panic ↦ panic
  | stuck ↦ stuck
]

-- `(r *RawPacket) DestinationSSRC`
unfoldable pub destination_ssrc : RawPacket → List ℕ
destination_ssrc r = []
