-- ===== src/TransportLayerNack.antt =====
-- transport_layer_nack.go: which packets a receiver has lost.
pub mod Wire
pub mod RoundTrip
pub mod Reading
pub mod Writing
pub mod PacketList
use rtcp.Prelude.{
  ℕ, zero, suc, ◌+◌, ◌-◌, ◌*◌, ◌/◌, ◌%◌, ◌^◌, ◌<◌, bit_and, false, not, ◌||◌, ltb, ◌==◌,
  if◌then◌else◌, length, List, [], ◌∷◌, ◌++◌,
}
use rtcp.Result.{
  Result, ok, stuck, ◌>>=◌, ◌>>◌, fail_if, err_too_many_reports, err_packet_too_short,
  err_wrong_type,
}
use rtcp.Bytes.{
  Bytes, IsUint16, IsUint32, to_uint16, make, put, uint16_at, uint32_at, be16, be32, rounds,
}
use rtcp.Header
use rtcp.Header.{Header, header_length, ssrc_length, format_tln, type_transport_specific_feedback}

-- A packet, and a bit for each of the sixteen that follow it.
pub record NackPair : Type 0 where
  pub packet_id : ℕ
  pub lost_packets : ℕ

pub record TransportLayerNack : Type 0 where
  pub sender_ssrc : ℕ
  pub media_ssrc : ℕ
  pub nacks : List NackPair

-- `x &^ y`: `x` without the bits of `y`.
abbrev pub and_not : ℕ → ℕ → ℕ
and_not x y = x - bit_and x y

-- The loop of `PacketList`, with `b` the bits left. Each round passes one of the sixteen bits.
unfoldable pub lost_loop : ℕ → ℕ → ℕ → ℕ → List ℕ → Result (List ℕ)
lost_loop zero packet_id i b out = if b == 0 then ok out else stuck
lost_loop (suc fuel) packet_id i b out =
    let bit = 1 * 2 ^ i % 2 ^ 16 in
    let found =
      lost_loop fuel packet_id (i + 1) (and_not b bit)
        (out ++ (to_uint16 (packet_id + i + 1) ∷ [])) in
    let passed = lost_loop fuel packet_id (i + 1) b out in
    if b == 0 then ok out else if bit_and b bit == 0 then passed else found

-- `(n *NackPair) PacketList`
unfoldable pub packet_list : NackPair → Result (List ℕ)
unfolding lost_loop
packet_list n = lost_loop 16 n.packet_id 0 n.lost_packets (n.packet_id ∷ [])

abbrev pub tln_length : ℕ
tln_length = 2

abbrev pub nack_offset : ℕ
nack_offset = 8

-- `(p *TransportLayerNack) len`
unfoldable pub len : TransportLayerNack → ℕ
len p = header_length + nack_offset + length p.nacks * 4

-- `(p *TransportLayerNack) Header`
unfoldable pub header : TransportLayerNack → Header
header p = record {
  padding = false;
  count = format_tln;
  type = type_transport_specific_feedback;
  length = to_uint16 (len p / 4 - 1);
}

-- The loop of `Marshal`: `i` is the offset of the pair.
unfoldable pub put_nacks : Bytes → ℕ → List NackPair → Result Bytes
put_nacks raw i [] = ok raw
put_nacks raw i (n ∷ nacks) = do
  raw' ← put raw i (be16 n.packet_id)
  raw'' ← put raw' (i + 2) (be16 n.lost_packets)
  put_nacks raw'' (i + 4) nacks

-- `(p TransportLayerNack) Marshal`: the bytes behind the header are made first.
unfoldable pub marshal : TransportLayerNack → Result Bytes
marshal p = do
  fail_if (ltb 255 (length p.nacks + tln_length)) err_too_many_reports
  raw ← put (make (nack_offset + length p.nacks * 4)) 0 (be32 p.sender_ssrc)
  raw ← put raw 4 (be32 p.media_ssrc)
  raw ← put_nacks raw nack_offset p.nacks
  h_data ← Header.marshal (header p)
  ok (h_data ++ raw)

-- The loop of `Unmarshal`: `n` rounds from the offset `i` on.
unfoldable pub nacks_at : ℕ → Bytes → ℕ → List NackPair → Result (List NackPair)
nacks_at zero raw i nacks = ok nacks
nacks_at (suc n) raw i nacks = do
  packet_id ← uint16_at raw i
  lost_packets ← uint16_at raw (i + 2)
  nacks_at n raw (i + 4)
      (nacks ++ (record { packet_id = packet_id; lost_packets = lost_packets } ∷ []))

-- `(p *TransportLayerNack) Unmarshal`: `p` is the packet there before, whose pairs stay in front.
-- `4*h.Length` is a uint16.
unfoldable pub unmarshal : TransportLayerNack → Bytes → Result TransportLayerNack
unmarshal p raw = do
  fail_if (ltb (length raw) (header_length + ssrc_length)) err_packet_too_short
  h ← Header.unmarshal raw
  fail_if (ltb (length raw) (header_length + to_uint16 (4 * h.length))) err_packet_too_short
  fail_if (not (h.type == type_transport_specific_feedback) || not (h.count == format_tln))
      err_wrong_type
  sender_ssrc ← uint32_at raw header_length
  media_ssrc ← uint32_at raw (header_length + ssrc_length)
  let first = header_length + nack_offset
  nacks ← nacks_at (rounds first (header_length + to_uint16 (h.length * 4))) raw first p.nacks
  ok (record { sender_ssrc = sender_ssrc; media_ssrc = media_ssrc; nacks = nacks })

-- `(p *TransportLayerNack) DestinationSSRC`
unfoldable pub destination_ssrc : TransportLayerNack → List ℕ
destination_ssrc p = p.media_ssrc ∷ []
