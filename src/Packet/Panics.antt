-- ===== src/Packet/Panics.antt =====
-- Datagrams that make the reader index out of range.
use rtcp.Prelude.{ℕ, ◌≡◌, arith, refl, [], ◌∷◌}
use rtcp.Result.{panic}
use rtcp.Bytes.{Bytes, index, slice_from, slice_to, slice, uint32_at, uint32, uint16_at, uint16}
use rtcp.Header
use rtcp.Util.{get_24_bits_from_bytes, get_nbits_from_byte}
use rtcp.TransportLayerCc.Chunk.{unmarshal_run_length}
use rtcp.TransportLayerCc.Packet.{append_run}
use rtcp.TransportLayerCc.Read as TransportLayerCc
use rtcp.TransportLayerCc.Read.{read_chunks, read_chunk, window, read_run, initial, upto}
use rtcp.TransportLayerNack
use rtcp.Packet.{
  kind_of, transport_kind, unmarshal_kind, unmarshal_first, unmarshal_as, unmarshal_loop, unmarshal,
}

-- A datagram that starts with a nack of version 2 whose length field is 1 makes `Unmarshal` panic,
-- whatever its sender and the bytes behind it: the reader checks for eight bytes, and reads the
-- media SSRC behind them.
pub unmarshal_nack_panic :
    (a b c d : ℕ) (rest : Bytes) → unmarshal (0x81 ∷ 205 ∷ 0 ∷ 1 ∷ a ∷ b ∷ c ∷ d ∷ rest) ≡ panic
unfolding unmarshal unmarshal_loop unmarshal_first unmarshal_as Header.unmarshal kind_of
    transport_kind unmarshal_kind TransportLayerNack.unmarshal slice_from slice_to uint32_at uint32
    index
unmarshal_nack_panic a b c d rest = ground arith

-- A datagram that is one congestion control feedback packet of 24 bytes for three packet statuses,
-- its chunks all zero, makes `Unmarshal` panic, whatever its other fields: the loop reads a third
-- chunk behind the packet's end, since its test of the position admits the end itself.
pub unmarshal_tcc_panic :
    (s0 s1 s2 s3 m0 m1 m2 m3 b0 b1 t0 t1 t2 f : ℕ)
    → unmarshal (
        0x8f ∷ 205 ∷ 0 ∷ 5 ∷ s0 ∷ s1 ∷ s2 ∷ s3 ∷ m0 ∷ m1 ∷ m2 ∷ m3 ∷ b0 ∷ b1 ∷ 0 ∷ 3 ∷ t0 ∷ t1 ∷ t2
        ∷ f ∷ 0 ∷ 0 ∷ 0 ∷ 0 ∷ [])
      ≡ panic
unfolding unmarshal unmarshal_loop unmarshal_first unmarshal_as Header.unmarshal kind_of
    transport_kind unmarshal_kind TransportLayerCc.unmarshal slice_from slice_to slice uint32_at
    uint16_at uint16 uint32 index get_24_bits_from_bytes read_chunks read_chunk window read_run
    unmarshal_run_length get_nbits_from_byte append_run initial upto
unmarshal_tcc_panic s0 s1 s2 s3 m0 m1 m2 m3 b0 b1 t0 t1 t2 f = refl
