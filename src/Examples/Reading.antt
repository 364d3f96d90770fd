-- ===== src/Examples/Reading.antt =====
-- Reading at concrete datagrams.
use rtcp.Prelude.{◌≡◌, refl, arith, ltb, ◌&&◌, Bool, true, All, [], ◌∷◌}
use rtcp.Result.{ok}
use rtcp.Outcome.{Ends}
use rtcp.Bytes.{Bytes, IsByte, index, slice_from, slice_to, uint32_at, uint32}
use rtcp.Header
use rtcp.PictureLossIndication
use rtcp.CompoundPacket
use rtcp.CompoundPacket.Reading as CompoundReading
use rtcp.Packet.{
  Packet, picture_loss_indication, kind_goodbye, unmarshal_kind, unmarshal_first, unmarshal_as,
  unmarshal_loop, unmarshal, some_packets, kind_of, payload_kind,
}
use rtcp.Packet.Reading as Readers
use rtcp.Packet.Reached
use rtcp.Packet.Dispatch

-- A test for lists of bytes.
abbrev pub are_bytes : Bytes → Bool
are_bytes [] = true
are_bytes (x ∷ b) = ltb x 256 && are_bytes b

pub are_bytes_lem : (b : Bytes) → are_bytes b ≡ true → All IsByte b
are_bytes_lem [] e = tt
are_bytes_lem (x ∷ b) e =
    let small : ltb x 256 ≡ true = ground arith in
    let rest : are_bytes b ≡ true = ground arith in (ground (arith, small), are_bytes_lem b rest)

-- A goodbye of two sources, and then half a nack.
abbrev pub cut_datagram : Bytes
cut_datagram = 0x82 ∷ 203 ∷ 0 ∷ 2 ∷ 0 ∷ 0 ∷ 0 ∷ 1 ∷ 0 ∷ 0 ∷ 0 ∷ 2 ∷ 0x81 ∷ 205 ∷ 0 ∷ 2 ∷ 1 ∷ 2 ∷ []

-- Congestion control feedback with one run that was not received.
abbrev tcc_datagram : Bytes
tcc_datagram =
    0x8f ∷ 205 ∷ 0 ∷ 5 ∷ 0 ∷ 0 ∷ 0 ∷ 1 ∷ 0 ∷ 0 ∷ 0 ∷ 2 ∷ 0 ∷ 7 ∷ 0 ∷ 1 ∷ 1 ∷ 2 ∷ 3 ∷ 9 ∷ 0 ∷ 9 ∷ 0
    ∷ 0 ∷ []

abbrev behind : Bytes
behind = 7 ∷ []

-- A receiver report with no blocks, and a description of one source with a CNAME.
abbrev pub compound_datagram : Bytes
compound_datagram =
    0x80 ∷ 201 ∷ 0 ∷ 1 ∷ 0 ∷ 0 ∷ 0 ∷ 1 ∷ 0x81 ∷ 202 ∷ 0 ∷ 2 ∷ 0 ∷ 0 ∷ 0 ∷ 1 ∷ 1 ∷ 1 ∷ b'a' ∷ 0 ∷ []

-- A picture loss indication.
abbrev pub pli_datagram : Bytes
pli_datagram = 0x81 ∷ 206 ∷ 0 ∷ 2 ∷ 0 ∷ 0 ∷ 1 ∷ 0 ∷ 0 ∷ 0 ∷ 2 ∷ 0 ∷ []

abbrev pub pli_packet : Packet
pli_packet = picture_loss_indication (record { sender_ssrc = 256; media_ssrc = 512 })

first_is_pli : unmarshal_first pli_datagram ≡ ok (pli_packet, 12)
unfolding unmarshal_first unmarshal_as Header.unmarshal kind_of payload_kind unmarshal_kind
    PictureLossIndication.unmarshal slice_from slice_to uint32_at uint32 index
first_is_pli = refl

pub all_is_pli : unmarshal pli_datagram ≡ ok (pli_packet ∷ [])
unfolding unmarshal unmarshal_loop unmarshal_first unmarshal_as Header.unmarshal kind_of
    payload_kind unmarshal_kind PictureLossIndication.unmarshal slice_from slice_to uint32_at uint32
    index some_packets
all_is_pli = refl

unmarshal-Ends_example :
    Ends (Reached.OverrunIn cut_datagram) Reached.AllTyped (unmarshal cut_datagram)
unmarshal-Ends_example = Reached.unmarshal-Ends cut_datagram (are_bytes_lem cut_datagram refl)

unmarshal_kind-Ends_example :
    Ends
      (Readers.MayPanic kind_goodbye cut_datagram (1 ∷ []))
      Readers.Typed
      (unmarshal_kind kind_goodbye cut_datagram (1 ∷ []))
unmarshal_kind-Ends_example =
    Readers.unmarshal_kind-Ends kind_goodbye cut_datagram (1 ∷ []) (are_bytes_lem cut_datagram refl)
      (omega arith, tt)

unmarshal_first-Dispatched_example : Dispatch.Dispatched pli_datagram pli_packet
unmarshal_first-Dispatched_example =
    Dispatch.unmarshal_first-Dispatched pli_datagram pli_packet 12 (are_bytes_lem pli_datagram refl)
      first_is_pli

unmarshal_compound-Ends_example :
    Ends
      (Reached.OverrunIn compound_datagram)
      CompoundReading.Validated
      (CompoundPacket.unmarshal compound_datagram)
unmarshal_compound-Ends_example =
    CompoundReading.unmarshal_compound-Ends compound_datagram (are_bytes_lem compound_datagram refl)
