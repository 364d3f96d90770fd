-- ===== src/Examples/Overruns.antt =====
-- Datagrams in which a round comes to a packet that makes its reader panic.
use rtcp.Prelude.{◌↔◌, false, ◌≡◌, refl, arith, drop, [], ◌∷◌, ◌++◌}
use rtcp.Result.{ok, panic}
use rtcp.Bytes.{Bytes, slice_from, slice_to, uint32_at, uint32, uint16_at, uint16, index}
use rtcp.Header
use rtcp.Header.{Header}
use rtcp.PictureLossIndication
use rtcp.SliceLossIndication
use rtcp.SliceLossIndication.Reading as SliReading
use rtcp.Packet.{
  kind_of, kind_nack, kind_tcc, transport_kind, payload_kind, unmarshal_kind, unmarshal_as,
  unmarshal_first, unmarshal,
}
use rtcp.Packet.Reached.{Reached, start, next}
use rtcp.Packet.Overruns
use rtcp.Examples.Reading.{are_bytes_lem, pli_datagram, pli_packet}

-- A nack of eight bytes behind a picture loss indication, and a goodbye behind it.
abbrev nack_inside : Bytes
nack_inside = pli_datagram ++ (0x81 ∷ 205 ∷ 0 ∷ 1 ∷ 1 ∷ 2 ∷ 3 ∷ 4 ∷ 0x80 ∷ 203 ∷ 0 ∷ 0 ∷ [])

nack_Reached : Reached nack_inside (drop 12 nack_inside)
unfolding unmarshal_first unmarshal_as Header.unmarshal kind_of payload_kind unmarshal_kind
    PictureLossIndication.unmarshal slice_from slice_to uint32_at uint32 index
nack_Reached = next nack_inside pli_packet 12 start refl

abbrev nack_header : Header
nack_header = record { padding = false; count = 1; type = 205; length = 1 }

nack_header_read : Header.unmarshal (drop 12 nack_inside) ≡ ok nack_header
unfolding Header.unmarshal index
nack_header_read = refl

nack_selected : kind_of nack_header ≡ kind_nack
unfolding kind_of transport_kind
nack_selected = refl

unmarshal-nack_panic_example : unmarshal nack_inside ≡ panic
unmarshal-nack_panic_example =
    Overruns.unmarshal-nack_panic nack_inside (drop 12 nack_inside) nack_header nack_Reached
      nack_header_read nack_selected refl (omega arith)

-- Feedback on three packets of which none was received, in one run, behind a picture loss indication.
abbrev tcc_behind : Bytes
tcc_behind =
    pli_datagram
    ++ (0x8f ∷ 205 ∷ 0 ∷ 5 ∷ 0 ∷ 0 ∷ 0 ∷ 1 ∷ 0 ∷ 0 ∷ 0 ∷ 2 ∷ 0 ∷ 7 ∷ 0 ∷ 3 ∷ 1 ∷ 2 ∷ 3 ∷ 9 ∷ 0 ∷ 3
        ∷ 0 ∷ 0 ∷ [])

tcc_Reached : Reached tcc_behind (drop 12 tcc_behind)
unfolding unmarshal_first unmarshal_as Header.unmarshal kind_of payload_kind unmarshal_kind
    PictureLossIndication.unmarshal slice_from slice_to uint32_at uint32 index
tcc_Reached = next tcc_behind pli_packet 12 start refl

abbrev tcc_header : Header
tcc_header = record { padding = false; count = 15; type = 205; length = 5 }

tcc_header_read : Header.unmarshal (drop 12 tcc_behind) ≡ ok tcc_header
unfolding Header.unmarshal index
tcc_header_read = refl

tcc_selected : kind_of tcc_header ≡ kind_tcc
unfolding kind_of transport_kind
tcc_selected = refl

three_statuses : uint16_at (drop 12 tcc_behind) 14 ≡ ok 3
unfolding uint16_at slice_from uint16
three_statuses = refl

unmarshal-tcc_panic_example : unmarshal tcc_behind ≡ panic
unmarshal-tcc_panic_example =
    Overruns.unmarshal-tcc_panic tcc_behind (drop 12 tcc_behind) tcc_header 3 tcc_Reached
      tcc_header_read tcc_selected refl (omega arith) (omega arith) three_statuses (omega arith)

abbrev eight_bytes : Bytes
eight_bytes = 0x82 ∷ 205 ∷ 0 ∷ 1 ∷ 1 ∷ 2 ∷ 3 ∷ 4 ∷ []

unmarshal-panic-IsShort_example :
    (SliceLossIndication.unmarshal
        (record { sender_ssrc = 0; media_ssrc = 0; sli = [] })
        eight_bytes
      ≡ panic)
    ↔ SliReading.IsShort eight_bytes
unmarshal-panic-IsShort_example =
    SliReading.unmarshal-panic-IsShort eight_bytes (are_bytes_lem eight_bytes refl)
