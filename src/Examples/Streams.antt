-- ===== src/Examples/Streams.antt =====
-- Datagrams in parts, and read, written and read again, at concrete bytes.
use rtcp.Prelude.{◌≡◌, ◌≢◌, ◌↔◌, refl, arith, [], ◌∷◌, ◌++◌}
use rtcp.Result.{ok, ◌>>=◌}
use rtcp.Bytes.{Bytes}
use rtcp.Packet
use rtcp.Packet.{Packet, receiver_report, source_description}
use rtcp.Packet.Datagram as Datagrams
use rtcp.Packet.Append
use rtcp.Packet.Stable
use rtcp.Packet.Stops
use rtcp.CompoundPacket
use rtcp.CompoundPacket.Grammar
use rtcp.CompoundPacket.Specification.{Compound}
use rtcp.Examples.Reading.{
  are_bytes_lem, pli_datagram, pli_packet, all_is_pli, cut_datagram, compound_datagram,
}

unmarshal-Datagram_example :
    (Packet.unmarshal pli_datagram ≡ ok (pli_packet ∷ []))
    ↔ (Datagrams.Datagram pli_datagram (pli_packet ∷ []) × (◌≢◌ (pli_packet ∷ []) []))
unmarshal-Datagram_example = Datagrams.unmarshal-Datagram pli_datagram (pli_packet ∷ [])

-- A picture loss indication in front of a goodbye and half a nack: the error is that of the nack.
unmarshal-append_example :
    Packet.unmarshal (pli_datagram ++ cut_datagram)
    ≡ (Packet.unmarshal cut_datagram >>= λ others. ok ((pli_packet ∷ []) ++ others))
unmarshal-append_example =
    Append.unmarshal-append pli_datagram cut_datagram (pli_packet ∷ []) all_is_pli (omega arith)

unmarshal-marshal-unmarshal_example :
    (Packet.marshal (pli_packet ∷ []) >>= Packet.unmarshal) ≡ ok (pli_packet ∷ [])
unmarshal-marshal-unmarshal_example =
    Stable.unmarshal-marshal-unmarshal pli_datagram (pli_packet ∷ [])
      (are_bytes_lem pli_datagram refl) all_is_pli (tt, tt)

-- What `compound_datagram` says.
abbrev a_report_and_name : CompoundPacket.CompoundPacket
a_report_and_name =
    receiver_report (record { ssrc = 1; reports = []; profile_extensions = [] })
    ∷ source_description (record {
      chunks = record { source = 1; items = record { type = 1; text = b'a' ∷ [] } ∷ [] } ∷ [];
    })
    ∷ []

unmarshal-Compound-Datagram_example :
    (CompoundPacket.unmarshal compound_datagram ≡ ok a_report_and_name) ↔ (
      Datagrams.Datagram compound_datagram a_report_and_name
      × ((text : Bytes) × Compound a_report_and_name text))
unmarshal-Compound-Datagram_example =
    Grammar.unmarshal-Compound-Datagram compound_datagram a_report_and_name

-- The goodbye is read, and the nack behind it is cut.
unmarshal-Stopped_example : Stops.Stopped cut_datagram (Packet.unmarshal cut_datagram)
unmarshal-Stopped_example =
    Stops.unmarshal-Stopped cut_datagram (omega arith) (are_bytes_lem cut_datagram refl)
