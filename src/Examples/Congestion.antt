-- ===== src/Examples/Congestion.antt =====
-- Deltas, compound packets and the loop of `Unmarshal` at concrete values.
use rtcp.Prelude.{
  ℕ, false, ◌≢◌, if◌then◌else◌, refl, arith, ◌≤◌, none, ◌+◌, ◌*◌, ◌-◌, ◌^◌, ◌≡◌, ◌↔◌, length,
  replicate, [], ◌∷◌,
}
use rtcp.Result.{ok, stuck, ◌>>=◌}
use rtcp.Bytes.{
  Bytes, slice_from, slice_to, slice, uint32_at, uint16_at, uint16, uint32, index, uint32s_at,
}
use rtcp.TransportLayerCc.Delta
use rtcp.TransportLayerCc.Delta.{RecvDelta, pos, neg}
use rtcp.TransportLayerCc.RoundTrip as DeltaTheorems
use rtcp.TransportLayerCc.Chunk.{RunLengthChunk, run_length_chunk, unmarshal_run_length}
use rtcp.TransportLayerCc.Packet.{
  TransportLayerCc, zero_value, append_new, append_run, store, deref, has_delta,
}
use rtcp.TransportLayerCc.Read as CcRead
use rtcp.Util.{get_padding, get_24_bits_from_bytes, get_nbits_from_byte}
use rtcp.Header
use rtcp.Goodbye
use rtcp.Packet.Termination
use rtcp.Examples.Reading.{are_bytes_lem}
use rtcp.TransportLayerCc.Runs
use rtcp.TransportLayerCc.Spare
use rtcp.Packet
use rtcp.Packet.{
  Packet, goodbye, unmarshal_first, unmarshal_as, unmarshal_kind, kind_of, sender_report,
  source_description, unmarshal_loop, some_packets,
}
use rtcp.CompoundPacket
use rtcp.CompoundPacket.Specification as CompoundTheorems
use rtcp.CompoundPacket.RoundTrip as CompoundRoundTrip
use rtcp.SourceDescription.Packet as SourceDescription
use rtcp.Packet.Valid.{is_sender_report, is_source_description}
use rtcp.Examples.Reports.{
  a_sender_report, a_sender_report-IsValid, a_description, a_description-IsValid,
}

unmarshal-marshal_negative_delta_example :
    (Delta.marshal (record { type = 2; delta = neg (250 * (7 + 1)) }) >>= Delta.unmarshal)
    ≡ ok (record { type = 2; delta = pos (250 * (2 ^ 16 - 1 - 7)) })
unmarshal-marshal_negative_delta_example =
    DeltaTheorems.unmarshal-marshal_negative_delta 7 (omega arith)

abbrev a_delta : RecvDelta
a_delta = record { type = 1; delta = pos 500 }

abbrev a_goodbye_packet : Bytes
a_goodbye_packet = 0x80 ∷ 203 ∷ 0 ∷ 0 ∷ []

abbrev a_compound : CompoundPacket.CompoundPacket
a_compound = sender_report a_sender_report ∷ source_description a_description ∷ []

validate-Compound_example : (CompoundPacket.validate a_compound ≡ ok tt) ↔ (
    (text : Bytes) × CompoundTheorems.Compound a_compound text
    × (CompoundPacket.cname a_compound ≡ (text, none)))
validate-Compound_example = CompoundTheorems.validate-Compound a_compound

a_compound_accepted : CompoundPacket.validate a_compound ≡ ok tt
unfolding CompoundPacket.validate CompoundPacket.check_first CompoundPacket.check_rest
    CompoundPacket.chunks_have_cname CompoundPacket.items_have_cname
a_compound_accepted = refl

a_description_short : SourceDescription.len a_description ≤ 65535 * 4
unfolding SourceDescription.len SourceDescription.chunks_len rtcp.SourceDescription.Chunk.len
    rtcp.SourceDescription.Chunk.items_len rtcp.SourceDescription.Item.len rtcp.Util.get_padding
a_description_short = omega arith

unmarshal-marshal_compound_example :
    (CompoundPacket.marshal a_compound >>= CompoundPacket.unmarshal) ≡ ok a_compound
unmarshal-marshal_compound_example =
    CompoundRoundTrip.unmarshal-marshal_compound a_compound a_compound_accepted (
      is_sender_report a_sender_report a_sender_report-IsValid refl (omega arith),
      (is_source_description a_description a_description-IsValid a_description_short, tt),
    )

-- One round takes the whole goodbye.
one_round : Termination.Rounds a_goodbye_packet 1 []
unfolding unmarshal_first unmarshal_as Header.unmarshal kind_of unmarshal_kind Goodbye.unmarshal
    Goodbye.read_reason slice_from slice_to index uint32s_at get_padding
one_round =
    Termination.one_more 0 a_goodbye_packet (goodbye (record { sources = []; reason = [] })) 4
      Termination.no_round refl

unmarshal_terminates_example :
    (1 + length {A = ℕ} [] ≤ length a_goodbye_packet)
    × ((unmarshal_loop (length a_goodbye_packet + 5) a_goodbye_packet [] >>= some_packets)
        ≡ Packet.unmarshal a_goodbye_packet)
    × (Packet.unmarshal a_goodbye_packet ≢ stuck)
unmarshal_terminates_example =
    Termination.unmarshal_terminates a_goodbye_packet 5 1 [] (are_bytes_lem a_goodbye_packet refl)
      one_round

-- One chunk, a run of two small deltas, of four steps and of nine.
abbrev a_run_of_two : Bytes
a_run_of_two =
    0x8f ∷ 205 ∷ 0 ∷ 5 ∷ 0 ∷ 0 ∷ 0 ∷ 1 ∷ 0 ∷ 0 ∷ 0 ∷ 2 ∷ 0 ∷ 7 ∷ 0 ∷ 1 ∷ 1 ∷ 2 ∷ 3 ∷ 9 ∷ 0x20 ∷ 2
    ∷ 4 ∷ 9 ∷ []

abbrev two_received : RunLengthChunk
two_received = record { type = 0; packet_status_symbol = 1; run_length = 2 }

abbrev nine_steps : RecvDelta
nine_steps = record { type = 1; delta = pos (250 * 9) }

-- Both deltas come out as the second.
abbrev read_of_two : TransportLayerCc
read_of_two = record {
  header = record { padding = false; count = 15; type = 205; length = 5 };
  sender_ssrc = 1;
  media_ssrc = 2;
  base_sequence_number = 7;
  packet_status_count = 1;
  reference_time = 66051;
  fb_pkt_count = 9;
  packet_chunks = run_length_chunk two_received ∷ [];
  recv_deltas = nine_steps ∷ nine_steps ∷ [];
}

two_read : CcRead.unmarshal zero_value a_run_of_two [] ≡ ok read_of_two
unfolding CcRead.unmarshal Header.unmarshal slice_from slice_to slice uint32_at uint16_at uint16
    uint32 index get_24_bits_from_bytes CcRead.read_chunks CcRead.read_chunk CcRead.window
    CcRead.read_run unmarshal_run_length get_nbits_from_byte append_run append_new CcRead.initial
    CcRead.upto CcRead.read_deltas CcRead.read_delta CcRead.read_cell Delta.unmarshal deref store
    CcRead.deref_all
two_read = refl

unmarshal_run_shares_example :
    (d : RecvDelta) × (nine_steps ∷ nine_steps ∷ [] ≡ replicate (if has_delta 1 then 2 else 0) d)
unmarshal_run_shares_example =
    Runs.unmarshal_run_shares a_run_of_two [] read_of_two two_received two_read refl
