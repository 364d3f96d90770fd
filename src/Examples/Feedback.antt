-- ===== src/Examples/Feedback.antt =====
-- Feedback messages at concrete values.
use rtcp.Prelude.{◌+◌, ◌^◌, ◌≤◌, ◌<◌, ◌≡◌, refl, arith, [], ◌∷◌, ◌++◌}
use rtcp.Result.{ok, ◌>>=◌}
use rtcp.PictureLossIndication
use rtcp.RapidResynchronizationRequest
use rtcp.TransportLayerNack
use rtcp.TransportLayerNack.{NackPair}
use rtcp.TransportLayerNack.RoundTrip as NackTheorems
use rtcp.TransportLayerNack.PacketList
use rtcp.SliceLossIndication
use rtcp.SliceLossIndication.RoundTrip as SliTheorems
use rtcp.ReceiverEstimatedMaximumBitrate
use rtcp.ReceiverEstimatedMaximumBitrate.RoundTrip as RembTheorems

abbrev pub a_pli : PictureLossIndication.PictureLossIndication
a_pli = record { sender_ssrc = 0x902f9e2e; media_ssrc = 0x4bc4fcb4 }

abbrev a_rrr : RapidResynchronizationRequest.RapidResynchronizationRequest
a_rrr = record { sender_ssrc = 0x902f9e2e; media_ssrc = 7 }

abbrev a_pair : NackPair
a_pair = record { packet_id = 65535; lost_packets = 5 }

packet_list-marked_example :
    TransportLayerNack.packet_list a_pair ≡ ok (65535 ∷ PacketList.marked 16 65535 0 5)
packet_list-marked_example = PacketList.packet_list-marked a_pair (omega arith)

-- The packets of the pair: itself, and two that follow it.
a_pair_marked : PacketList.marked 16 65535 0 5 ≡ 0 ∷ 2 ∷ []
unfolding PacketList.marked
a_pair_marked = refl

abbrev pub a_nack : TransportLayerNack.TransportLayerNack
a_nack = record {
  sender_ssrc = 0x902f9e2e;
  media_ssrc = 9;
  nacks = a_pair ∷ record { packet_id = 42; lost_packets = 0x8000 } ∷ [];
}

pub a_nack-IsValid : NackTheorems.IsValid a_nack
a_nack-IsValid = record {
  sender_bound = omega arith;
  media_bound = omega arith;
  few_nacks = omega arith;
  nacks_typed = (omega arith, (omega arith, tt));
}

unmarshal-marshal_nack_example :
    (TransportLayerNack.marshal a_nack >>= λ raw.
    TransportLayerNack.unmarshal NackTheorems.zero_value (raw ++ (3 ∷ [])))
    ≡ ok a_nack
unmarshal-marshal_nack_example = NackTheorems.unmarshal-marshal_nack a_nack (3 ∷ []) a_nack-IsValid

abbrev pub a_sli : SliceLossIndication.SliceLossIndication
a_sli = record {
  sender_ssrc = 0x902f9e2e;
  media_ssrc = 9;
  sli = record { first = 0xaaa; number = 0; picture = 0x2c } ∷ [];
}

pub a_sli-IsValid : SliTheorems.IsValid a_sli
a_sli-IsValid = record {
  sender_bound = omega arith;
  media_bound = omega arith;
  few_entries = omega arith;
  entries_fit = (omega arith, tt);
}

unmarshal-marshal_sli_example :
    (SliceLossIndication.marshal a_sli >>= λ raw.
    SliceLossIndication.unmarshal SliTheorems.zero_value (raw ++ []))
    ≡ ok a_sli
unmarshal-marshal_sli_example = SliTheorems.unmarshal-marshal_sli a_sli [] a_sli-IsValid

abbrev pub a_remb : ReceiverEstimatedMaximumBitrate.ReceiverEstimatedMaximumBitrate
a_remb = record { sender_ssrc = 1; bitrate = 8927168; ssrcs = 1215622422 ∷ [] }

pub a_remb-IsValid : RembTheorems.IsValid a_remb
a_remb-IsValid = record {
  sender_bound = omega arith;
  bitrate_bound = omega arith;
  few_ssrcs = omega arith;
  ssrcs_typed = (omega arith, tt);
}

unmarshal-marshal_remb_example :
    (q : ReceiverEstimatedMaximumBitrate.ReceiverEstimatedMaximumBitrate)
    × ((ReceiverEstimatedMaximumBitrate.marshal a_remb
          >>= ReceiverEstimatedMaximumBitrate.unmarshal)
        ≡ ok q)
    × (q.sender_ssrc ≡ 1)
    × (q.ssrcs ≡ 1215622422 ∷ [])
    × (q.bitrate ≤ 8927168)
    × (8927168 < q.bitrate + 2 ^ ReceiverEstimatedMaximumBitrate.exponent 8927168)
    × (8927168 < 2 ^ 18 → q.bitrate ≡ 8927168)
unmarshal-marshal_remb_example = RembTheorems.unmarshal-marshal_remb a_remb a_remb-IsValid
