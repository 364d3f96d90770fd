-- ===== src/Examples/Chunks.antt =====
-- Bit fields and packet status chunks at concrete values.
use rtcp.Prelude.{◌+◌, ◌-◌, ◌*◌, ◌/◌, ◌%◌, ◌^◌, ◌≡◌, refl, arith, [], ◌∷◌}
use rtcp.Util.{get_nbits_from_byte}
use rtcp.Util.Fields
use rtcp.TransportLayerCc.Chunk.{RunLengthChunk, StatusVectorChunk}
use rtcp.TransportLayerCc.Chunk.{run_length_chunk, status_vector_chunk}
use rtcp.TransportLayerCc.Delta.{pos, quot, is_small, is_large}
use rtcp.TransportLayerCc.Packet.{TransportLayerCc, len, deltas_len}
use rtcp.TransportLayerCc.PacketRoundTrip as PacketTheorems
use rtcp.Prelude.{inl, true}
use rtcp.TransportLayerCc.PacketBytes
use rtcp.TransportLayerCc.MixedDeltas
use rtcp.TransportLayerCc.LargeDeltas
use rtcp.TransportLayerCc.Delta.{RecvDelta}
use rtcp.Prelude.{false, ◌++◌, replicate}

get_nbits_from_byte_lem_example : get_nbits_from_byte 0xb6 1 2 ≡ 0xb6 / 2 ^ (8 - (1 + 2)) % 2 ^ 2
get_nbits_from_byte_lem_example = Fields.get_nbits_from_byte_lem 0xb6 1 2 (omega arith)

abbrev a_run : RunLengthChunk
a_run = record { type = 0; packet_status_symbol = 2; run_length = 5000 }

abbrev a_vector : StatusVectorChunk
a_vector = record { type = 1; symbol_size = 1; symbol_list = 0 ∷ 1 ∷ 2 ∷ 3 ∷ 2 ∷ 1 ∷ 0 ∷ [] }

-- A run of ten packets that were not received, and a vector with two small deltas: 26 bytes, and two
-- of padding.
abbrev pub a_feedback : TransportLayerCc
a_feedback = record {
  header = record { padding = true; count = 15; type = 205; length = 6 };
  sender_ssrc = 1;
  media_ssrc = 2;
  base_sequence_number = 3;
  packet_status_count = 2;
  reference_time = 4;
  fb_pkt_count = 5;
  packet_chunks =
      run_length_chunk (record { type = 0; packet_status_symbol = 0; run_length = 10 })
      ∷ status_vector_chunk
          (record { type = 1; symbol_size = 1; symbol_list = 0 ∷ 1 ∷ 3 ∷ 0 ∷ 0 ∷ 1 ∷ 0 ∷ [] })
      ∷ [];
  recv_deltas =
      record { type = 1; delta = pos (250 * 4) }
      ∷ record { type = 1; delta = pos (250 * 255) }
      ∷ [];
}

pub a_feedback-IsValid : PacketBytes.IsValid 1 a_feedback
unfolding len deltas_len quot is_small is_large
a_feedback-IsValid = record {
  delta_type = inl refl;
  format = refl;
  packet_type = refl;
  size = refl;
  small = omega arith;
  sender_bound = omega arith;
  media_bound = omega arith;
  base_sequence_number_bound = omega arith;
  reference_time_bound = omega arith;
  fb_pkt_count_bound = omega arith;
  some_chunks = omega arith;
  status_count = refl;
  chunks_fit = (
    (record { type_zero = refl; symbol_bound = omega arith; run_bound = omega arith }, inl refl),
    (
      (
        record {
          type_one = refl;
          size_bound = omega arith;
          first = 0 ∷ 1 ∷ 3 ∷ [];
          second = 0 ∷ 0 ∷ 1 ∷ 0 ∷ [];
          parts = refl;
          first_fills = refl;
          second_fills = refl;
          first_bits = (omega arith, (omega arith, (omega arith, tt)));
          second_bits = (omega arith, (omega arith, (omega arith, (omega arith, tt))));
        },
        (
          (λ e. cc),
          ((λ e. refl), ((λ e. cc), ((λ e. cc), ((λ e. cc), ((λ e. refl), ((λ e. cc), tt)))))),
        ),
      ),
      tt,
    ),
  );
  deltas_fit =
      (PacketBytes.fits_small 4 (omega arith), (PacketBytes.fits_small 255 (omega arith), tt));
  announced = refl;
}

abbrev a_small : RecvDelta
a_small = record { type = 1; delta = pos (250 * 9) }

abbrev a_large : RecvDelta
a_large = record { type = 2; delta = pos (250 * 300) }

-- Six small deltas with a large one behind them: 32 bytes.
abbrev a_mixture : TransportLayerCc
a_mixture = record {
  header = record { padding = false; count = 15; type = 205; length = 7 };
  sender_ssrc = 1;
  media_ssrc = 2;
  base_sequence_number = 3;
  packet_status_count = 2;
  reference_time = 4;
  fb_pkt_count = 5;
  packet_chunks = a_feedback.packet_chunks;
  recv_deltas = replicate 6 a_small ++ (a_large ∷ []);
}

abbrev a_low_large : RecvDelta
a_low_large = record { type = 2; delta = pos (250 * 9) }

-- Six deltas of the large type, of nine steps each: 32 bytes.
abbrev low_larges : TransportLayerCc
low_larges = record {
  header = record { padding = false; count = 15; type = 205; length = 7 };
  sender_ssrc = 1;
  media_ssrc = 2;
  base_sequence_number = 3;
  packet_status_count = 2;
  reference_time = 4;
  fb_pkt_count = 5;
  packet_chunks = a_feedback.packet_chunks;
  recv_deltas = replicate 6 a_low_large;
}
