-- ===== src/Examples/Reports.antt =====
-- Headers, reports and source descriptions at concrete values.
use rtcp.Prelude.{
  ℕ, ◌+◌, ◌≤◌, ◌<◌, ◌≡◌, ◌≢◌, ◌↔◌, ◌⊎◌, ◌*◌, ◌/◌, ◌%◌, refl, arith, true, length, [], ◌∷◌, ◌++◌,
  All,
}
use rtcp.Result.{ok, err, ◌>>=◌, err_packet_too_short, err_bad_version}
use rtcp.Bytes.{Bytes, IsByte}
use rtcp.Util.{get_padding}
use rtcp.Header
use rtcp.Header.{Header}
use rtcp.Header.RoundTrip as HeaderTheorems
use rtcp.Reception
use rtcp.Reception.{ReceptionReport}
use rtcp.Reception.Blocks
use rtcp.Reception.RoundTrip as ReceptionTheorems
use rtcp.SenderReport
use rtcp.SenderReport.RoundTrip as SenderTheorems
use rtcp.ReceiverReport
use rtcp.ReceiverReport.RoundTrip as ReceiverTheorems
use rtcp.ReceiverReport.LengthField as LengthTheorems
use rtcp.SourceDescription.Packet as SourceDescription
use rtcp.SourceDescription.PacketRoundTrip as SdesTheorems
use rtcp.Goodbye
use rtcp.Goodbye.RoundTrip as GoodbyeTheorems

abbrev a_header : Header
a_header = record { padding = true; count = 3; type = 201; length = 258 }

a_header-IsValid : Header.IsValid a_header
a_header-IsValid = omega arith

unmarshal-marshal_header_example :
    (Header.marshal a_header >>= λ raw. Header.unmarshal (raw ++ (7 ∷ 8 ∷ []))) ≡ ok a_header
unmarshal-marshal_header_example =
    HeaderTheorems.unmarshal-marshal_header a_header (7 ∷ 8 ∷ []) a_header-IsValid

header_bytes_read : Header.unmarshal (0xa3 ∷ 201 ∷ 1 ∷ 2 ∷ 9 ∷ []) ≡ ok a_header
unfolding Header.unmarshal
header_bytes_read = refl

marshal-unmarshal_header_example :
    Header.IsValid a_header × (Header.marshal a_header ≡ ok (0xa3 ∷ 201 ∷ 1 ∷ 2 ∷ []))
marshal-unmarshal_header_example =
    HeaderTheorems.marshal-unmarshal_header (0xa3 ∷ 201 ∷ 1 ∷ 2 ∷ 9 ∷ [])
      (omega arith, (omega arith, (omega arith, (omega arith, (omega arith, tt)))))
      header_bytes_read

abbrev a_report : ReceptionReport
a_report = record {
  ssrc = 0x902f9e2e;
  fraction_lost = 85;
  total_lost = 70000;
  last_sequence_number = 0x46e1;
  jitter = 273;
  last_sender_report = 0x9f36432;
  delay = 150137;
}

a_report-IsTyped : Reception.IsTyped a_report
a_report-IsTyped = omega arith

abbrev a_big_loss : ReceptionReport
a_big_loss = record a_report { total_lost = 0x1000005 }

a_big_loss-IsTyped : Reception.IsTyped a_big_loss
a_big_loss-IsTyped = omega arith

marshal_report_overflow_example :
    (Reception.marshal a_big_loss >>= λ raw. Reception.unmarshal (raw ++ []))
    ≡ ok (record a_big_loss { total_lost = 5 })
marshal_report_overflow_example =
    ReceptionTheorems.marshal_report_overflow a_big_loss [] a_big_loss-IsTyped (omega arith)
      (omega arith)

abbrev report_bytes : Bytes
report_bytes =
    1 ∷ 2 ∷ 3 ∷ 4 ∷ 85 ∷ 0 ∷ 1 ∷ 2 ∷ 0 ∷ 0 ∷ 70 ∷ 225 ∷ 0 ∷ 0 ∷ 1 ∷ 17 ∷ 9 ∷ 243 ∷ 100 ∷ 50 ∷ 0 ∷ 2
    ∷ 74 ∷ 121 ∷ []

report_bytes_typed : All IsByte report_bytes
report_bytes_typed = ground arith

marshal-unmarshal_report_example :
    (Reception.unmarshal report_bytes >>= Reception.marshal) ≡ ok report_bytes
marshal-unmarshal_report_example =
    ReceptionTheorems.marshal-unmarshal_report report_bytes report_bytes_typed refl

a_report-IsValid : Blocks.IsValid a_report
a_report-IsValid = record { typed = a_report-IsTyped; total_fits = omega arith }

abbrev pub a_sender_report : SenderReport.SenderReport
a_sender_report = record {
  ssrc = 0x902f9e2e;
  ntp_time = 0xda8bd1fcdddda05a;
  rtp_time = 0xaaf4edd5;
  packet_count = 1;
  octet_count = 2;
  reports = a_report ∷ [];
  profile_extensions = 1 ∷ 2 ∷ 3 ∷ 4 ∷ [];
}

pub a_sender_report-IsValid : SenderTheorems.IsValid a_sender_report
a_sender_report-IsValid = record {
  ssrc_bound = omega arith;
  ntp_time_bound = omega arith;
  rtp_time_bound = omega arith;
  packet_count_bound = omega arith;
  octet_count_bound = omega arith;
  few_reports = omega arith;
  reports_valid = (a_report-IsValid, tt);
}

unmarshal-marshal_sender_report_example :
    (SenderReport.marshal a_sender_report >>= SenderReport.unmarshal SenderReport.zero_value)
    ≡ ok a_sender_report
unmarshal-marshal_sender_report_example =
    SenderTheorems.unmarshal-marshal_sender_report a_sender_report a_sender_report-IsValid

abbrev a_receiver_report : ReceiverReport.ReceiverReport
a_receiver_report = record {
  ssrc = 0x902f9e2e;
  reports = a_report ∷ [];
  profile_extensions = 1 ∷ 2 ∷ 3 ∷ 4 ∷ 5 ∷ [];
}

a_receiver_report-IsValid : ReceiverTheorems.IsValid a_receiver_report
a_receiver_report-IsValid = record {
  ssrc_bound = omega arith;
  few_reports = omega arith;
  reports_valid = (a_report-IsValid, tt);
}

unmarshal-marshal_receiver_report_example :
    (ReceiverReport.marshal a_receiver_report
      >>= ReceiverReport.unmarshal ReceiverReport.zero_value)
    ≡ ok (record a_receiver_report {
      profile_extensions = ReceiverTheorems.padded a_receiver_report;
    })
unmarshal-marshal_receiver_report_example =
    ReceiverTheorems.unmarshal-marshal_receiver_report a_receiver_report a_receiver_report-IsValid

receiver_report_length_field_example :
    (4 * ((ReceiverReport.header a_receiver_report).length + 1)
      ≡ length (ReceiverTheorems.encode a_receiver_report))
    ↔ (5 ≡ 3 * get_padding 5)
receiver_report_length_field_example =
    LengthTheorems.receiver_report_length_field a_receiver_report
      (ReceiverTheorems.encode a_receiver_report) a_receiver_report-IsValid
      (ReceiverTheorems.marshal-encode a_receiver_report a_receiver_report-IsValid)

abbrev pub a_description : SourceDescription.SourceDescription
a_description = record {
  chunks =
      record { source = 0x10000000; items = record { type = 1; text = 65 ∷ 66 ∷ [] } ∷ [] } ∷ [];
}

pub a_description-IsValid : SdesTheorems.IsValid a_description
a_description-IsValid = record {
  few_chunks = omega arith;
  chunks_valid = (
    record {
      source_typed = omega arith;
      items_valid = (
        record { type_ne_end = omega arith; type_bound = omega arith; short_text = omega arith },
        tt,
      );
    },
    tt,
  );
}

unmarshal-marshal_sdes_example :
    (SourceDescription.marshal a_description
      >>= SourceDescription.unmarshal (record { chunks = [] }))
    ≡ ok a_description
unmarshal-marshal_sdes_example =
    SdesTheorems.unmarshal-marshal_sdes a_description a_description-IsValid

abbrev pub a_goodbye : Goodbye.Goodbye
a_goodbye = record { sources = 0x01020304 ∷ 0x05060708 ∷ []; reason = 70 ∷ 79 ∷ 79 ∷ [] }

abbrev an_old_goodbye : Goodbye.Goodbye
an_old_goodbye = record { sources = []; reason = 9 ∷ [] }

pub a_goodbye-IsValid : GoodbyeTheorems.IsValid a_goodbye
a_goodbye-IsValid = record {
  few_sources = omega arith;
  sources_typed = (omega arith, (omega arith, tt));
  short_reason = omega arith;
}

unmarshal-marshal_goodbye_example :
    (Goodbye.marshal a_goodbye >>= Goodbye.unmarshal an_old_goodbye) ≡ ok a_goodbye
unmarshal-marshal_goodbye_example =
    GoodbyeTheorems.unmarshal-marshal_goodbye an_old_goodbye a_goodbye a_goodbye-IsValid

abbrev header_bytes : Bytes
header_bytes = 0xa3 ∷ 201 ∷ 1 ∷ 2 ∷ 9 ∷ []

unmarshal_header_outcome_example :
    ((5 < 4) × (Header.unmarshal header_bytes ≡ err err_packet_too_short))
    ⊎ ((a : ℕ) × (rest : Bytes) × (header_bytes ≡ a ∷ rest)
        × (4 ≤ 5)
        × (a / 64 % 4 ≢ 2)
        × (Header.unmarshal header_bytes ≡ err err_bad_version))
    ⊎ ((a : ℕ) × (rest : Bytes) × (h : Header) × (header_bytes ≡ a ∷ rest)
        × (a / 64 % 4 ≡ 2)
        × (Header.unmarshal header_bytes ≡ ok h))
unmarshal_header_outcome_example = HeaderTheorems.unmarshal_header_outcome header_bytes
