-- ===== src/Examples/Datagrams.antt =====
-- Datagrams and compound packets at concrete values.
use rtcp.Prelude.{List, [], ◌∷◌}
use rtcp.Packet
use rtcp.Packet.{Packet, goodbye, transport_layer_nack, transport_layer_cc, sender_report}
use rtcp.Packet.RoundTrip as PacketTheorems
use rtcp.Examples.Reports.{a_sender_report, a_goodbye}
use rtcp.Examples.Chunks.{a_feedback}
use rtcp.Examples.Feedback.{a_nack}

abbrev a_datagram : List Packet
a_datagram =
    sender_report a_sender_report
    ∷ transport_layer_nack a_nack
    ∷ goodbye a_goodbye
    ∷ transport_layer_cc a_feedback
    ∷ []
