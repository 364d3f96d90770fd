-- ===== src/Examples/Writing.antt =====
-- Writers on packets that do not fit.
use rtcp.Prelude.{◌≡◌, length, replicate, All, List, [], ◌∷◌}
use rtcp.Outcome.Answers.{Answers}
use rtcp.Packet.{Packet, goodbye, marshal}
use rtcp.Packet.Refusals
use rtcp.Examples.Reading.{pli_packet}

-- A goodbye with a reason of 300 bytes.
abbrev long_goodbye : Packet
long_goodbye = goodbye (record { sources = 1 ∷ []; reason = replicate 300 b'x' })

abbrev two_packets : List Packet
two_packets = pli_packet ∷ long_goodbye ∷ []

marshal-Answers_example :
    Answers
      (Refusals.RefusedIn two_packets)
      (λ b. (length b ≡ Refusals.total_size two_packets) × All Refusals.Fits two_packets)
      (marshal two_packets)
marshal-Answers_example = Refusals.marshal-Answers two_packets (tt, (tt, tt))
