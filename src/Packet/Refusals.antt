-- ===== src/Packet/Refusals.antt =====
-- The writers of all packet types but congestion control feedback, on any packet.
use rtcp.Prelude.{
  ℕ, ◌+◌, ◌≡◌, ◌∙◌, refl, ap, arith, All, length, length-append, List, [], ◌∷◌, ◌++◌,
}
use rtcp.Result.{Error, Result, ok}
use rtcp.Outcome.Answers.{Answers, Answers-ok, Answers-bind, Answers-eq, Answers-weaken}
use rtcp.Bytes.{Bytes}
use rtcp.Bytes.Written.{OfLength}
use rtcp.SenderReport
use rtcp.SenderReport.Writing as Sr
use rtcp.ReceiverReport.Writing as Rr
use rtcp.SourceDescription.Packet as SourceDescription
use rtcp.SourceDescription.Writing as Sdes
use rtcp.Goodbye
use rtcp.Goodbye.Writing as Bye
use rtcp.TransportLayerNack
use rtcp.TransportLayerNack.Writing as Nack
use rtcp.SliceLossIndication.Writing as Sli
use rtcp.RapidResynchronizationRequest
use rtcp.RapidResynchronizationRequest.RoundTrip as Rrr
use rtcp.PictureLossIndication
use rtcp.PictureLossIndication.RoundTrip as Pli
use rtcp.SliceLossIndication
use rtcp.ReceiverEstimatedMaximumBitrate
use rtcp.ReceiverEstimatedMaximumBitrate.RoundTrip as Remb
use rtcp.RawPacket
use rtcp.Packet.{
  Packet, sender_report, receiver_report, source_description, goodbye, transport_layer_nack,
  rapid_resynchronization_request, transport_layer_cc, picture_loss_indication,
  slice_loss_indication, receiver_estimated_maximum_bitrate, raw_packet, marshal_packet,
  marshal_loop, marshal,
}
use rtcp.Packet.Writing.{NoTcc}

-- The bytes that a packet takes: as many as its `len` counts, or `MarshalSize` for bitrate messages, all
-- bytes of a raw packet, and for a receiver report its `len`, which leaves the profile extensions out,
-- and behind it the extensions with their padding.
abbrev pub size : Packet → ℕ
size (sender_report r) = SenderReport.len r
size (receiver_report r) = Rr.size r
size (source_description s) = SourceDescription.len s
size (goodbye g) = Goodbye.len g
size (transport_layer_nack p) = TransportLayerNack.len p
size (rapid_resynchronization_request p) = RapidResynchronizationRequest.len p
size (transport_layer_cc p) = 0
size (picture_loss_indication p) = PictureLossIndication.len p
size (slice_loss_indication p) = SliceLossIndication.len p
size (receiver_estimated_maximum_bitrate p) = ReceiverEstimatedMaximumBitrate.marshal_size p
size (raw_packet p) = length p.raw

-- The packets that can be written: reports of a total lost below 2 ^ 25, and at most 31 of them;
-- items of a type that is not zero, with texts of at most 255 bytes, in at most 31 chunks; at most 31
-- sources and a reason of at most 255 bytes; and at most 253 pairs or entries.
abbrev pub Fits : Packet → Type 0
Fits (sender_report r) = Sr.Fits r.reports
Fits (receiver_report r) = Sr.Fits r.reports
Fits (source_description s) = Sdes.Fits s
Fits (goodbye g) = Bye.Fits g
Fits (transport_layer_nack p) = Nack.Fits p
Fits (rapid_resynchronization_request p) = Unit
Fits (transport_layer_cc p) = Unit
Fits (picture_loss_indication p) = Unit
Fits (slice_loss_indication p) = Sli.Fits p
Fits (receiver_estimated_maximum_bitrate p) = Unit
Fits (raw_packet p) = Unit

-- Why a packet is refused, and with which error.
abbrev pub Refused : Packet → Error → Type 0
Refused (sender_report r) e = Sr.Refused r.reports e
Refused (receiver_report r) e = Sr.Refused r.reports e
Refused (source_description s) e = Sdes.Refused s e
Refused (goodbye g) e = Bye.Refused g e
Refused (transport_layer_nack p) e = Nack.Refused p e
Refused (rapid_resynchronization_request p) e = ⊥
Refused (transport_layer_cc p) e = ⊥
Refused (picture_loss_indication p) e = ⊥
Refused (slice_loss_indication p) e = Sli.Refused p e
Refused (receiver_estimated_maximum_bitrate p) e = ⊥
Refused (raw_packet p) e = ⊥

Refused-not-Fits : (p : Packet) (e : Error) → Refused p e → ¬ Fits p
Refused-not-Fits (sender_report r) e c = Sr.Refused-not-Fits c
Refused-not-Fits (receiver_report r) e c = Sr.Refused-not-Fits c
Refused-not-Fits (source_description s) e c = Sdes.Refused-not-Fits c
Refused-not-Fits (goodbye g) e c = Bye.Refused-not-Fits c
Refused-not-Fits (transport_layer_nack p) e c = λ f. omega (arith, c.0, f)
Refused-not-Fits (slice_loss_indication p) e c = λ f. omega (arith, c.0, f)
Refused-not-Fits (rapid_resynchronization_request p) e c = absurd c
Refused-not-Fits (transport_layer_cc p) e c = absurd c
Refused-not-Fits (picture_loss_indication p) e c = absurd c
Refused-not-Fits (receiver_estimated_maximum_bitrate p) e c = absurd c
Refused-not-Fits (raw_packet p) e c = absurd c

-- A writer that never refuses.
always :
    {E : Error → Type 0} {m : Result Bytes} (n : ℕ) (b : Bytes)
    → m ≡ ok b
    → length b ≡ n
    → Answers E (λ b. OfLength n b × Unit {0}) m
always n b e s = Answers-eq e (Answers-ok (λ b. OfLength n b × Unit {0}) b (s, tt))

writer-Answers :
    (p : Packet)
    → NoTcc p
    → Answers (Refused p) (λ b. OfLength (size p) b × Fits p) (marshal_packet p)
unfolding marshal_packet
writer-Answers (sender_report r) n = Sr.marshal-Answers r
writer-Answers (receiver_report r) n = Rr.marshal-Answers r
writer-Answers (source_description s) n = Sdes.marshal-Answers s
writer-Answers (goodbye g) n = Bye.marshal-Answers g
writer-Answers (transport_layer_nack p) n = Nack.marshal-Answers p
writer-Answers (slice_loss_indication p) n = Sli.marshal-Answers p
writer-Answers (rapid_resynchronization_request p) n =
    always _ _ (Rrr.marshal-encode p) (Rrr.length-encode_packet p)
writer-Answers (transport_layer_cc p) n = absurd n
writer-Answers (picture_loss_indication p) n =
    always _ _ (Pli.marshal-encode p) (Pli.length-encode_packet p)
writer-Answers (receiver_estimated_maximum_bitrate p) n =
    always _ _ (Remb.marshal-encode p)
      (Remb.length-encode p ∙ (unfold ReceiverEstimatedMaximumBitrate.marshal_size in refl))
writer-Answers (raw_packet p) n = always _ p.raw (unfold RawPacket.marshal in refl) refl

-- Every packet but congestion control feedback is written in as many bytes as its `len` counts, if it
-- fits, and is refused with the error of its first fault, if it does not; its writer never panics.
pub marshal_packet-Answers :
    (p : Packet)
    → NoTcc p
    → Answers (λ e. Refused p e × ¬ Fits p) (λ b. (length b ≡ size p) × Fits p) (marshal_packet p)
marshal_packet-Answers p n =
    Answers-weaken (λ b. (length b ≡ size p) × Fits p) (λ _ t. t)
      (λ e c. (c, Refused-not-Fits p e c)) (writer-Answers p n)

-- The bytes of all packets.
pub total_size : List Packet → ℕ
total_size [] = 0
total_size (p ∷ packets) = size p + total_size packets

-- The packets before one that is refused all fit.
pub data RefusedIn (packets : List Packet) (e : Error) : Type 0 where
  refused_at :
      (before after : List Packet) (p : Packet)
      → packets ≡ before ++ (p ∷ after)
      → All Fits before
      → Refused p e
      → ¬ Fits p
      → RefusedIn packets e

RefusedIn-later :
    {packets : List Packet} {e : Error} (p : Packet)
    → Fits p
    → RefusedIn packets e
    → RefusedIn (p ∷ packets) e
RefusedIn-later p f (refused_at before after q same fits cause not_fits) =
    refused_at (p ∷ before) after q (ap (λ ps. p ∷ ps) same) (f, fits) cause not_fits

loop-Answers :
    (out : Bytes) (packets : List Packet)
    → All NoTcc packets
    → Answers
        (RefusedIn packets)
        (λ b. (length b ≡ length out + total_size packets) × All Fits packets)
        (marshal_loop out packets)
unfolding marshal_loop total_size
loop-Answers out [] n =
    Answers-ok (λ b. (length b ≡ length out + 0) × Unit {0}) out (omega arith, tt)
loop-Answers out (p ∷ packets) n =
    Answers-bind
      (Answers-weaken _ (λ _ t. t) (λ e c. refused_at [] packets p refl tt c.0 c.1)
        (marshal_packet-Answers p n.0))
      λ b t.
        Answers-weaken
          (λ b'. (length b' ≡ length out + (size p + total_size packets)) × All Fits (p ∷ packets))
          (λ b' t'. (t'.0 ∙ omega (arith, length-append out b, t.0), (t.1, t'.1)))
          (λ e c. RefusedIn-later p t.1 c) (loop-Answers (out ++ b) packets n.1)

-- `Marshal` of any packets, congestion control feedback left out, never panics: if all of them fit, it
-- writes as many bytes as their `len` counts, and for receiver reports also the profile extensions and
-- their padding, which their `len` leaves out; and otherwise it answers the error of the first packet
-- that does not fit.
pub marshal-Answers :
    (packets : List Packet)
    → All NoTcc packets
    → Answers
        (RefusedIn packets)
        (λ b. (length b ≡ total_size packets) × All Fits packets)
        (marshal packets)
unfolding marshal
marshal-Answers packets n =
    Answers-weaken (λ b. (length b ≡ total_size packets) × All Fits packets)
      (λ b t. (t.0 ∙ omega arith, t.1)) (λ e c. c) (loop-Answers [] packets n)
