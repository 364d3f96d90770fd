-- ===== src/Packet/Written.antt =====
-- Each packet through a datagram.
use rtcp.Prelude.{
  ◌+◌, ◌*◌, ◌%◌, ◌≤◌, ◌≡◌, ◌∙◌, refl, sym, ap, arith, length, [], ◌++◌, length-append, le→ltb_false,
}
use rtcp.Result.{ok}
use rtcp.Bytes.{be32}
use rtcp.Util.{get_padding}
use rtcp.Header.Wire
use rtcp.SenderReport
use rtcp.SenderReport.RoundTrip as Sr
use rtcp.ReceiverReport
use rtcp.ReceiverReport.RoundTrip as Rr
use rtcp.ReceiverReport.LengthField.{length_field}
use rtcp.Util.Laws.{get_padding_of_multiple}
use rtcp.Reception.Blocks.{reports_len-eq, encode_reports, length-encode_reports}
use rtcp.SourceDescription.Packet as SourceDescription
use rtcp.SourceDescription.PacketRoundTrip as Sdes
use rtcp.Goodbye
use rtcp.Goodbye.RoundTrip as Bye
use rtcp.RawPacket
use rtcp.Packet.{
  Packet, sender_report, receiver_report, source_description, goodbye, raw_packet, kind_of,
  unmarshal_kind, marshal_packet,
}
use rtcp.Packet.First.{header-append, header_long, first_of}
use rtcp.Packet.Valid.{
  IsValid, IsWhole, is_sender_report, is_receiver_report, is_source_description, is_goodbye,
  is_nack, is_rrr, is_pli, is_remb, is_tcc, is_raw,
}
use rtcp.Packet.Encoded.{Written, written}
use rtcp.Packet.FeedbackWritten.{pli-Written, rrr-Written, nack-Written, remb-Written, tcc-Written}

goodbye-Written : (g : Goodbye.Goodbye) → Bye.IsValid g → Written (goodbye g)
unfolding marshal_packet unmarshal_kind kind_of Goodbye.header Bye.encode
goodbye-Written g v =
    let body = Bye.body g in
    let size : 4 + length body ≡ Goodbye.len g =
      sym (Wire.length-encode (Goodbye.header g) body) ∙ Bye.length-encode g in
    written (goodbye g) (Goodbye.header g) body (Bye.header-IsValid g v)
      (omega (arith, size, Bye.len_bounds g v)) (Bye.marshal-encode g v)
      (λ spare. rw (Bye.unmarshal-encode (record { sources = []; reason = [] }) g v))

sdes-Written :
    (s : SourceDescription.SourceDescription)
    → Sdes.IsValid s
    → SourceDescription.len s ≤ 65535 * 4
    → Written (source_description s)
unfolding marshal_packet unmarshal_kind kind_of SourceDescription.header Sdes.encode
sdes-Written s v short =
    let body = Sdes.encode_chunks s.chunks in
    let size : 4 + length body ≡ SourceDescription.len s =
      sym (Wire.length-encode (SourceDescription.header s) body) ∙ Sdes.length-encode s in
    written (source_description s) (SourceDescription.header s) body (Sdes.header-IsValid s v)
      (omega (arith, size, short, Sdes.len_multiple s)) (Sdes.marshal-encode s v)
      (λ spare. rw (Sdes.unmarshal-encode s v))

sender_report_size :
    (r : SenderReport.SenderReport)
    → length (Sr.info r ++ (encode_reports r.reports ++ r.profile_extensions))
      ≡ 24 + 24 * length r.reports + length r.profile_extensions
unfolding Sr.info
sender_report_size r = omega (
  arith,
  length-encode_reports r.reports,
  length-append (encode_reports r.reports) r.profile_extensions,
)

sender_report-Written :
    (r : SenderReport.SenderReport)
    → Sr.IsValid r
    → length r.profile_extensions % 4 ≡ 0
    → 28 + 24 * length r.reports + length r.profile_extensions ≤ 65535 * 4
    → Written (sender_report r)
unfolding marshal_packet unmarshal_kind kind_of SenderReport.header SenderReport.len Sr.encode
sender_report-Written r v words short =
    let body = Sr.info r ++ (encode_reports r.reports ++ r.profile_extensions) in
    written (sender_report r) (SenderReport.header r) body (Sr.header-IsValid r v)
      (omega (arith, words, short, sender_report_size r, v.few_reports, reports_len-eq r.reports))
      (Sr.marshal-encode r v) (λ spare. rw (Sr.unmarshal-encode r v))

-- No extensions, no padding.
padded_none : (r : ReceiverReport.ReceiverReport) → r.profile_extensions ≡ [] → Rr.padded r ≡ []
unfolding get_padding
padded_none r none = rw none

receiver_report-Written :
    (r : ReceiverReport.ReceiverReport)
    → Rr.IsValid r
    → r.profile_extensions ≡ []
    → Written (receiver_report r)
unfolding marshal_packet unmarshal_kind kind_of Rr.encode ReceiverReport.header
receiver_report-Written r v none =
    let body = be32 r.ssrc ++ (encode_reports r.reports ++ Rr.padded r) in
    let empty : length r.profile_extensions ≡ 0 = ap (λ b. length b) none in
    let pads = get_padding_of_multiple (length r.profile_extensions) (omega (arith, empty)) in
    let whole = Rr.length-encode r in
    let split = Wire.length-encode (ReceiverReport.header r) body in
    let field = length_field r v.few_reports in
    let same : record r { profile_extensions = Rr.padded r } ≡ r =
      ap (λ b. record r { profile_extensions = b }) (padded_none r none ∙ sym none) in
    written (receiver_report r) (ReceiverReport.header r) body (Rr.header-IsValid r v)
      (omega (arith, split, whole, pads, empty, field, v.few_reports)) (Rr.marshal-encode r v)
      (λ spare. rw (Rr.unmarshal-encode r v) (ap (λ q. ok (receiver_report q)) same))

raw-Written : (p : RawPacket.RawPacket) → IsWhole p.raw → Written (raw_packet p)
unfolding marshal_packet unmarshal_kind RawPacket.marshal RawPacket.unmarshal
raw-Written p w =
    let long = header_long p.raw w.reads in
    record {
      bytes = p.raw;
      marshals = refl;
      long = long;
      first = λ rest.
          first_of w.header p.raw rest (header-append p.raw rest w.reads) w.size
            (rw (w.unknown, le→ltb_false (length p.raw) 4 long, w.reads));
    }

-- Every valid packet is written, and read back from the front of a datagram.
pub valid-Written : (p : Packet) → IsValid p → Written p
valid-Written _ (is_sender_report r v words short) = sender_report-Written r v words short
valid-Written _ (is_receiver_report r v none) = receiver_report-Written r v none
valid-Written _ (is_source_description s v short) = sdes-Written s v short
valid-Written _ (is_goodbye g v) = goodbye-Written g v
valid-Written _ (is_nack p v) = nack-Written p v
valid-Written _ (is_rrr p t) = rrr-Written p t
valid-Written _ (is_pli p t) = pli-Written p t
valid-Written _ (is_remb p v exact) = remb-Written p v exact
valid-Written _ (is_tcc type t v) = tcc-Written type t v
valid-Written _ (is_raw p w) = raw-Written p w
