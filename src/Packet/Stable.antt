-- ===== src/Packet/Stable.antt =====
-- What `Unmarshal` read, through `Marshal` and `Unmarshal` once more.
use rtcp.Prelude.{
  ◌-◌, ◌^◌, ◌≤◌, ◌≡◌, ◌≢◌, ◌∙◌, refl, sym, ap, arith, inl, inr, length, ltb, All, List, [], ◌∷◌,
  ◌++◌,
}
use mathlib.Core.Path.{subst}
use rtcp.Result.{Result, ok, ◌>>=◌, bind-eq-ok, fail_if, err_packet_too_short}
use rtcp.Outcome.{Ends-value}
use rtcp.Bytes.{Bytes, IsByte}
use rtcp.Header
use rtcp.Header.{Header}
use rtcp.Reception.Blocks.{reports_len-eq}
use rtcp.SenderReport
use rtcp.SenderReport.Reading as SrReading
use rtcp.ReceiverReport.Reading as RrReading
use rtcp.SourceDescription.Reading as SdesReading
use rtcp.Goodbye.Reading as ByeReading
use rtcp.TransportLayerNack.Reading as NackReading
use rtcp.RapidResynchronizationRequest.Reading as RrrReading
use rtcp.PictureLossIndication.Reading as PliReading
use rtcp.SliceLossIndication.Reading as SliReading
use rtcp.ReceiverEstimatedMaximumBitrate.Reading as RembReading
use rtcp.RawPacket
use rtcp.ReceiverReport.RoundTrip as Rr
use rtcp.Goodbye.RoundTrip as Bye
use rtcp.RapidResynchronizationRequest as Rrr
use rtcp.PictureLossIndication as Pli
use rtcp.Packet.{
  Packet, sender_report, receiver_report, source_description, goodbye, transport_layer_nack,
  rapid_resynchronization_request, transport_layer_cc, picture_loss_indication,
  slice_loss_indication, receiver_estimated_maximum_bitrate, raw_packet, Kind, kind_sender_report,
  kind_receiver_report, kind_source_description, kind_goodbye, kind_nack, kind_rrr, kind_tcc,
  kind_pli, kind_sli, kind_remb, kind_raw, kind_of, bytes_processed, unmarshal_kind, marshal,
  unmarshal,
}
use rtcp.Packet.Valid.{
  IsValid, IsWhole, is_sender_report, is_receiver_report, is_source_description, is_goodbye,
  is_nack, is_rrr, is_pli, is_remb, is_raw,
}
use rtcp.Packet.Reached.{sli_type}
use rtcp.Packet.Datagram.{Datagram, nothing, packet, unmarshal-Datagram}
use rtcp.Packet.RoundTrip.{unmarshal-marshal_packets}

-- Packets whose writer keeps all that was read: no receiver report with extensions, no nack of more
-- than 253 pairs, no bitrate at the top of its range, and no congestion control feedback.
abbrev pub Lossless : Packet → Type 0
Lossless (receiver_report r) = r.profile_extensions ≡ []
Lossless (transport_layer_nack p) = length p.nacks ≤ 253
Lossless (receiver_estimated_maximum_bitrate p) = p.bitrate ≢ 2 ^ 64 - 1
Lossless (transport_layer_cc p) = ⊥
Lossless (sender_report p) = Unit
Lossless (source_description p) = Unit
Lossless (goodbye p) = Unit
Lossless (rapid_resynchronization_request p) = Unit
Lossless (picture_loss_indication p) = Unit
Lossless (slice_loss_indication p) = Unit
Lossless (raw_packet p) = Unit

-- A packet that `c` makes of what a reader answers.
read_as :
    {A : Type 0} (m : Result A) (c : A → Packet) {p : Packet}
    → (m >>= λ a. ok (c a)) ≡ ok p
    → ((a : A) → m ≡ ok a → Lossless (c a) → IsValid (c a))
    → Lossless p
    → IsValid p
read_as m c {p} e valid =
    let (a, from, made) = bind-eq-ok m (λ a. ok (c a)) e in
    let same : c a ≡ p = cc in subst (λ q. Lossless q → IsValid q) same (valid a from)

raw_bytes : (b : Bytes) (p : RawPacket.RawPacket) → RawPacket.unmarshal b ≡ ok p → b ≡ p.raw
unfolding RawPacket.unmarshal
raw_bytes b p e =
    let (_, _, read) = bind-eq-ok (fail_if (ltb (length b) 4) err_packet_too_short) _ e in
    let (_, _, made) = bind-eq-ok (Header.unmarshal b) _ read in ground (arith, made)

module _ (own rest : Bytes) (h : Header) (w : All IsByte own) (reads : Header.unmarshal own ≡ ok h)
    (size : bytes_processed h ≡ length own) where
  read-IsValid :
      (k : Kind) (p : Packet)
      → kind_of h ≡ k
      → unmarshal_kind k own rest ≡ ok p
      → Lossless p
      → IsValid p
  unfolding unmarshal_kind SenderReport.len
  read-IsValid kind_sender_report p same e = read_as _ sender_report e λ r from _.
      let t = Ends-value (SrReading.Reads own) _ r (SrReading.Reads-Ends {panics = ⊥} own w) from in
      let whole = reports_len-eq r.reports in
      is_sender_report r t.valid (omega (arith, t.size, whole, size))
        (omega (arith, t.size, whole, size))
  read-IsValid kind_receiver_report p same e = read_as _ receiver_report e λ r from none.
      is_receiver_report r
        (Ends-value Rr.IsValid _ r (RrReading.unmarshal-Ends {panics = ⊥} own w) from) none
  read-IsValid kind_source_description p same e = read_as _ source_description e λ s from _.
      let t =
        Ends-value (SdesReading.Reads own) _ s (SdesReading.Reads-Ends {panics = ⊥} own w) from in
      let fits = t.size (omega (arith, size)) in
      is_source_description s t.valid (omega (arith, fits, size))
  read-IsValid kind_goodbye p same e = read_as _ goodbye e λ g from _.
      is_goodbye g (Ends-value Bye.IsValid _ g (ByeReading.unmarshal-Ends {panics = ⊥} own w) from)
  read-IsValid kind_nack p same e = read_as _ transport_layer_nack e λ n from few.
      let t = Ends-value NackReading.IsTyped _ n (NackReading.unmarshal-Ends own w) from in
      is_nack n (record {
        sender_bound = t.sender_bound;
        media_bound = t.media_bound;
        few_nacks = few;
        nacks_typed = t.nacks_typed;
      })
  read-IsValid kind_rrr p same e = read_as _ rapid_resynchronization_request e λ r from _.
      is_rrr r (Ends-value Rrr.IsTyped _ r (RrrReading.unmarshal-Ends {panics = ⊥} own w) from)
  read-IsValid kind_tcc p same e = read_as _ transport_layer_cc e λ t from none. absurd none
  read-IsValid kind_pli p same e = read_as _ picture_loss_indication e λ r from _.
      is_pli r (Ends-value Pli.IsTyped _ r (PliReading.unmarshal-Ends {panics = ⊥} own w) from)
  read-IsValid kind_sli p same e = read_as _ slice_loss_indication e λ s from _.
      let t = Ends-value (SliReading.IsRead own) _ s (SliReading.unmarshal-Ends own w) from in
      let one : ok t.feedback.header ≡ ok h = sym t.feedback.reads ∙ reads in
      absurd (ground (arith, one, t.feedback.type, sli_type h same))
  read-IsValid kind_remb p same e = read_as _ receiver_estimated_maximum_bitrate e λ r from below.
      let t = Ends-value RembReading.Reads _ r (RembReading.Reads-Ends {panics = ⊥} own w) from in
      elim t.exact [
        | inl top ↦ absurd (below top)
        | inr exact ↦ is_remb r t.valid (ap (λ b. record r { bitrate = b }) exact)
      ]
  read-IsValid kind_raw p same e = read_as _ raw_packet e λ r from _. is_raw r (
      subst IsWhole (raw_bytes own r from)
        (record { header = h; reads = reads; unknown = same; size = size }))

-- Bytes in two parts.
parts-bytes : (own rest : Bytes) → All IsByte (own ++ rest) → All IsByte own × All IsByte rest
parts-bytes [] rest w = (tt, w)
parts-bytes (b ∷ own) rest w = let (l, r) = parts-bytes own rest w.1 in ((w.0, l), r)

pub Datagram-IsValid :
    {raw : Bytes} {packets : List Packet}
    → Datagram raw packets
    → All IsByte raw
    → All Lossless packets
    → All IsValid packets
Datagram-IsValid nothing w l = tt
Datagram-IsValid (packet h own rest p raw packets parts header size read d) w l =
    let (w_own, w_rest) = parts-bytes own rest (subst (All IsByte) parts w) in
    (
      read-IsValid own rest h w_own header size (kind_of h) p refl read l.0,
      Datagram-IsValid d w_rest l.1,
    )

-- The packets that `Unmarshal` read from bytes below 256, with no congestion control feedback, no
-- receiver report with extensions, no nack of more than 253 pairs and no bitrate at the top of its
-- range among them, are written by `Marshal`, and read back the same from what it wrote.
pub unmarshal-marshal-unmarshal :
    (raw : Bytes) (packets : List Packet)
    → All IsByte raw
    → unmarshal raw ≡ ok packets
    → All Lossless packets
    → (marshal packets >>= unmarshal) ≡ ok packets
unmarshal-marshal-unmarshal raw packets w e l =
    let (d, filled) = (unmarshal-Datagram raw packets).0 e in
    unmarshal-marshal_packets packets filled (Datagram-IsValid d w l)
