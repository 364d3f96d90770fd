-- ===== src/Packet/Dispatch.antt =====
-- The factory of packet.go: which packet it makes of which header.
use rtcp.Prelude.{ℕ, ◌≤◌, ◌≡◌, ◌≢◌, ◌∙◌, refl, sym, ap, arith, length, take, drop, All}
use mathlib.Core.Path.{subst}
use native.Mathlib.Decide.{dec_le}
use rtcp.Result.{Result, ok, ◌>>=◌, bind-eq-ok}
use rtcp.Outcome.{Ends-value}
use rtcp.Bytes.{Bytes, IsByte}
use rtcp.Bytes.Outcome.{take-bytes}
use rtcp.Header
use rtcp.Header.{Header}
use rtcp.SliceLossIndication.Reading as Sli
use rtcp.Packet.{
  Packet, sender_report, receiver_report, source_description, goodbye, transport_layer_nack,
  rapid_resynchronization_request, transport_layer_cc, picture_loss_indication,
  slice_loss_indication, receiver_estimated_maximum_bitrate, raw_packet, Kind, kind_sender_report,
  kind_receiver_report, kind_source_description, kind_goodbye, kind_nack, kind_rrr, kind_tcc,
  kind_pli, kind_sli, kind_remb, kind_raw, kind_of, unmarshal_kind, bytes_processed, unmarshal_as,
  unmarshal_first,
}
use rtcp.Packet.Asked.{Asks, kind_of-Asks}
use rtcp.Packet.Progress.{as_parts, as_short}
use rtcp.Packet.Reached.{header_of_part, sli_type}

-- The Go type of a packet.
abbrev pub kind_of_packet : Packet → Kind
kind_of_packet (sender_report p) = kind_sender_report
kind_of_packet (receiver_report p) = kind_receiver_report
kind_of_packet (source_description p) = kind_source_description
kind_of_packet (goodbye p) = kind_goodbye
kind_of_packet (transport_layer_nack p) = kind_nack
kind_of_packet (rapid_resynchronization_request p) = kind_rrr
kind_of_packet (transport_layer_cc p) = kind_tcc
kind_of_packet (picture_loss_indication p) = kind_pli
kind_of_packet (slice_loss_indication p) = kind_sli
kind_of_packet (receiver_estimated_maximum_bitrate p) = kind_remb
kind_of_packet (raw_packet p) = kind_raw

-- A packet made by `c` is of the kind of `c`.
made :
    {A : Type 0} (m : Result A) (c : A → Packet) (k : Kind) (p : Packet)
    → ((a : A) → kind_of_packet (c a) ≡ k)
    → (m >>= λ a. ok (c a)) ≡ ok p
    → kind_of_packet p ≡ k
made m c k p same e =
    let (a, _, made_of) = bind-eq-ok m (λ a. ok (c a)) e in
    let e' : c a ≡ p = cc in sym (ap kind_of_packet e') ∙ same a

unmarshal_kind-kind :
    (k : Kind) (b spare : Bytes) (p : Packet)
    → unmarshal_kind k b spare ≡ ok p
    → kind_of_packet p ≡ k
unfolding unmarshal_kind
unmarshal_kind-kind kind_sender_report b spare p e = made _ sender_report _ p (λ _. refl) e
unmarshal_kind-kind kind_receiver_report b spare p e = made _ receiver_report _ p (λ _. refl) e
unmarshal_kind-kind kind_source_description b spare p e =
    made _ source_description _ p (λ _. refl) e
unmarshal_kind-kind kind_goodbye b spare p e = made _ goodbye _ p (λ _. refl) e
unmarshal_kind-kind kind_nack b spare p e = made _ transport_layer_nack _ p (λ _. refl) e
unmarshal_kind-kind kind_rrr b spare p e = made _ rapid_resynchronization_request _ p (λ _. refl) e
unmarshal_kind-kind kind_tcc b spare p e = made _ transport_layer_cc _ p (λ _. refl) e
unmarshal_kind-kind kind_pli b spare p e = made _ picture_loss_indication _ p (λ _. refl) e
unmarshal_kind-kind kind_sli b spare p e = made _ slice_loss_indication _ p (λ _. refl) e
unmarshal_kind-kind kind_remb b spare p e =
    made _ receiver_estimated_maximum_bitrate _ p (λ _. refl) e
unmarshal_kind-kind kind_raw b spare p e = made _ raw_packet _ p (λ _. refl) e

-- The kind that a packet was read as: what its header asks for, and no slice loss indication.
pub record Dispatched (raw : Bytes) (p : Packet) : Type 0 where
  pub header : Header
  pub reads : Header.unmarshal raw ≡ ok header
  pub kind : Asks header.type header.count (kind_of_packet p)
  pub no_sli : kind_of_packet p ≢ kind_sli

-- The reader of slice loss indications refuses the packets that the factory gives it.
no_sli_read :
    (raw spare : Bytes) (h : Header) (p : Packet)
    → All IsByte raw
    → Header.unmarshal raw ≡ ok h
    → kind_of h ≡ kind_sli
    → bytes_processed h ≤ length raw
    → unmarshal_kind kind_sli (take (bytes_processed h) raw) spare ≢ ok p
unfolding unmarshal_kind
no_sli_read raw spare h p w read e fits got =
    let n = bytes_processed h in
    let (s, from, _) = bind-eq-ok _ (λ s. ok (slice_loss_indication s)) got in
    let r =
      Ends-value (Sli.IsRead (take n raw)) _ s
        (Sli.unmarshal-Ends (take n raw) (take-bytes n raw w)) from in
    let same : ok r.feedback.header ≡ ok h = header_of_part raw n r.feedback.reads read in
    ground (arith, same, r.feedback.type, sli_type h e)

as-kind :
    (raw : Bytes) (h : Header) (p : Packet) (n : ℕ)
    → All IsByte raw
    → Header.unmarshal raw ≡ ok h
    → unmarshal_as raw h ≡ ok (p, n)
    → Dispatched raw p
as-kind raw h p n w read e = elim (dec_le (bytes_processed h) (length raw)) [
  | no long ↦
      let refused = as_short raw h (omega (arith, long)) in absurd (ground (arith, refused, e))
  | yes fits ↦
      let b = take (bytes_processed h) raw in
      let spare = drop (bytes_processed h) raw in
      let (q, got, same) =
        bind-eq-ok (unmarshal_kind (kind_of h) b spare) (λ p. ok (p, bytes_processed h))
          (sym (as_parts raw h fits) ∙ e) in
      let q_is_p : q ≡ p = cc in
      let kind = sym (ap kind_of_packet q_is_p) ∙ unmarshal_kind-kind (kind_of h) b spare q got in
      record {
        header = h;
        reads = read;
        kind = subst (Asks h.type h.count) (sym kind) (kind_of-Asks h);
        no_sli = λ sli.
            let e' : kind_of h ≡ kind_sli = sym kind ∙ sli in
            no_sli_read raw spare h q w read e' fits
              (ap (λ k. unmarshal_kind k b spare) (sym e') ∙ got);
      }
]

-- The packet that is read from the front of a datagram, of bytes below 256, has the Go type that the
-- header's type and count ask for: 200 a sender report, 201 a receiver report, 202 a source
-- description, 203 a goodbye; 205 a nack for the count 1, a resynchronization request for 5 and
-- congestion control feedback for 15; 206 a picture loss indication for 1 and a bitrate message for
-- 15; and a raw packet otherwise. It is never a slice loss indication, which 206 and 2 ask for.
pub unmarshal_first-Dispatched :
    (raw : Bytes) (p : Packet) (n : ℕ)
    → All IsByte raw
    → unmarshal_first raw ≡ ok (p, n)
    → Dispatched raw p
unfolding unmarshal_first
unmarshal_first-Dispatched raw p n w e =
    let (h, read, rest) = bind-eq-ok (Header.unmarshal raw) (unmarshal_as raw) e in
    as-kind raw h p n w read rest
