-- ===== src/Packet/Progress.antt =====
-- Every round of `Unmarshal` takes bytes away, so that its fuel is enough.
use rtcp.Prelude.{
  length-drop, take, drop, le→ltb_false, lt→ltb, ℕ, zero, suc, ◌+◌, ◌≤◌, ◌<◌, ◌≡◌, ◌≢◌, ◌∙◌, refl,
  sym, ap, arith, length, List, [], ◌∷◌, ◌++◌,
}
use rtcp.Result.{Result, ok, err, ◌>>=◌, bind-eq-ok, bind-ext, err_packet_too_short}
use rtcp.Bytes.{Bytes, slice_from}
use rtcp.Bytes.Laws.{slice_to-take, slice_from-drop}
use native.Mathlib.Decide.{ℕ_discrete, dec_le}
use rtcp.Header
use rtcp.Header.{Header}
use rtcp.SenderReport
use rtcp.ReceiverReport
use rtcp.SourceDescription.Packet as SourceDescription
use rtcp.Goodbye
use rtcp.TransportLayerNack
use rtcp.RapidResynchronizationRequest
use rtcp.TransportLayerCc.Read as TransportLayerCc
use rtcp.PictureLossIndication
use rtcp.SliceLossIndication
use rtcp.ReceiverEstimatedMaximumBitrate
use rtcp.RawPacket
use rtcp.Packet.{
  Packet, Kind, kind_sender_report, kind_receiver_report, kind_source_description, kind_goodbye,
  kind_nack, kind_rrr, kind_tcc, kind_pli, kind_sli, kind_remb, kind_raw, kind_of, unmarshal_kind,
  bytes_processed, unmarshal_first, unmarshal_as, unmarshal_loop, unmarshal, some_packets,
}

-- No packet is read from no bytes.
no_bytes : (k : Kind) (spare : Bytes) (p : Packet) → unmarshal_kind k [] spare ≡ ok p → ⊥
unfolding unmarshal_kind Header.unmarshal SenderReport.unmarshal ReceiverReport.unmarshal
    SourceDescription.unmarshal Goodbye.unmarshal TransportLayerNack.unmarshal
    RapidResynchronizationRequest.unmarshal TransportLayerCc.unmarshal
    PictureLossIndication.unmarshal SliceLossIndication.unmarshal
    ReceiverEstimatedMaximumBitrate.unmarshal RawPacket.unmarshal
no_bytes kind_sender_report spare p e = cc
no_bytes kind_receiver_report spare p e = cc
no_bytes kind_source_description spare p e = cc
no_bytes kind_goodbye spare p e = cc
no_bytes kind_nack spare p e = cc
no_bytes kind_rrr spare p e = cc
no_bytes kind_tcc spare p e = cc
no_bytes kind_pli spare p e = cc
no_bytes kind_sli spare p e = cc
no_bytes kind_remb spare p e = cc
no_bytes kind_raw spare p e = cc

-- Once the length is checked, both slices are there.
pub as_parts :
    (raw : Bytes) (h : Header)
    → bytes_processed h ≤ length raw
    → unmarshal_as raw h ≡ (
        unmarshal_kind (kind_of h) (take (bytes_processed h) raw) (drop (bytes_processed h) raw)
        >>= λ p. ok (p, bytes_processed h))
unfolding unmarshal_as
as_parts raw h fits = rw (
  le→ltb_false (length raw) (bytes_processed h) fits,
  slice_to-take raw (bytes_processed h) fits,
  slice_from-drop raw (bytes_processed h) fits,
)

pub as_short :
    (raw : Bytes) (h : Header)
    → length raw < bytes_processed h
    → unmarshal_as raw h ≡ err err_packet_too_short
unfolding unmarshal_as
as_short raw h short = rw (lt→ltb (length raw) (bytes_processed h) short)

as_progress :
    (raw : Bytes) (h : Header) (p : Packet) (n : ℕ)
    → unmarshal_as raw h ≡ ok (p, n)
    → (0 < n) × (n ≤ length raw)
as_progress raw h p n e = elim (dec_le (bytes_processed h) (length raw)) [
  | no long ↦ let refused = as_short raw h (omega (arith, long)) in ground (arith, refused, e)
  | yes fits ↦
      let (q, read, same) =
        bind-eq-ok
          (unmarshal_kind (kind_of h) (take (bytes_processed h) raw) (drop (bytes_processed h) raw))
          (λ p. ok (p, bytes_processed h)) (sym (as_parts raw h fits) ∙ e) in
      let size : bytes_processed h ≡ n = ground (arith, same) in
      elim (ℕ_discrete (bytes_processed h) 0) [
        | yes none ↦ absurd (
            no_bytes (kind_of h) (drop (bytes_processed h) raw) q (
              ap (λ m. unmarshal_kind (kind_of h) (take m raw) (drop (bytes_processed h) raw))
                (sym none)
              ∙ read))
        | no some ↦ (omega (arith, some, size), omega (arith, size, fits))
      ]
]

-- A packet that is read takes at least one byte, and no more than there are.
pub first_progress :
    (raw : Bytes) (p : Packet) (n : ℕ)
    → unmarshal_first raw ≡ ok (p, n)
    → (0 < n) × (n ≤ length raw)
unfolding unmarshal_first
first_progress raw p n e =
    let (h, _, e1) = bind-eq-ok (Header.unmarshal raw) (unmarshal_as raw) e in
    as_progress raw h p n e1

-- What a round does with the first packet.
unfoldable pub next_round : ℕ → Bytes → List Packet → Packet × ℕ → Result (List Packet)
next_round fuel raw found pn =
    slice_from raw pn.1 >>= λ rest. unmarshal_loop fuel rest (found ++ (pn.0 ∷ []))

pub loop_round :
    (fuel b : ℕ) (raw : Bytes) (found : List Packet)
    → unmarshal_loop (suc fuel) (b ∷ raw) found
      ≡ (unmarshal_first (b ∷ raw) >>= next_round fuel (b ∷ raw) found)
unfolding unmarshal_loop next_round
loop_round fuel b raw found = refl

-- Once a packet is read, its bytes are there to be left behind.
pub next_round-drop :
    (fuel : ℕ) (raw : Bytes) (found : List Packet) (p : Packet) (n : ℕ)
    → n ≤ length raw
    → next_round fuel raw found (p, n) ≡ unmarshal_loop fuel (drop n raw) (found ++ (p ∷ []))
unfolding next_round
next_round-drop fuel raw found p n fits = rw (slice_from-drop raw n fits) refl

-- Any two fuels that are at least the length give the same result.
pub loop_fuel :
    (f g : ℕ) (raw : Bytes) (found : List Packet)
    → length raw ≤ f
    → length raw ≤ g
    → unmarshal_loop f raw found ≡ unmarshal_loop g raw found
unfolding next_round
loop_fuel f g [] found hf hg = unfold unmarshal_loop in refl
loop_fuel zero g (b ∷ raw) found hf hg = absurd (omega arith)
loop_fuel (suc f) zero (b ∷ raw) found hf hg = absurd (omega arith)
loop_fuel (suc f) (suc g) (b ∷ raw) found hf hg =
    loop_round f b raw found
    ∙ bind-ext (unmarshal_first (b ∷ raw)) (next_round f (b ∷ raw) found)
        (next_round g (b ∷ raw) found)
        (λ pn e.
          let (moved, fits) = first_progress (b ∷ raw) pn.0 pn.1 e in
          let size = length-drop pn.1 (b ∷ raw) in
          rw (slice_from-drop (b ∷ raw) pn.1 fits) (
            loop_fuel f g (drop pn.1 (b ∷ raw)) (found ++ (pn.0 ∷ []))
              (omega (arith, moved, fits, size, hf)) (omega (arith, moved, fits, size, hg))))
    ∙ sym (loop_round g b raw found)

pub some_packets-ok : (packets : List Packet) → packets ≢ [] → some_packets packets ≡ ok packets
unfolding some_packets
some_packets-ok [] ne = absurd (ne refl)
some_packets-ok (p ∷ packets) ne = refl

pub some_packets_inv :
    (found packets : List Packet)
    → some_packets found ≡ ok packets
    → (found ≡ packets) × (packets ≢ [])
unfolding some_packets
some_packets_inv [] packets e = cc
some_packets_inv (p ∷ found) packets e = (ground (arith, e), λ none. ground (arith, e, none))

-- The length of the datagram is fuel enough for the loop of `Unmarshal`: more of it changes nothing,
-- whatever the bytes are, since each packet takes at least one of them.
pub unmarshal_fuel :
    (raw : Bytes) (more : ℕ)
    → (unmarshal_loop (length raw + more) raw [] >>= some_packets) ≡ unmarshal raw
unfolding unmarshal
unmarshal_fuel raw more =
    ap (λ m. m >>= some_packets)
      (loop_fuel (length raw + more) (length raw) raw [] (omega arith) (omega arith))
