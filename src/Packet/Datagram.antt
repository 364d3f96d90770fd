-- ===== src/Packet/Datagram.antt =====
-- A datagram as the packets that it is made of, with no loop and no fuel, against `Unmarshal`.
use rtcp.Prelude.{
  ℕ, zero, suc, ◌≤◌, ◌<◌, ◌≡◌, ◌≢◌, ◌∙◌, ◌↔◌, refl, sym, ap, arith, length, length-append,
  length-take, take, drop, List, [], ◌∷◌, ◌++◌, append_assoc, append-nil,
}
use native.Mathlib.Decide.{dec_le}
use mathlib.Core.Path.{subst}
use rtcp.Result.{ok, ◌>>=◌, bind-eq-ok}
use rtcp.Bytes.{Bytes}
use rtcp.Bytes.Laws.{slice_from-append}
use rtcp.Header
use rtcp.Header.{Header}
use rtcp.Header.Wire
use rtcp.Packet.{
  Packet, kind_of, bytes_processed, unmarshal_kind, unmarshal_as, unmarshal_first, unmarshal_loop,
  unmarshal, some_packets, transport_layer_cc, Kind, kind_sender_report, kind_receiver_report,
  kind_source_description, kind_goodbye, kind_nack, kind_rrr, kind_tcc, kind_pli, kind_sli,
  kind_remb, kind_raw,
}
use rtcp.TransportLayerCc.Packet as TransportLayerCc
use rtcp.TransportLayerCc.Spare as Tcc
use rtcp.Outcome.{Keeps, Keeps-refl, Keeps-bind}
use rtcp.Packet.First.{header-append, header_long, first_of}
use rtcp.Packet.Progress.{
  as_parts, as_short, first_progress, next_round, loop_round, next_round-drop, loop_fuel,
  some_packets-ok, some_packets_inv,
}
use rtcp.Packet.Reached.{split}

-- Each packet's own bytes begin with a header, which says how many they are and who reads them. The
-- next packet begins right behind.
pub data Datagram : Bytes → List Packet → Type 0 where
  nothing : Datagram [] []
  packet :
      (h : Header) (own rest : Bytes) (p : Packet) (raw : Bytes) (packets : List Packet)
      → raw ≡ own ++ rest
      → Header.unmarshal own ≡ ok h
      → bytes_processed h ≡ length own
      → unmarshal_kind (kind_of h) own rest ≡ ok p
      → Datagram rest packets
      → Datagram raw (p ∷ packets)

-- Bytes are packets.
pub Datagram-filled :
    {raw : Bytes} {packets : List Packet} → Datagram raw packets → 0 < length raw → packets ≢ []
Datagram-filled nothing some = absurd (omega (arith, some))
Datagram-filled (packet h own rest p raw packets parts header size read d) some = λ e. cc

-- Bytes behind the header are not needed to read it.
pub header-take :
    (n : ℕ) (raw : Bytes) {h : Header}
    → 4 ≤ n
    → Header.unmarshal raw ≡ ok h
    → Header.unmarshal (take n raw) ≡ ok h
unfolding Header.unmarshal
header-take (suc (suc (suc (suc n)))) (x ∷ y ∷ z ∷ w ∷ b) long e =
    Wire.unmarshal-fields x y z w (take n b) ∙ (sym (Wire.unmarshal-fields x y z w b) ∙ e)
header-take (suc (suc (suc (suc n)))) _ long e = cc
header-take _ raw long e = absurd (omega arith)

-- What a round reads is a packet at the front of the datagram.
first-Datagram :
    (raw : Bytes) (p : Packet) (n : ℕ) (packets : List Packet)
    → unmarshal_first raw ≡ ok (p, n)
    → Datagram (drop n raw) packets
    → Datagram raw (p ∷ packets)
unfolding unmarshal_first
first-Datagram raw p n packets e d =
    let (moved, fits) = first_progress raw p n e in
    let (h, header, as_) = bind-eq-ok (Header.unmarshal raw) (unmarshal_as raw) e in
    elim (dec_le (bytes_processed h) (length raw)) [
      | no long ↦ let refused = as_short raw h (omega (arith, long)) in ground (arith, refused, as_)
      | yes inside ↦
          let (q, read, same) =
            bind-eq-ok
              (unmarshal_kind (kind_of h) (take (bytes_processed h) raw)
                (drop (bytes_processed h) raw))
              (λ p. ok (p, bytes_processed h)) (sym (as_parts raw h inside) ∙ as_) in
          let size : bytes_processed h ≡ n = ground (arith, same) in
          let own_packet : q ≡ p = ground (arith, same) in
          packet h (take n raw) (drop n raw) p raw packets (sym (split n raw))
            (header-take n raw (omega (arith, moved, size)) header)
            (size ∙ omega (arith, length-take n raw, fits)) (rw (← size, ← own_packet) read) d
    ]

-- What the loop adds to the packets found before.
pub loop-Datagram :
    (fuel : ℕ) (raw : Bytes) (found result : List Packet)
    → unmarshal_loop fuel raw found ≡ ok result
    → (packets : List Packet) × (result ≡ found ++ packets) × Datagram raw packets
unfolding unmarshal_loop
loop-Datagram fuel [] found result e =
    let same : found ≡ result = ground (arith, e) in
    ([], sym same ∙ sym (append-nil found), nothing)
loop-Datagram zero (b ∷ raw) found result e = cc
loop-Datagram (suc fuel) (b ∷ raw) found result e =
    let ((p, n), first, round) =
      bind-eq-ok (unmarshal_first (b ∷ raw)) (next_round fuel (b ∷ raw) found)
        (sym (loop_round fuel b raw found) ∙ e) in
    let (moved, fits) = first_progress (b ∷ raw) p n first in
    let (packets, same, d) =
      loop-Datagram fuel (drop n (b ∷ raw)) (found ++ (p ∷ [])) result
        (sym (next_round-drop fuel (b ∷ raw) found p n fits) ∙ round) in
    (
      p ∷ packets,
      same ∙ append_assoc found (p ∷ []) packets,
      first-Datagram (b ∷ raw) p n packets first d,
    )

-- More bytes behind it do not change how a packet is read.
kind-Keeps :
    (k : Kind) (own rest more : Bytes)
    → Keeps (unmarshal_kind k own rest) (unmarshal_kind k own (rest ++ more))
unfolding unmarshal_kind
kind-Keeps kind_tcc own rest more =
    Keeps-bind (Tcc.unmarshal-Keeps TransportLayerCc.zero_value own rest more)
      λ t. Keeps-refl (ok (transport_layer_cc t))
kind-Keeps kind_sender_report own rest more = Keeps-refl _
kind-Keeps kind_receiver_report own rest more = Keeps-refl _
kind-Keeps kind_source_description own rest more = Keeps-refl _
kind-Keeps kind_goodbye own rest more = Keeps-refl _
kind-Keeps kind_nack own rest more = Keeps-refl _
kind-Keeps kind_rrr own rest more = Keeps-refl _
kind-Keeps kind_pli own rest more = Keeps-refl _
kind-Keeps kind_sli own rest more = Keeps-refl _
kind-Keeps kind_remb own rest more = Keeps-refl _
kind-Keeps kind_raw own rest more = Keeps-refl _

front_round :
    (fuel : ℕ) (own rest : Bytes) (p : Packet) (found : List Packet)
    → 0 < length own
    → unmarshal_first (own ++ rest) ≡ ok (p, length own)
    → unmarshal_loop (suc fuel) (own ++ rest) found ≡ unmarshal_loop fuel rest (found ++ (p ∷ []))
unfolding unmarshal_loop
front_round fuel [] rest p found some e = absurd (omega arith)
front_round fuel (b ∷ own) rest p found some e = rw (e, slice_from-append (b ∷ own) rest) refl

-- The loop goes through the packets of a datagram, and is then at what stands behind it.
pub Datagram-loop :
    {raw : Bytes} {packets : List Packet} (more : Bytes) (fuel : ℕ) (found : List Packet)
    → Datagram raw packets
    → length (raw ++ more) ≤ fuel
    → unmarshal_loop fuel (raw ++ more) found ≡ unmarshal_loop (length more) more (found ++ packets)
Datagram-loop more fuel found nothing enough =
    loop_fuel fuel (length more) more found enough (omega arith)
    ∙ ap (unmarshal_loop (length more) more) (sym (append-nil found))
Datagram-loop more zero found (packet h own rest p raw packets parts header size read d) enough =
    absurd (
      omega (
        arith,
        header_long own header,
        ap length parts,
        length-append own rest,
        length-append raw more,
        enough,
      ))
Datagram-loop more (suc fuel) found (packet h own rest p raw packets parts header size read d)
      enough =
    let long = header_long own header in
    let whole : raw ++ more ≡ own ++ (rest ++ more) =
      ap (λ b. b ++ more) parts ∙ append_assoc own rest more in
    let first =
      first_of h own (rest ++ more) (header-append own (rest ++ more) header) size
        ((kind-Keeps (kind_of h) own rest more).value p read) in
    let room : length (rest ++ more) ≤ fuel =
      omega (arith, long, ap length whole, length-append own (rest ++ more), enough) in
    ap (λ b. unmarshal_loop (suc fuel) b found) whole
    ∙ front_round fuel own (rest ++ more) p found (omega (arith, long)) first
    ∙ Datagram-loop more fuel (found ++ (p ∷ [])) d room
    ∙ ap (unmarshal_loop (length more) more) (append_assoc found (p ∷ []) packets)

-- `Unmarshal` answers a list of packets exactly when the list is not empty and the datagram is made
-- of these packets: each one's own bytes begin with a header that says how many they are and that
-- selects the reader which reads them, and the next packet begins right behind them.
pub unmarshal-Datagram :
    (raw : Bytes) (packets : List Packet)
    → (unmarshal raw ≡ ok packets) ↔ (Datagram raw packets × (packets ≢ []))
unfolding unmarshal
unmarshal-Datagram raw packets = (
  λ e.
      let (result, loop, some) = bind-eq-ok (unmarshal_loop (length raw) raw []) some_packets e in
      let (found, same, d) = loop-Datagram (length raw) raw [] result loop in
      let (all, filled) = some_packets_inv result packets some in
      (subst (Datagram raw) (sym same ∙ all) d, filled),
  λ (d, filled).
      let looped = Datagram-loop [] (length raw) [] d (omega (arith, ap length (append-nil raw))) in
      let ends : unmarshal_loop (length raw) (raw ++ []) [] ≡ ok packets =
        looped ∙ (unfold unmarshal_loop in refl) in
      ap (λ b. unmarshal_loop (length raw) b [] >>= some_packets) (sym (append-nil raw))
      ∙ rw ends (some_packets-ok packets filled),
)
