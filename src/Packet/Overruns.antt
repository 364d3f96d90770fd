-- ===== src/Packet/Overruns.antt =====
-- A panic of a reader, where the loop of `Unmarshal` comes to it.
use rtcp.Prelude.{
  ℕ, zero, suc, ◌+◌, ◌*◌, ◌^◌, ◌≤◌, ◌<◌, ◌≡◌, ◌∙◌, refl, arith, length, length-take, length-drop,
  take-length, drop-length, take, drop, List, [], ◌∷◌, ◌++◌,
}
use rtcp.Result.{ok, panic}
use rtcp.Bytes.{Bytes, to_uint16, uint16_at}
use rtcp.Header
use rtcp.Header.{Header}
use rtcp.TransportLayerNack.Reading as Nack
use rtcp.TransportLayerCc.Overruns as Tcc
use rtcp.Packet.{
  Packet, kind_of, transport_kind, payload_kind, kind_nack, kind_tcc, bytes_processed,
  unmarshal_kind, unmarshal_first, unmarshal_loop, unmarshal,
}
use rtcp.Packet.Progress.{as_parts, first_progress, loop_round, next_round-drop}
use rtcp.Packet.Datagram.{header-take}
use rtcp.Packet.Reached.{Reached, start, next}

-- A round takes the loop on to the rest behind the packet.
loop_step :
    (fuel : ℕ) (rest : Bytes) (found : List Packet) (p : Packet) (n : ℕ)
    → unmarshal_first rest ≡ ok (p, n)
    → length rest ≤ fuel
    → (less : ℕ) × (length (drop n rest) ≤ less)
      × (unmarshal_loop fuel rest found ≡ unmarshal_loop less (drop n rest) (found ++ (p ∷ [])))
loop_step fuel [] found p n e enough = absurd (omega (arith, first_progress [] p n e))
loop_step zero (b ∷ rest) found p n e enough = absurd (omega arith)
loop_step (suc fuel) (b ∷ rest) found p n e enough =
    let (moved, fits) = first_progress (b ∷ rest) p n e in
    (
      fuel,
      omega (arith, length-drop n (b ∷ rest), moved, enough),
      loop_round fuel b rest found ∙ rw e (next_round-drop fuel (b ∷ rest) found p n fits),
    )

-- Where the loop is when a round begins at the rest.
record LoopAt (raw rest : Bytes) : Type 0 where
  fuel : ℕ
  found : List Packet
  enough : length rest ≤ fuel
  same : unmarshal_loop (length raw) raw [] ≡ unmarshal_loop fuel rest found

Reached-LoopAt : {raw rest : Bytes} → Reached raw rest → LoopAt raw rest
Reached-LoopAt {raw} start = record {
  fuel = length raw;
  found = [];
  enough = omega arith;
  same = refl;
}
Reached-LoopAt (next rest p n r e) =
    let l = Reached-LoopAt r in
    let (less, enough, step) = loop_step l.fuel rest l.found p n e l.enough in
    record { fuel = less; found = l.found ++ (p ∷ []); enough = enough; same = l.same ∙ step }

loop_panic :
    (fuel : ℕ) (rest : Bytes) (found : List Packet)
    → unmarshal_first rest ≡ panic
    → length rest ≤ fuel
    → unmarshal_loop fuel rest found ≡ panic
loop_panic fuel [] found e enough = absurd (unfold unmarshal_first Header.unmarshal in cc)
loop_panic zero (b ∷ rest) found e enough = absurd (omega arith)
loop_panic (suc fuel) (b ∷ rest) found e enough = loop_round fuel b rest found ∙ rw e refl

-- A round that panics is the last.
pub Reached-panic :
    {raw rest : Bytes} → Reached raw rest → unmarshal_first rest ≡ panic → unmarshal raw ≡ panic
unfolding unmarshal
Reached-panic {rest} r e =
    let l = Reached-LoopAt r in rw (l.same, loop_panic l.fuel rest l.found e l.enough) refl

-- What a header of a nack says.
nack_fields : (h : Header) → kind_of h ≡ kind_nack → (h.type ≡ 205) × (h.count ≡ 1)
unfolding kind_of transport_kind payload_kind
nack_fields h e = (ground arith, ground arith)

eight_words : (n : ℕ) → to_uint16 (n + 1) * 4 ≡ 8 → to_uint16 (4 * n) ≡ 4
eight_words n e = omega (arith, e)

nack_panic :
    (b spare : Bytes) (h : Header)
    → Header.unmarshal b ≡ ok h
    → kind_of h ≡ kind_nack
    → bytes_processed h ≡ 8
    → length b ≡ 8
    → unmarshal_kind kind_nack b spare ≡ panic
unfolding unmarshal_kind
nack_panic b spare h read nack eight size =
    let (type, count) = nack_fields h nack in
    rw
      (Nack.unmarshal_short_panic _ b h read type count
        (omega (arith, size, eight_words h.length eight)) (omega (arith, size))
        (omega (arith, size)))
      refl

first_nack_panic :
    (raw : Bytes) (h : Header)
    → Header.unmarshal raw ≡ ok h
    → kind_of h ≡ kind_nack
    → bytes_processed h ≡ 8
    → 8 ≤ length raw
    → unmarshal_first raw ≡ panic
unfolding unmarshal_first
first_nack_panic raw h read nack eight long =
    let own = header-take 8 raw (omega arith) read in
    let size : length (take 8 raw) ≡ 8 = omega (arith, length-take 8 raw, long) in
    rw read (
      as_parts raw h (omega (arith, eight, long))
      ∙ rw (eight, nack, nack_panic (take 8 raw) (drop 8 raw) h own nack eight size) refl)

-- A datagram in which a round begins at a nack of eight bytes makes `Unmarshal` panic, whatever
-- packets stand before it and whatever bytes behind it: the reader checks for eight bytes, and reads
-- the media SSRC behind them.
pub unmarshal-nack_panic :
    (raw rest : Bytes) (h : Header)
    → Reached raw rest
    → Header.unmarshal rest ≡ ok h
    → kind_of h ≡ kind_nack
    → bytes_processed h ≡ 8
    → 8 ≤ length rest
    → unmarshal raw ≡ panic
unmarshal-nack_panic raw rest h r read nack eight long =
    Reached-panic r (first_nack_panic rest h read nack eight long)

-- What a header of congestion control feedback says.
tcc_fields : (h : Header) → kind_of h ≡ kind_tcc → (h.type ≡ 205) × (h.count ≡ 15)
unfolding kind_of transport_kind payload_kind
tcc_fields h e = (ground arith, ground arith)

first_tcc_panic :
    (raw : Bytes) (h : Header) (count : ℕ)
    → Header.unmarshal raw ≡ ok h
    → kind_of h ≡ kind_tcc
    → bytes_processed h ≡ length raw
    → 20 < length raw
    → length raw < 2 ^ 16
    → uint16_at raw 14 ≡ ok count
    → length raw < 20 + 2 * count
    → unmarshal_first raw ≡ panic
unfolding unmarshal_first unmarshal_kind
first_tcc_panic raw h count read tcc size room small statuses more =
    let (type, format) = tcc_fields h tcc in
    rw read (
      as_parts raw h (omega (arith, size))
      ∙ rw
          (
            size,
            tcc,
            take-length raw,
            drop-length raw,
            Tcc.unmarshal_overrun _ raw h count read type format size room small statuses more,
          )
          refl)

-- A datagram, a slice with no spare capacity, whose last packet is congestion control feedback of more
-- than 20 and less than 2 ^ 16 bytes that counts more packet statuses than it has two bytes for behind
-- its 20 bytes of fixed fields makes `Unmarshal` panic, whatever packets stand before it and whatever
-- its chunks say: the loop takes each status for a chunk, and goes past the end.
pub unmarshal-tcc_panic :
    (raw rest : Bytes) (h : Header) (count : ℕ)
    → Reached raw rest
    → Header.unmarshal rest ≡ ok h
    → kind_of h ≡ kind_tcc
    → bytes_processed h ≡ length rest
    → 20 < length rest
    → length rest < 2 ^ 16
    → uint16_at rest 14 ≡ ok count
    → length rest < 20 + 2 * count
    → unmarshal raw ≡ panic
unmarshal-tcc_panic raw rest h count r read tcc size room small statuses more =
    Reached-panic r (first_tcc_panic rest h count read tcc size room small statuses more)
