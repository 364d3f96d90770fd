-- ===== src/Packet/Reached.antt =====
-- `Unmarshal` of packet.go on an arbitrary datagram, round by round.
use rtcp.Prelude.{
  ℕ, zero, suc, ◌+◌, ◌≤◌, ◌<◌, ◌≡◌, ◌∙◌, refl, sym, ap, arith, length, length-drop, length-take,
  take, drop, All, All-append, List, [], ◌∷◌, ◌++◌,
}
use native.Mathlib.Decide.{dec_le}
use rtcp.Result.{ok, err_invalid_header, err_packet_too_short}
use rtcp.Outcome.{Ends, Ends-ok, Ends-err, Ends-bind, Ends-bind_eq, Ends-allow}
use rtcp.Bytes.{Bytes, IsByte}
use rtcp.Bytes.Laws.{slice_from-drop}
use rtcp.Bytes.Outcome.{drop-bytes, take-bytes}
use rtcp.Header
use rtcp.Header.{Header}
use rtcp.Header.Reading as HeaderReading
use rtcp.Packet.{
  Packet, Kind, kind_sender_report, kind_receiver_report, kind_source_description, kind_goodbye,
  kind_nack, kind_rrr, kind_tcc, kind_pli, kind_sli, kind_remb, kind_raw, kind_of, transport_kind,
  payload_kind, bytes_processed, unmarshal_as, unmarshal_first, unmarshal_loop, unmarshal,
  some_packets,
}
use rtcp.Packet.First.{header-append}
use rtcp.Packet.Progress.{first_progress, as_parts, as_short}
use rtcp.Packet.Reading.{Typed, MayPanic, unmarshal_kind-Ends}

-- The two beginnings of a datagram that make a reader run out of range.
pub data Overruns (raw : Bytes) : Type 0 where
  -- A nack of eight bytes.
  short_nack :
      (h : Header)
      → Header.unmarshal raw ≡ ok h
      → kind_of h ≡ kind_nack
      → bytes_processed h ≡ 8
      → Overruns raw
  -- Congestion control feedback with less than two bytes behind it.
  last_tcc :
      (h : Header)
      → Header.unmarshal raw ≡ ok h
      → kind_of h ≡ kind_tcc
      → length raw < bytes_processed h + 2
      → Overruns raw

-- What a header of a slice loss indication says.
pub sli_type : (h : Header) → kind_of h ≡ kind_sli → h.type ≡ 206
unfolding kind_of transport_kind payload_kind
sli_type h e = ground arith

pub split : (n : ℕ) (b : Bytes) → take n b ++ drop n b ≡ b
split zero b = refl
split (suc n) [] = refl
split (suc n) (x ∷ b) = ap (λ t. x ∷ t) (split n b)

-- The packet's own bytes hold the header of the datagram.
pub header_of_part :
    (raw : Bytes) (n : ℕ) {g h : Header}
    → Header.unmarshal (take n raw) ≡ ok g
    → Header.unmarshal raw ≡ ok h
    → ok g ≡ ok h
header_of_part raw n part whole =
    sym (header-append (take n raw) (drop n raw) part) ∙ (ap Header.unmarshal (split n raw) ∙ whole)

overruns :
    (raw : Bytes) (h : Header) (k : Kind)
    → Header.unmarshal raw ≡ ok h
    → bytes_processed h ≤ length raw
    → kind_of h ≡ k
    → MayPanic k (take (bytes_processed h) raw) (drop (bytes_processed h) raw)
    → Overruns raw
overruns raw h kind_nack read fits e m =
    short_nack h read e (omega (arith, length-take (bytes_processed h) raw, fits, m.0, m.1))
overruns raw h kind_tcc read fits e m =
    last_tcc h read e (omega (arith, length-drop (bytes_processed h) raw, fits, m))
overruns raw h kind_sli read fits e m =
    let n = bytes_processed h in
    let same : ok m.header ≡ ok h = header_of_part raw n m.reads read in
    absurd (ground (arith, same, m.type, sli_type h e))
overruns raw h kind_sender_report read fits e m = absurd m
overruns raw h kind_receiver_report read fits e m = absurd m
overruns raw h kind_source_description read fits e m = absurd m
overruns raw h kind_goodbye read fits e m = absurd m
overruns raw h kind_rrr read fits e m = absurd m
overruns raw h kind_pli read fits e m = absurd m
overruns raw h kind_remb read fits e m = absurd m
overruns raw h kind_raw read fits e m = absurd m

as-Ends :
    (raw : Bytes) (h : Header)
    → All IsByte raw
    → Header.unmarshal raw ≡ ok h
    → Ends (Overruns raw) (λ pn. Typed pn.0) (unmarshal_as raw h)
as-Ends raw h w read = elim (dec_le (bytes_processed h) (length raw)) [
  | no long ↦ rw (as_short raw h (omega (arith, long))) (Ends-err _ err_packet_too_short)
  | yes fits ↦
      let n = bytes_processed h in
      rw (as_parts raw h fits) (
        Ends-bind
          (Ends-allow Typed _ (overruns raw h (kind_of h) read fits refl) (
            unmarshal_kind-Ends (kind_of h) (take n raw) (drop n raw) (take-bytes n raw w)
              (drop-bytes n raw w)))
          λ p t. Ends-ok (λ pn. Typed pn.0) (p, n) t)
]

-- From bytes below 256 the first packet of a datagram is read to an end, and it is typed. A panic
-- shows that the datagram begins with an eight-byte nack, or with congestion control feedback and
-- less than two bytes behind it; no other header makes a reader panic.
pub unmarshal_first-Ends :
    (raw : Bytes) → All IsByte raw → Ends (Overruns raw) (λ pn. Typed pn.0) (unmarshal_first raw)
unfolding unmarshal_first
unmarshal_first-Ends raw w =
    Ends-bind_eq (HeaderReading.unmarshal-Ends raw w) λ h read _. as-Ends raw h w read

-- The rests of a datagram at which a round of `Unmarshal` begins.
pub data Reached (raw : Bytes) : Bytes → Type 0 where
  start : Reached raw raw
  next :
      (rest : Bytes) (p : Packet) (n : ℕ)
      → Reached raw rest
      → unmarshal_first rest ≡ ok (p, n)
      → Reached raw (drop n rest)

-- A round begins at an overrun.
pub record OverrunIn (raw : Bytes) : Type 0 where
  pub rest : Bytes
  pub reached : Reached raw rest
  pub overruns : Overruns rest

pub loop-Ends :
    (fuel : ℕ) (raw rest : Bytes) (packets : List Packet)
    → All IsByte rest
    → length rest ≤ fuel
    → Reached raw rest
    → All Typed packets
    → Ends (OverrunIn raw) (λ found. All Typed found) (unmarshal_loop fuel rest packets)
unfolding unmarshal_loop
loop-Ends fuel raw [] packets w enough r v = Ends-ok (λ found. All Typed found) packets v
loop-Ends zero raw (b ∷ rest) packets w enough r v = absurd (omega arith)
loop-Ends (suc fuel) raw (b ∷ rest) packets w enough r v =
    Ends-bind_eq
      (Ends-allow (λ pn. Typed pn.0) _ (λ o. record { rest = b ∷ rest; reached = r; overruns = o })
        (unmarshal_first-Ends (b ∷ rest) w))
      λ pn e t.
        let (moved, fits) = first_progress (b ∷ rest) pn.0 pn.1 e in
        rw (slice_from-drop (b ∷ rest) pn.1 fits) (
          loop-Ends fuel raw (drop pn.1 (b ∷ rest)) (packets ++ (pn.0 ∷ []))
            (drop-bytes pn.1 (b ∷ rest) w)
            (omega (arith, length-drop pn.1 (b ∷ rest), moved, enough))
            (next (b ∷ rest) pn.0 pn.1 r e) (All-append Typed packets (pn.0 ∷ []) v (t, tt)))

-- At least one packet, and each of them typed.
pub record AllTyped (packets : List Packet) : Type 0 where
  pub some : 0 < length packets
  pub typed : All Typed packets

some-Ends :
    {panics : Type 0} (packets : List Packet)
    → All Typed packets
    → Ends panics AllTyped (some_packets packets)
unfolding some_packets
some-Ends [] v = Ends-err AllTyped err_invalid_header
some-Ends (p ∷ packets) v =
    Ends-ok AllTyped (p ∷ packets) (record { some = omega arith; typed = v })

-- Whatever the bytes of a datagram are, all of them below 256, `Unmarshal` ends within its fuel and
-- that of its inner loops, with an error or with at least one packet, whose fields all fit their
-- types and counts. It may panic only where a round begins at an eight-byte nack, or at congestion
-- control feedback with less than two bytes behind it.
pub unmarshal-Ends : (raw : Bytes) → All IsByte raw → Ends (OverrunIn raw) AllTyped (unmarshal raw)
unfolding unmarshal
unmarshal-Ends raw w =
    Ends-bind (loop-Ends (length raw) raw raw [] w (omega arith) start tt)
      λ packets v. some-Ends packets v
