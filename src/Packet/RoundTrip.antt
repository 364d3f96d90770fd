-- ===== src/Packet/RoundTrip.antt =====
-- Lists of packets through a datagram.
use rtcp.Prelude.{
  ℕ, zero, suc, ◌≤◌, ◌≡◌, ◌≢◌, ◌∙◌, sym, ap, arith, length, List, [], ◌∷◌, ◌++◌, append_assoc,
  append-nil, length-append, All,
}
use rtcp.Result.{ok, ◌>>=◌}
use rtcp.Bytes.{Bytes}
use rtcp.Bytes.Laws.{slice_from-append}
use rtcp.Packet.{Packet, unmarshal_first, marshal_loop, unmarshal_loop, marshal, unmarshal}
use rtcp.Packet.Progress.{some_packets-ok}
use rtcp.Packet.Valid.{IsValid}
use rtcp.Packet.Encoded.{Written}
use rtcp.Packet.Written.{valid-Written}

-- The bytes of a list of packets, one after the other.
pub record Stream (packets : List Packet) : Type 0 where
  pub bytes : Bytes
  pub marshals : (out : Bytes) → marshal_loop out packets ≡ ok (out ++ bytes)
  pub long : length packets ≤ length bytes
  pub unmarshals :
      (fuel : ℕ) (found : List Packet)
      → length bytes ≤ fuel
      → unmarshal_loop fuel bytes found ≡ ok (found ++ packets)

-- One round of the loop.
round :
    (fuel : ℕ) (b rest : Bytes) (p : Packet) (found : List Packet)
    → 4 ≤ length b
    → unmarshal_first (b ++ rest) ≡ ok (p, length b)
    → unmarshal_loop (suc fuel) (b ++ rest) found ≡ unmarshal_loop fuel rest (found ++ (p ∷ []))
unfolding unmarshal_loop
round fuel [] rest p found long e = absurd (omega arith)
round fuel (x ∷ b) rest p found long e = let after = slice_from-append (x ∷ b) rest in rw (e, after)

read-Stream :
    (p : Packet) (packets : List Packet) (w : Written p) (s : Stream packets) (fuel : ℕ)
    (found : List Packet)
    → length (w.bytes ++ s.bytes) ≤ fuel
    → unmarshal_loop fuel (w.bytes ++ s.bytes) found ≡ ok (found ++ (p ∷ packets))
read-Stream p packets w s zero found h =
    absurd (omega (arith, w.long, length-append w.bytes s.bytes, h))
read-Stream p packets w s (suc fuel) found h =
    round fuel w.bytes s.bytes p found w.long (w.first s.bytes)
    ∙ (s.unmarshals fuel (found ++ (p ∷ []))
          (omega (arith, w.long, length-append w.bytes s.bytes, h))
        ∙ ap ok (append_assoc found (p ∷ []) packets))

pub packets-Stream : (packets : List Packet) → All IsValid packets → Stream packets
unfolding marshal_loop unmarshal_loop
packets-Stream [] v = record {
  bytes = [];
  marshals = λ out. ap ok (sym (append-nil out));
  long = omega arith;
  unmarshals = λ fuel found h. ap ok (sym (append-nil found));
}
packets-Stream (p ∷ packets) (v, vs) =
    let w = valid-Written p v in
    let s = packets-Stream packets vs in
    let size = length-append w.bytes s.bytes in
    record {
      bytes = w.bytes ++ s.bytes;
      marshals = λ out.
          rw (w.marshals, s.marshals (out ++ w.bytes)) (ap ok (append_assoc out w.bytes s.bytes));
      long = omega (arith, w.long, s.long, size);
      unmarshals = λ fuel found h. read-Stream p packets w s fuel found h;
    }

pub unmarshal-marshal_packets :
    (packets : List Packet)
    → packets ≢ []
    → All IsValid packets
    → (marshal packets >>= unmarshal) ≡ ok packets
unfolding marshal unmarshal
unmarshal-marshal_packets packets ne v =
    let s = packets-Stream packets v in
    let fuel : length s.bytes ≤ length s.bytes = omega arith in
    rw (s.marshals [], s.unmarshals (length s.bytes) [] fuel) (some_packets-ok packets ne)
