-- ===== src/CompoundPacket/Grammar.antt =====
-- The datagrams that `CompoundPacket.Unmarshal` accepts.
use rtcp.Prelude.{◌≡◌, ◌≢◌, ◌∙◌, ◌↔◌, refl, sym, ap, All, [], ◌∷◌, length}
use rtcp.Result.{ok, ◌>>=◌, bind-eq-ok}
use rtcp.Bytes.{Bytes, IsByte}
use rtcp.Packet
use rtcp.Packet.{Packet, unmarshal_loop, some_packets}
use rtcp.Packet.Progress.{some_packets-ok, some_packets_inv}
use rtcp.Packet.Datagram.{Datagram, unmarshal-Datagram}
use rtcp.Packet.Stable.{Lossless, Datagram-IsValid}
use rtcp.CompoundPacket.{CompoundPacket, validate, marshal, unmarshal}
use rtcp.CompoundPacket.Specification.{Compound, validate-Compound, accepted}
use rtcp.CompoundPacket.RoundTrip.{unmarshal-marshal_compound}

validated_filled : (c : CompoundPacket) → validate c ≡ ok tt → c ≢ []
unfolding validate
validated_filled [] v = λ _. cc
validated_filled (p ∷ packets) v = λ e. cc

-- The compound reader is the reader of datagrams, and `Validate` behind it.
both :
    (raw : Bytes) (c : CompoundPacket)
    → (unmarshal raw ≡ ok c) ↔ ((Packet.unmarshal raw ≡ ok c) × (validate c ≡ ok tt))
unfolding unmarshal Packet.unmarshal
both raw c = (
  λ e.
      let (out, loop, checked) = bind-eq-ok (unmarshal_loop (length raw) raw []) _ e in
      let (_, valid, same_) = bind-eq-ok (validate out) _ checked in
      let same : out ≡ c = cc in
      let valid_c = ap validate (sym same) ∙ valid in
      (rw (loop, same) (some_packets-ok c (validated_filled c valid_c)), valid_c),
  λ (e, valid).
      let (out, loop, some) = bind-eq-ok (unmarshal_loop (length raw) raw []) some_packets e in
      let (same, _) = some_packets_inv out c some in rw (loop, same, valid) refl,
)

-- `CompoundPacket.Unmarshal` answers a compound packet exactly when the datagram is made of its
-- packets, each in the bytes that its header counts, and these start with a report, go on with
-- receiver reports and then have a description with a CNAME.
pub unmarshal-Compound-Datagram :
    (raw : Bytes) (c : CompoundPacket)
    → (unmarshal raw ≡ ok c) ↔ (Datagram raw c × ((text : Bytes) × Compound c text))
unmarshal-Compound-Datagram raw c = (
  λ e.
      let (read, valid) = (both raw c).0 e in
      let (text, shape, _) = (validate-Compound c).0 valid in
      (((unmarshal-Datagram raw c).0 read).0, (text, shape)),
  λ (d, (text, shape)).
      let valid = accepted c text shape in
      (both raw c).1 ((unmarshal-Datagram raw c).1 (d, validated_filled c valid), valid),
)

-- A compound packet that was read from bytes below 256, and whose writer keeps all that was read, is
-- written, and read back the same.
pub unmarshal-marshal-unmarshal_compound :
    (raw : Bytes) (c : CompoundPacket)
    → All IsByte raw
    → unmarshal raw ≡ ok c
    → All Lossless c
    → (marshal c >>= unmarshal) ≡ ok c
unmarshal-marshal-unmarshal_compound raw c w e l =
    let (read, valid) = (both raw c).0 e in
    let (d, _) = (unmarshal-Datagram raw c).0 read in
    unmarshal-marshal_compound c valid (Datagram-IsValid d w l)
