-- ===== src/CompoundPacket/Reading.antt =====
-- `CompoundPacket.Unmarshal` on arbitrary bytes.
use rtcp.Prelude.{◌≡◌, arith, All, List, [], ◌∷◌, length, none, false}
use rtcp.Result.{ok, err, err_missing_cname}
use rtcp.Outcome.{Ends, Ends-ok, Ends-if, Ends-bind, Ends-bind_eq}
use rtcp.Bytes.{Bytes, IsByte}
use rtcp.Packet.{Packet, receiver_report, source_description, sender_report}
use rtcp.Packet.Reading.{Typed}
use rtcp.Packet.Reached.{OverrunIn, start, loop-Ends}
use rtcp.CompoundPacket.{
  CompoundPacket, check_first, check_rest, chunks_have_cname, validate, cname, unmarshal,
}
use rtcp.CompoundPacket.Specification.{Compound, validate-Compound}

module _ {panics : Type 0} where
  check_first-Ends : (p : Packet) → Ends panics (λ _. Unit {0}) (check_first p)
  unfolding check_first
  check_first-Ends (sender_report p) = record { at = tt }
  check_first-Ends (receiver_report p) = record { at = tt }
  check_first-Ends _ = record { at = tt }

  check_rest-Ends : (packets : List Packet) → Ends panics (λ _. Unit {0}) (check_rest packets)
  unfolding check_rest
  check_rest-Ends [] = record { at = tt }
  check_rest-Ends (receiver_report p ∷ packets) = check_rest-Ends packets
  check_rest-Ends (source_description s ∷ packets) =
      Ends-if (λ _. Unit {0}) (chunks_have_cname false s.chunks) (ok tt) (err err_missing_cname)
        (record { at = tt }) (record { at = tt })
  check_rest-Ends (_ ∷ packets) = record { at = tt }

  validate-Ends : (c : CompoundPacket) → Ends panics (λ _. Unit {0}) (validate c)
  unfolding validate
  validate-Ends [] = record { at = tt }
  validate-Ends (p ∷ packets) = Ends-bind (check_first-Ends p) λ _ _. check_rest-Ends packets

-- A compound packet whose fields fit, and whose name is known.
pub record Validated (c : CompoundPacket) : Type 0 where
  pub typed : All Typed c
  pub text : Bytes
  pub compound : Compound c text
  pub name : cname c ≡ (text, none)

-- Whatever the bytes of a datagram are, all of them below 256, `CompoundPacket.Unmarshal` ends: with
-- an error, or with packets whose fields all fit, which start with a report, go on with receiver
-- reports and then have a description with a CNAME, the one that `CNAME` answers. It may panic only
-- where a round begins at an eight-byte nack, or at congestion control feedback with less than two
-- bytes behind it.
pub unmarshal_compound-Ends :
    (raw : Bytes) → All IsByte raw → Ends (OverrunIn raw) Validated (unmarshal raw)
unfolding unmarshal
unmarshal_compound-Ends raw w =
    Ends-bind (loop-Ends (length raw) raw raw [] w (omega arith) start tt) λ packets v.
      Ends-bind_eq (validate-Ends packets) λ _ accepted _.
        let (text, c, name) = (validate-Compound packets).0 accepted in
        Ends-ok Validated packets (record { typed = v; text = text; compound = c; name = name })
