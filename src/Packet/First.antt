-- ===== src/Packet/First.antt =====
-- The first packet of a datagram, from its header and its own bytes.
use rtcp.Prelude.{
  ◌≤◌, ◌≡◌, ◌∙◌, sym, arith, length, ◌∷◌, ◌++◌, append_assoc, length-append, le→ltb_false,
}
use rtcp.Result.{ok}
use rtcp.Bytes.{Bytes}
use rtcp.Bytes.Laws.{slice_to-append, slice_from-append}
use rtcp.Header
use rtcp.Header.{Header}
use rtcp.Header.Wire
use rtcp.Packet.{Packet, kind_of, unmarshal_kind, bytes_processed, unmarshal_first, unmarshal_as}

pub header_first :
    (h : Header) (body rest : Bytes)
    → Header.IsValid h
    → Header.unmarshal ((Wire.encode h ++ body) ++ rest) ≡ ok h
header_first h body rest v =
    rw (append_assoc (Wire.encode h) body rest) (Wire.unmarshal-encode h (body ++ rest) v)

-- Bytes behind the header do not change it.
pub header-append :
    (b rest : Bytes) {h : Header} → Header.unmarshal b ≡ ok h → Header.unmarshal (b ++ rest) ≡ ok h
unfolding Header.unmarshal
header-append (x ∷ y ∷ z ∷ w ∷ b) rest e =
    Wire.unmarshal-fields x y z w (b ++ rest) ∙ (sym (Wire.unmarshal-fields x y z w b) ∙ e)
header-append _ rest e = cc

pub header_long : (b : Bytes) {h : Header} → Header.unmarshal b ≡ ok h → 4 ≤ length b
unfolding Header.unmarshal
header_long (x ∷ y ∷ z ∷ w ∷ b) e = omega arith
header_long _ e = cc

-- Where the header says how long the packet's bytes `b` are, they alone are read.
pub first_of :
    (h : Header) (b rest : Bytes) {q : Packet}
    → Header.unmarshal (b ++ rest) ≡ ok h
    → bytes_processed h ≡ length b
    → unmarshal_kind (kind_of h) b rest ≡ ok q
    → unmarshal_first (b ++ rest) ≡ ok (q, length b)
unfolding unmarshal_first unmarshal_as
first_of h b rest e size read = rw (
  e,
  size,
  le→ltb_false (length (b ++ rest)) (length b) (omega (arith, length-append b rest)),
  slice_to-append b rest,
  slice_from-append b rest,
  read,
)
