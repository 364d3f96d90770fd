-- ===== src/TransportLayerNack/Wire.antt =====
-- Pairs written to and read from a slice.
use rtcp.Prelude.{
  ℕ, ◌+◌, ◌*◌, ◌≡◌, ◌∙◌, refl, sym, ap, arith, length, All, List, [], ◌∷◌, ◌++◌, append_assoc,
  append-nil, length-append,
}
use rtcp.Result.{ok}
use rtcp.Bytes.{Bytes, IsUint16, make, uint16_at, be16}
use rtcp.Bytes.Laws.{put_at, make-add, slice_from-append, uint16-be16}
use rtcp.TransportLayerNack.{NackPair, put_nacks, nacks_at}

pub record IsTyped (n : NackPair) : Type 0 where
  pub packet_id_bound : IsUint16 n.packet_id
  pub lost_packets_bound : IsUint16 n.lost_packets

abbrev pub encode_nacks : List NackPair → Bytes
encode_nacks [] = []
encode_nacks (n ∷ nacks) = be16 n.packet_id ++ (be16 n.lost_packets ++ encode_nacks nacks)

length-be16_only : (v : ℕ) → length (be16 v) ≡ 2
unfolding be16
length-be16_only v = refl

pub length-encode_nacks : (nacks : List NackPair) → length (encode_nacks nacks) ≡ 4 * length nacks
length-encode_nacks [] = refl
length-encode_nacks (n ∷ nacks) = omega (
  arith,
  length-append (be16 n.packet_id) (be16 n.lost_packets ++ encode_nacks nacks),
  length-append (be16 n.lost_packets) (encode_nacks nacks),
  length-be16_only n.packet_id,
  length-be16_only n.lost_packets,
  length-encode_nacks nacks,
)

pub uint16_at-append :
    (front : Bytes) (i v : ℕ) (back : Bytes)
    → i ≡ length front
    → IsUint16 v
    → uint16_at (front ++ (be16 v ++ back)) i ≡ ok v
unfolding uint16_at
uint16_at-append front i v back e h =
    rw (e, slice_from-append front (be16 v ++ back)) (uint16-be16 v back h)

behind : (front : Bytes) (i v : ℕ) → i ≡ length front → i + 2 ≡ length (front ++ be16 v)
behind front i v e = omega (arith, length-append front (be16 v), length-be16_only v)

pub put_nacks-append :
    (front : Bytes) (i : ℕ) (nacks : List NackPair)
    → i ≡ length front
    → put_nacks (front ++ make (4 * length nacks)) i nacks ≡ ok (front ++ encode_nacks nacks)
unfolding put_nacks
put_nacks-append front i [] e = refl
put_nacks-append front i (n ∷ nacks) e =
    let a = be16 n.packet_id in
    let b = be16 n.lost_packets in
    let rest = make (4 * length nacks) in
    let split : make (4 * length (n ∷ nacks)) ≡ make 2 ++ (make 2 ++ rest) =
      ap make (omega arith) ∙ make-add 4 (4 * length nacks) in
    let e2 = behind front i n.packet_id e in
    let e4 : i + 4 ≡ length ((front ++ a) ++ b) =
      omega (arith, behind (front ++ a) (i + 2) n.lost_packets e2) in
    let again = put_nacks-append ((front ++ a) ++ b) (i + 4) nacks e4 in
    rw (split, put_at front i a (make 2) (make 2 ++ rest) e (length-be16_only n.packet_id))
      (rw (← append_assoc front a (make 2 ++ rest)) (
        rw (put_at (front ++ a) (i + 2) b (make 2) rest e2 (length-be16_only n.lost_packets))
          (rw (← append_assoc (front ++ a) b rest) (again ∙ ap ok (simp append_assoc)))))

pub nacks_at-append :
    (front : Bytes) (i : ℕ) (nacks acc : List NackPair) (back : Bytes)
    → i ≡ length front
    → All IsTyped nacks
    → nacks_at (length nacks) (front ++ (encode_nacks nacks ++ back)) i acc ≡ ok (acc ++ nacks)
unfolding nacks_at
nacks_at-append front i [] acc back e t = ap ok (sym (append-nil acc))
nacks_at-append front i (n ∷ nacks) acc back e t =
    let a = be16 n.packet_id in
    let b = be16 n.lost_packets in
    let rest = encode_nacks nacks ++ back in
    let e2 = behind front i n.packet_id e in
    let e4 : i + 4 ≡ length ((front ++ a) ++ b) =
      omega (arith, behind (front ++ a) (i + 2) n.lost_packets e2) in
    let first = uint16_at-append front i n.packet_id (b ++ rest) e (t.0).packet_id_bound in
    let second : uint16_at (front ++ (a ++ (b ++ rest))) (i + 2) ≡ ok n.lost_packets =
      rw (← append_assoc front a (b ++ rest))
        (uint16_at-append (front ++ a) (i + 2) n.lost_packets rest e2 (t.0).lost_packets_bound) in
    let again = nacks_at-append ((front ++ a) ++ b) (i + 4) nacks (acc ++ (n ∷ [])) back e4 t.1 in
    let shape : front ++ (encode_nacks (n ∷ nacks) ++ back) ≡ front ++ (a ++ (b ++ rest)) =
      simp append_assoc in
    let reshape : ((front ++ a) ++ b) ++ rest ≡ front ++ (a ++ (b ++ rest)) = simp append_assoc in
    rw (shape, first, second) (rw reshape at again ∙ ap ok (append_assoc acc (n ∷ []) nacks))
