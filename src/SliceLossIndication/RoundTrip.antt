-- ===== src/SliceLossIndication/RoundTrip.antt =====
-- The bytes of a packet, what is read back from them, and the packets that stop the program.
use rtcp.Prelude.{
  length-map, map, ◌+◌, ◌*◌, ◌/◌, ◌%◌, ◌^◌, ◌≤◌, ◌<◌, ◌≡◌, ◌∙◌, refl, sym, ap, arith, length, All,
  List, [], ◌∷◌, ◌++◌, append_assoc, append-nil, length-append, le→ltb_false,
}
use rtcp.Prelude.Bits.{bit_and_mask, shift_bit_or}
use rtcp.Result.{ok, ◌>>=◌}
use rtcp.Bytes.{Bytes, IsUint32, make, put, uint32s_at, to_uint16, uint32_at, be32, rounds}
use rtcp.Bytes.Laws.{length-make, make-add, length-be32}
use rtcp.Bytes.WordLists.{words, length-words, put_uint32s-append, uint32s_at-append}
use rtcp.Header
use rtcp.Header.{Header, format_sli, type_transport_specific_feedback}
use rtcp.Header.Wire as HeaderWire
use rtcp.SliceLossIndication.{
  SliEntry, SliceLossIndication, pack, unpack, len, header, marshal, unmarshal,
}

-- `new(SliceLossIndication)`
abbrev pub zero_value : SliceLossIndication
zero_value = record { sender_ssrc = 0; media_ssrc = 0; sli = [] }

-- An entry that fits its 13, 13 and 6 bits.
pub record Fits (s : SliEntry) : Type 0 where
  pub first_bound : s.first < 2 ^ 13
  pub number_bound : s.number < 2 ^ 13
  pub picture_bound : s.picture < 2 ^ 6

pack_sum : (s : SliEntry) → Fits s → pack s ≡ s.first * 2 ^ 19 + s.number * 2 ^ 6 + s.picture
unfolding pack
pack_sum s f =
    let hi : s.first % 2 ^ 13 * 2 ^ 19 % 2 ^ 32 ≡ s.first * 2 ^ 19 = omega (arith, f.first_bound) in
    let mid : s.number % 2 ^ 13 * 2 ^ 6 % 2 ^ 32 ≡ s.number * 2 ^ 6 =
      omega (arith, f.number_bound) in
    let low : s.picture % 2 ^ 6 ≡ s.picture = omega (arith, f.picture_bound) in
    let join : s.first * 2 ^ 19 + s.number * 2 ^ 6 ≡ (s.first * 2 ^ 13 + s.number) * 2 ^ 6 =
      omega arith in
    rw (bit_and_mask 13 s.first, bit_and_mask 13 s.number, bit_and_mask 6 s.picture, hi, mid, low)
      (rw (shift_bit_or 19 s.first (s.number * 2 ^ 6) (omega (arith, f.number_bound)), join)
        (shift_bit_or 6 (s.first * 2 ^ 13 + s.number) s.picture f.picture_bound))

pack_bound : (s : SliEntry) → Fits s → IsUint32 (pack s)
pack_bound s f = rw (pack_sum s f) (omega arith)

pub unpack-pack : (s : SliEntry) → Fits s → unpack (pack s) ≡ s
unfolding unpack
unpack-pack s f =
    let word = s.first * 2 ^ 19 + s.number * 2 ^ 6 + s.picture in
    let hi : word / 2 ^ 19 % 2 ^ 13 % 2 ^ 16 ≡ s.first =
      omega (arith, f.first_bound, f.number_bound, f.picture_bound) in
    let mid : word / 2 ^ 6 % 2 ^ 13 % 2 ^ 16 ≡ s.number =
      omega (arith, f.first_bound, f.number_bound, f.picture_bound) in
    let low : word % 2 ^ 6 % 2 ^ 8 ≡ s.picture = omega (arith, f.picture_bound) in
    rw (
      pack_sum s f,
      bit_and_mask 13 (word / 2 ^ 19),
      bit_and_mask 13 (word / 2 ^ 6),
      bit_and_mask 6 word,
      hi,
      mid,
      low,
    )

packs_typed : (sli : List SliEntry) → All Fits sli → All IsUint32 (map pack sli)
packs_typed [] f = tt
packs_typed (s ∷ sli) f = (pack_bound s f.0, packs_typed sli f.1)

unpacks : (sli : List SliEntry) → All Fits sli → map unpack (map pack sli) ≡ sli
unpacks [] f = refl
unpacks (s ∷ sli) f = rw (unpack-pack s f.0, unpacks sli f.1)

-- A packet that is written with no loss: at most 253 entries.
pub record IsValid (p : SliceLossIndication) : Type 0 where
  pub sender_bound : IsUint32 p.sender_ssrc
  pub media_bound : IsUint32 p.media_ssrc
  pub few_entries : length p.sli ≤ 253
  pub entries_fit : All Fits p.sli

abbrev pub entries : SliceLossIndication → Bytes
entries p = words (map pack p.sli)

unfoldable pub encode : SliceLossIndication → Bytes
encode p = HeaderWire.encode (header p) ++ (be32 p.sender_ssrc ++ (be32 p.media_ssrc ++ entries p))

header_length_field :
    (p : SliceLossIndication) → length p.sli ≤ 253 → (header p).length ≡ 2 + length p.sli
unfolding header len
header_length_field p h = omega arith

pub header-IsValid : (p : SliceLossIndication) → length p.sli ≤ 253 → Header.IsValid (header p)
header-IsValid p h = record {
  count_bound = unfold header in omega arith;
  type_bound = unfold header in omega arith;
  length_bound = omega (arith, header_length_field p h);
}

pub marshal-encode : (p : SliceLossIndication) → IsValid p → marshal p ≡ ok (encode p)
unfolding marshal put be32 encode
marshal-encode p v =
    let n = length p.sli in
    let body = be32 p.sender_ssrc ++ be32 p.media_ssrc in
    let split : make (8 + n * 4) ≡ make 8 ++ (make (4 * n) ++ []) =
      ap make (omega arith)
      ∙ make-add 8 (4 * n)
      ∙ ap (λ t. make 8 ++ t) (sym (append-nil (make (4 * n)))) in
    let room : length (make (4 * n)) ≡ 4 * length (map pack p.sli) =
      length-make (4 * n) ∙ ap (λ k. 4 * k) (sym (length-map pack p.sli)) in
    let placed = put_uint32s-append body 8 (map pack p.sli) (make (4 * n)) [] refl room in
    rw (le→ltb_false 255 (n + 2) (omega (arith, v.few_entries)), split)
      (rw (
        placed,
        append-nil (entries p),
        HeaderWire.marshal-encode (header p) (header-IsValid p v.few_entries),
      ))

layout :
    (p : SliceLossIndication) (rest : Bytes)
    → encode p ++ rest
      ≡ HeaderWire.encode (header p)
        ++ (be32 p.sender_ssrc ++ (be32 p.media_ssrc ++ (entries p ++ rest)))
unfolding encode
layout p rest = simp append_assoc

pub length-encode :
    (p : SliceLossIndication) (rest : Bytes)
    → length (encode p ++ rest) ≡ 12 + 4 * length p.sli + length rest
length-encode p rest =
    let tail = entries p ++ rest in
    ap length (layout p rest)
    ∙ omega (
      arith,
      HeaderWire.length-encode (header p) (be32 p.sender_ssrc ++ (be32 p.media_ssrc ++ tail)),
      length-be32 p.sender_ssrc (be32 p.media_ssrc ++ tail),
      length-be32 p.media_ssrc tail,
      length-append (entries p) rest,
      length-words (map pack p.sli),
      length-map pack p.sli,
    )

header_of :
    (p : SliceLossIndication) (rest : Bytes)
    → IsValid p
    → Header.unmarshal (encode p ++ rest) ≡ ok (header p)
header_of p rest v =
    rw layout (HeaderWire.unmarshal-encode (header p) _ (header-IsValid p v.few_entries))

sender_of :
    (p : SliceLossIndication) (rest : Bytes)
    → IsValid p
    → uint32_at (encode p ++ rest) 4 ≡ ok p.sender_ssrc
sender_of p rest v = rw layout (HeaderWire.uint32_at_first (header p) _ _ v.sender_bound)

media_of :
    (p : SliceLossIndication) (rest : Bytes)
    → IsValid p
    → uint32_at (encode p ++ rest) 8 ≡ ok p.media_ssrc
media_of p rest v = rw layout (HeaderWire.uint32_at_second (header p) _ _ _ v.media_bound)

sli_of :
    (p : SliceLossIndication) (rest : Bytes)
    → IsValid p
    → uint32s_at (length p.sli) (encode p ++ rest) 12 ≡ ok (map pack p.sli)
sli_of p rest v =
    let front = HeaderWire.encode (header p) ++ (be32 p.sender_ssrc ++ be32 p.media_ssrc) in
    let shape : encode p ++ rest ≡ front ++ (entries p ++ rest) =
      layout p rest ∙ simp append_assoc in
    let size : 12 ≡ length front = omega (
      arith,
      HeaderWire.length-encode (header p) (be32 p.sender_ssrc ++ be32 p.media_ssrc),
      length-be32 p.sender_ssrc (be32 p.media_ssrc),
      length-be32 p.media_ssrc [],
      ap length (append-nil (be32 p.media_ssrc)),
    ) in
    rw (shape, ← length-map pack p.sli)
      (uint32s_at-append front 12 (map pack p.sli) rest size (packs_typed p.sli v.entries_fit))

-- A valid packet is read back from its bytes, whatever follows them.
pub unmarshal-encode :
    (p : SliceLossIndication) (rest : Bytes)
    → IsValid p
    → unmarshal zero_value (encode p ++ rest) ≡ ok p
unfolding unmarshal
unmarshal-encode p rest v =
    let n = length p.sli in
    let size = length-encode p rest in
    let field = header_length_field p v.few_entries in
    let need : to_uint16 (4 * (header p).length) ≡ 8 + 4 * n =
      omega (arith, v.few_entries, field) in
    let turns : rounds 12 (4 + to_uint16 ((header p).length * 4)) ≡ n =
      omega (arith, v.few_entries, field) in
    rw
      (
        le→ltb_false (length (encode p ++ rest)) 8 (omega (arith, size)),
        header_of p rest v,
        need,
        le→ltb_false (length (encode p ++ rest)) (4 + (8 + 4 * n)) (omega (arith, size)),
        sender_of p rest v,
        media_of p rest v,
        turns,
        sli_of p rest v,
      )
      (unfold header in rw (unpacks p.sli v.entries_fit))

-- A slice loss indication with SSRCs of 32 bits and at most 253 entries that fit 13, 13 and 6 bits
-- is written, and read back from the written bytes into a new packet, whatever bytes follow them.
pub unmarshal-marshal_sli :
    (p : SliceLossIndication) (rest : Bytes)
    → IsValid p
    → (marshal p >>= λ raw. unmarshal zero_value (raw ++ rest)) ≡ ok p
unmarshal-marshal_sli p rest v = rw (marshal-encode p v) (unmarshal-encode p rest v)
