-- ===== src/Header/Wire.antt =====
-- The four bytes of a header in plain arithmetic, and the two operations on them.
use rtcp.Prelude.{
  ℕ, ◌+◌, ◌*◌, ◌/◌, ◌%◌, ◌^◌, ◌≤◌, ◌≡◌, ◌∙◌, refl, ap, arith, bit_or, Bool, true, false, ltb, ◌==◌,
  if◌then◌else◌, length, ◌∷◌, ◌++◌, le→ltb_false,
}
use rtcp.Prelude.Bits.{bit_and_mask, shift_bit_or}
use rtcp.Result.{ok, err, err_bad_version}
use rtcp.Bytes.{Bytes, make, slice_from, be16, copy, be32, uint32_at, IsUint32}
use rtcp.Bytes.Laws.{uint32-be32}
use rtcp.Header.{Header, IsValid, leading, marshal, unmarshal}

abbrev pub pad_bit : Bool → ℕ
pad_bit true = 32
pad_bit false = 0

unfoldable pub encode : Header → Bytes
unfolding be16
encode h = (128 + pad_bit h.padding + h.count) ∷ h.type ∷ be16 h.length

leading_or :
    (p : Bool) (c : ℕ) → c ≤ 31 → bit_or (leading p) (c * 2 ^ 0 % 2 ^ 8) ≡ 128 + pad_bit p + c
leading_or true c h =
    let small : c * 2 ^ 0 % 2 ^ 8 ≡ c = omega arith in rw small (shift_bit_or 5 5 c (omega arith))
leading_or false c h =
    let small : c * 2 ^ 0 % 2 ^ 8 ≡ c = omega arith in rw small (shift_bit_or 5 4 c (omega arith))

pub marshal-encode : (h : Header) → IsValid h → marshal h ≡ ok (encode h)
unfolding marshal encode
marshal-encode h v =
    rw (le→ltb_false 31 h.count v.count_bound, leading_or h.padding h.count v.count_bound)
      (ap ok (ground arith))

-- The fields of the four bytes `a b c d`.
abbrev pub fields : ℕ → ℕ → ℕ → ℕ → Header
fields a b c d = record {
  padding = ltb 0 (a / 32 % 2);
  count = a % 32;
  type = b;
  length = c * 2 ^ 8 + d;
}

pub unmarshal-fields :
    (a b c d : ℕ) (rest : Bytes)
    → unmarshal (a ∷ b ∷ c ∷ d ∷ rest)
      ≡ (if a / 64 % 4 == 2 then ok (fields a b c d) else err err_bad_version)
unfolding unmarshal
unmarshal-fields a b c d rest =
    rw (bit_and_mask 2 (a / 2 ^ 6), bit_and_mask 1 (a / 2 ^ 5), bit_and_mask 5 (a / 2 ^ 0))
      (ground arith)

pub unmarshal-encode : (h : Header) (rest : Bytes) → IsValid h → unmarshal (encode h ++ rest) ≡ ok h
unfolding encode
unmarshal-encode h rest v = unmarshal-fields _ _ _ _ rest ∙ ground arith

pub length-encode : (h : Header) (rest : Bytes) → length (encode h ++ rest) ≡ 4 + length rest
unfolding encode
length-encode h rest = omega arith

pub slice_from-encode : (h : Header) (rest : Bytes) → slice_from (encode h ++ rest) 4 ≡ ok rest
unfolding encode slice_from
slice_from-encode h rest = refl

-- The words behind the header: the first and the second.
pub uint32_at_first :
    (h : Header) (v : ℕ) (rest : Bytes)
    → IsUint32 v
    → uint32_at (encode h ++ (be32 v ++ rest)) 4 ≡ ok v
unfolding uint32_at encode
uint32_at_first h v rest b = uint32-be32 v rest b

pub uint32_at_second :
    (h : Header) (u v : ℕ) (rest : Bytes)
    → IsUint32 v
    → uint32_at (encode h ++ (be32 u ++ (be32 v ++ rest))) 8 ≡ ok v
unfolding uint32_at encode be32
uint32_at_second h u v rest b = uint32-be32 v rest b

-- The header over the first four zeros of a packet.
pub copy-encode : (h : Header) (rest : Bytes) → copy (make 4 ++ rest) (encode h) ≡ encode h ++ rest
unfolding encode copy
copy-encode h rest = refl

pub length-encode_only : (h : Header) → length (encode h) ≡ 4
unfolding encode
length-encode_only h = refl
