-- ===== src/SourceDescription/Item.antt =====
-- `SourceDescriptionItem`: a type and a text of at most 255 bytes.
use rtcp.Prelude.{
  ℕ, ◌+◌, ◌-◌, ◌*◌, ◌^◌, ◌≤◌, ◌<◌, ◌≡◌, ◌≢◌, refl, arith, ltb, ◌==◌, length, [], ◌∷◌, ◌++◌,
  le→ltb_false, ne→==_false, length-append,
}
use rtcp.Result.{
  Result, ok, ◌>>=◌, ◌>>◌, fail_if, err_sdes_missing_type, err_sdes_text_too_long,
  err_packet_too_short,
}
use rtcp.Bytes.{Bytes, to_uint8, make, index, slice, set, put}
use rtcp.Bytes.Laws.{slice_at}

-- `SDESType`, a uint8, and the two values that the code tests.
abbrev pub sdes_end : ℕ
sdes_end = 0

abbrev pub sdes_cname : ℕ
sdes_cname = 1

abbrev pub sdes_type_len : ℕ
sdes_type_len = 1

abbrev pub sdes_type_offset : ℕ
sdes_type_offset = 0

abbrev pub sdes_octet_count_len : ℕ
sdes_octet_count_len = 1

abbrev pub sdes_octet_count_offset : ℕ
sdes_octet_count_offset = 1

abbrev pub sdes_max_octet_count : ℕ
sdes_max_octet_count = 1 * 2 ^ 8 - 1

abbrev pub sdes_text_offset : ℕ
sdes_text_offset = 2

pub record SourceDescriptionItem : Type 0 where
  pub type : ℕ
  pub text : Bytes

-- An item that can be written.
pub record IsValid (it : SourceDescriptionItem) : Type 0 where
  pub type_ne_end : it.type ≢ 0
  pub type_bound : it.type < 2 ^ 8
  pub short_text : length it.text ≤ 255

-- `(s SourceDescriptionItem) len`
unfoldable pub len : SourceDescriptionItem → ℕ
len s = sdes_type_len + sdes_octet_count_len + length s.text

-- `(s SourceDescriptionItem) Marshal`
unfoldable pub marshal : SourceDescriptionItem → Result Bytes
unfolding put
marshal s = do
  fail_if (s.type == sdes_end) err_sdes_missing_type
  raw ← set (make (sdes_type_len + sdes_octet_count_len)) sdes_type_offset (to_uint8 s.type)
  let octet_count = length s.text
  fail_if (ltb sdes_max_octet_count octet_count) err_sdes_text_too_long
  raw ← set raw sdes_octet_count_offset (to_uint8 octet_count)
  ok (raw ++ s.text)

-- `(s *SourceDescriptionItem) Unmarshal`. Both fields are assigned.
unfoldable pub unmarshal : Bytes → Result SourceDescriptionItem
unfolding index
unmarshal raw = do
  fail_if (ltb (length raw) (sdes_type_len + sdes_octet_count_len)) err_packet_too_short
  type ← index raw sdes_type_offset
  octet_count ← index raw sdes_octet_count_offset
  fail_if (ltb (length raw) (sdes_text_offset + octet_count)) err_packet_too_short
  text ← slice raw sdes_text_offset (sdes_text_offset + octet_count)
  ok (record { type = type; text = text })

-- The bytes of an item.
abbrev pub encode : SourceDescriptionItem → Bytes
encode it = it.type ∷ length it.text ∷ it.text

pub marshal-encode : (it : SourceDescriptionItem) → IsValid it → marshal it ≡ ok (encode it)
unfolding marshal
marshal-encode it v =
    let type_byte : to_uint8 it.type ≡ it.type = omega (arith, v.type_bound) in
    let count_byte : to_uint8 (length it.text) ≡ length it.text = omega (arith, v.short_text) in
    rw (ne→==_false it.type 0 v.type_ne_end, le→ltb_false 255 _ v.short_text, type_byte, count_byte)

pub unmarshal-encode :
    (it : SourceDescriptionItem) (rest : Bytes) → unmarshal (encode it ++ rest) ≡ ok it
unfolding unmarshal
unmarshal-encode it rest =
    let n = length it.text in
    let fits : 2 + n ≤ length (encode it ++ rest) = omega (arith, length-append it.text rest) in
    let text = slice_at (it.type ∷ n ∷ []) it.text rest 2 (2 + n) refl refl in
    rw (
      le→ltb_false (length (encode it ++ rest)) 2 (omega (arith, fits)),
      le→ltb_false (length (encode it ++ rest)) (2 + n) fits,
      text,
    )
