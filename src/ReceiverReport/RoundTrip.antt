-- ===== src/ReceiverReport/RoundTrip.antt =====
-- The bytes of a receiver report, and what is read back from them.
use rtcp.Prelude.{
  ℕ, zero, suc, ◌+◌, ◌*◌, ◌%◌, ◌≤◌, ◌≡◌, ◌∙◌, refl, sym, ap, arith, length, All, List, [], ◌∷◌,
  ◌++◌, append_assoc, append-nil, length-append, le→ltb_false, lt→ltb, ◌≢◌, false, Bool, ◌&&◌,
  ne→==_false, ==_refl, ltb,
}
use native.Mathlib.Decide.{ℕ_discrete}
use rtcp.Prelude.Bits.{bit_and_mask}
use rtcp.Result.{ok, ◌>>=◌}
use rtcp.Bytes.{Bytes, IsUint32, make, put, copy, to_uint8, slice_from, be32, uint32_at}
use rtcp.Bytes.Laws.{length-make, make-add, slice_from-append, length-be32, copy-append}
use rtcp.Util.{get_padding}
use rtcp.Util.Laws.{get_padding_lem, get_padding_of_multiple, get_padding_step, get_padding_zero}
use rtcp.Header
use rtcp.Header.Wire
use rtcp.Reception.{ReceptionReport}
use rtcp.Reception.Blocks
use rtcp.Reception.Blocks.{
  encode_reports, length-encode_reports, reports_len-eq, marshal_reports-append, slice_from_block,
}
use rtcp.Reception.RoundTrip
use rtcp.ReceiverReport.{
  ReceiverReport, zero_value, len, header, pad_extensions, marshal, unmarshal_reports, unmarshal,
}

-- A packet that is written with no loss: at most 31 reports, each of them valid.
pub record IsValid (r : ReceiverReport) : Type 0 where
  pub ssrc_bound : IsUint32 r.ssrc
  pub few_reports : length r.reports ≤ 31
  pub reports_valid : All Blocks.IsValid r.reports

-- The extensions, with zeros up to a 32-bit boundary.
abbrev pub padded : ReceiverReport → Bytes
padded r = r.profile_extensions ++ make (get_padding (length r.profile_extensions))

unfoldable pub encode : ReceiverReport → Bytes
encode r = Wire.encode (header r) ++ (be32 r.ssrc ++ (encode_reports r.reports ++ padded r))

pub header-IsValid : (r : ReceiverReport) → IsValid r → Header.IsValid (header r)
unfolding header
header-IsValid r v = record {
  count_bound = omega (arith, v.few_reports);
  type_bound = omega arith;
  length_bound = omega arith;
}

pad_extensions_done :
    (fuel : ℕ) (pe : Bytes)
    → length pe % 4 ≡ 0
    → pad_extensions fuel pe ≡ ok (pe ++ make (get_padding (length pe)))
unfolding pad_extensions
pad_extensions_done zero pe e =
    rw (bit_and_mask 2 (length pe), e, get_padding_of_multiple (length pe) e)
      (ap ok (sym (append-nil pe)))
pad_extensions_done (suc fuel) pe e =
    rw (bit_and_mask 2 (length pe), e, get_padding_of_multiple (length pe) e)
      (ap ok (sym (append-nil pe)))

pad_extensions_more :
    (fuel : ℕ) (pe : Bytes)
    → length pe % 4 ≢ 0
    → pad_extensions (suc fuel) pe ≡ pad_extensions fuel (pe ++ (0 ∷ []))
unfolding pad_extensions
pad_extensions_more fuel pe e = rw (bit_and_mask 2 (length pe), ne→==_false _ 0 e)

-- The loop appends what `getPadding` says.
pub pad_extensions-get_padding :
    (fuel : ℕ) (pe : Bytes)
    → get_padding (length pe) ≤ fuel
    → pad_extensions fuel pe ≡ ok (pe ++ make (get_padding (length pe)))
pad_extensions-get_padding zero pe h =
    let none : get_padding (length pe) ≡ 0 = omega arith in
    pad_extensions_done zero pe (get_padding_zero (length pe) none)
pad_extensions-get_padding (suc fuel) pe h = elim (ℕ_discrete (length pe % 4) 0) [
  | yes e ↦ pad_extensions_done (suc fuel) pe e
  | no e ↦
      let step = get_padding_step (length pe) e in
      let size : length (pe ++ (0 ∷ [])) ≡ length pe + 1 = length-append pe (0 ∷ []) in
      let again =
        pad_extensions-get_padding fuel (pe ++ (0 ∷ [])) (rw size (omega (arith, step))) in
      pad_extensions_more fuel pe e
      ∙ again
      ∙ ap ok (rw (size, step) (append_assoc pe (0 ∷ []) (make (get_padding (length pe + 1)))))
]

make_parts : (r : ReceiverReport) → make (len r) ≡ make 8 ++ (make (24 * length r.reports) ++ [])
unfolding len
make_parts r =
    let n = 24 * length r.reports in
    rw (reports_len-eq, make-add 8 n) (ap (λ t. make 8 ++ t) (sym (append-nil (make n))))

copy_all : (src : Bytes) → copy (make (length src)) src ≡ src
copy_all src =
    rw (append-nil, append-nil) at
      (copy-append src (make (length src)) [] (sym (length-make (length src))))

pub marshal-encode : (r : ReceiverReport) → IsValid r → marshal r ≡ ok (encode r)
unfolding marshal put encode be32
marshal-encode r v =
    let front = make 4 ++ be32 r.ssrc in
    let pe = r.profile_extensions in
    let reports = marshal_reports-append front 8 r.reports [] refl v.reports_valid in
    let pads = pad_extensions-get_padding 3 pe (omega (arith, get_padding_lem (length pe))) in
    rw (make_parts r) (
      rw
        (
          reports,
          le→ltb_false 31 (length r.reports) v.few_reports,
          copy_all pe,
          pads,
          Wire.marshal-encode (header r) (header-IsValid r v),
        )
        (ap ok (Wire.copy-encode (header r) _ ∙ rw (append-nil (encode_reports r.reports)))))

and-false : (b : Bool) → (b && false) ≡ false
and-false b = ground arith

abbrev after_ssrc : ReceiverReport → Bytes
after_ssrc r = encode_reports r.reports ++ padded r

pub header_of : (r : ReceiverReport) → IsValid r → Header.unmarshal (encode r) ≡ ok (header r)
unfolding encode
header_of r v = Wire.unmarshal-encode (header r) _ (header-IsValid r v)

ssrc_of : (r : ReceiverReport) → IsValid r → uint32_at (encode r) 4 ≡ ok r.ssrc
unfolding encode
ssrc_of r v = Wire.uint32_at_first (header r) r.ssrc (after_ssrc r) v.ssrc_bound

slice_from_reports : (r : ReceiverReport) → slice_from (encode r) 8 ≡ ok (after_ssrc r)
unfolding slice_from encode Wire.encode be32
slice_from_reports r = refl

pub length-encode :
    (r : ReceiverReport)
    → length (encode r)
      ≡ 8
        + 24 * length r.reports
        + (length r.profile_extensions + get_padding (length r.profile_extensions))
unfolding encode
length-encode r =
    let pad = get_padding (length r.profile_extensions) in
    omega (
      arith,
      Wire.length-encode (header r) (be32 r.ssrc ++ after_ssrc r),
      length-be32 r.ssrc (after_ssrc r),
      length-append (encode_reports r.reports) (padded r),
      length-encode_reports r.reports,
      length-append r.profile_extensions (make pad),
      length-make pad,
    )

slice_from_extensions :
    (r : ReceiverReport) → slice_from (encode r) (8 + length r.reports * 24) ≡ ok (padded r)
unfolding encode
slice_from_extensions r =
    let front = Wire.encode (header r) ++ (be32 r.ssrc ++ encode_reports r.reports) in
    let size : 8 + length r.reports * 24 ≡ length front = omega (
      arith,
      Wire.length-encode (header r) (be32 r.ssrc ++ encode_reports r.reports),
      length-be32 r.ssrc (encode_reports r.reports),
      length-encode_reports r.reports,
    ) in
    rw size (rw (append_assoc, append_assoc) at (slice_from-append front (padded r)))

-- Reports are read while bytes and counted reports are left.
unmarshal_reports-encode :
    (fuel count : ℕ) (reports acc : List ReceptionReport) (rest : Bytes)
    → fuel ≡ length reports
    → count ≡ length acc + length reports
    → All Blocks.IsValid reports
    → unmarshal_reports fuel count (encode_reports reports ++ rest) acc ≡ ok (acc ++ reports)
unfolding unmarshal_reports
unmarshal_reports-encode zero count [] acc rest e f v =
    let none : ltb (length acc) count ≡ false = ground arith in
    rw (none, and-false (ltb 0 (length rest))) (ap ok (sym (append-nil acc)))
unmarshal_reports-encode zero count (r ∷ reports) acc rest e f v = absurd (omega arith)
unmarshal_reports-encode (suc fuel) count [] acc rest e f v = absurd (omega arith)
unmarshal_reports-encode (suc fuel) count (r ∷ reports) acc rest e f v =
    let later = encode_reports reports ++ rest in
    let block = RoundTrip.encode r in
    let long = length-append block later ∙ ap (λ k. k + length later) (RoundTrip.length-encode r) in
    let again =
      unmarshal_reports-encode fuel count reports (acc ++ (r ∷ [])) rest (omega arith)
        (omega (arith, length-append acc (r ∷ []))) v.1 in
    rw
      (
        append_assoc block (encode_reports reports) rest,
        lt→ltb 0 (length (block ++ later)) (omega (arith, long)),
        lt→ltb (length acc) count (omega arith),
        Blocks.unmarshal_block r later v.0,
        slice_from_block r later,
      )
      (again ∙ ap ok (append_assoc acc (r ∷ []) reports))

-- A valid packet is read back from its bytes, with the padding as a part of its extensions.
pub unmarshal-encode :
    (r : ReceiverReport)
    → IsValid r
    → unmarshal zero_value (encode r) ≡ ok (record r { profile_extensions = padded r })
unfolding unmarshal header
unmarshal-encode r v =
    let n = length r.reports in
    let count : to_uint8 n ≡ n = omega (arith, v.few_reports) in
    rw (
      le→ltb_false (length (encode r)) 8 (omega (arith, length-encode r)),
      header_of r v,
      ssrc_of r v,
      slice_from_reports r,
      count,
      unmarshal_reports-encode n n r.reports [] (padded r) refl (omega arith) v.reports_valid,
      slice_from_extensions r,
      count,
      ==_refl n,
    )

-- A receiver report with at most 31 valid reports is written, and read back from the written bytes
-- into a new packet: every field returns, the profile extensions with zeros up to a word.
pub unmarshal-marshal_receiver_report :
    (r : ReceiverReport)
    → IsValid r
    → (marshal r >>= unmarshal zero_value) ≡ ok (record r { profile_extensions = padded r })
unmarshal-marshal_receiver_report r v = rw (marshal-encode r v) (unmarshal-encode r v)
