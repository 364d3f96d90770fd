-- ===== src/Reception/Blocks.antt =====
-- The blocks of a list of reports, one behind the other.
use rtcp.Prelude.{
  ℕ, ◌+◌, ◌*◌, ◌^◌, ◌<◌, ◌≡◌, ◌∙◌, refl, sym, ap, arith, length, All, List, [], ◌∷◌, ◌++◌,
  append_assoc, length-append,
}
use rtcp.Result.{ok}
use rtcp.Bytes.{Bytes, make, slice_to, slice_from}
use rtcp.Bytes.Laws.{slice_to-append, slice_from-append, make-add, copy_at_offset}
use rtcp.Reception.{ReceptionReport, IsTyped, unmarshal, reports_len, marshal_reports}
use rtcp.Reception.RoundTrip.{encode, length-encode, marshal-encode, unmarshal-encode_exact}

-- A report that is written with no loss.
pub record IsValid (r : ReceptionReport) : Type 0 where
  pub typed : IsTyped r
  pub total_fits : r.total_lost < 2 ^ 24

abbrev pub encode_reports : List ReceptionReport → Bytes
encode_reports [] = []
encode_reports (r ∷ reports) = encode r ++ encode_reports reports

pub reports_len-eq : (reports : List ReceptionReport) → reports_len reports ≡ 24 * length reports
unfolding reports_len
reports_len-eq [] = refl
reports_len-eq (r ∷ reports) = omega (arith, reports_len-eq reports)

pub length-encode_reports :
    (reports : List ReceptionReport) → length (encode_reports reports) ≡ 24 * length reports
length-encode_reports [] = refl
length-encode_reports (r ∷ reports) = omega (
  arith,
  length-append (encode r) (encode_reports reports),
  length-encode r,
  length-encode_reports reports,
)

pub unmarshal_block :
    (r : ReceptionReport) (rest : Bytes) → IsValid r → unmarshal (encode r ++ rest) ≡ ok r
unmarshal_block r rest v = unmarshal-encode_exact r rest v.typed v.total_fits

pub marshal_reports-append :
    (front : Bytes) (i : ℕ) (reports : List ReceptionReport) (back : Bytes)
    → i ≡ length front
    → All IsValid reports
    → marshal_reports (front ++ (make (24 * length reports) ++ back)) i reports
      ≡ ok (front ++ (encode_reports reports ++ back))
unfolding marshal_reports
marshal_reports-append front i [] back e v = refl
marshal_reports-append front i (r ∷ reports) back e v =
    let rest = make (24 * length reports) ++ back in
    let placed = copy_at_offset front i (encode r) (make 24) rest e (length-encode r) in
    let again =
      marshal_reports-append (front ++ encode r) (i + 24) reports back
        (omega (arith, length-append front (encode r), length-encode r)) v.1 in
    let split : make (24 * length (r ∷ reports)) ≡ make 24 ++ make (24 * length reports) =
      ap make (omega arith) ∙ make-add 24 (24 * length reports) in
    rw
      (
        split,
        append_assoc (make 24) (make (24 * length reports)) back,
        marshal-encode r (omega (arith, (v.0).total_fits)),
        placed,
      )
      (rw (← append_assoc front (encode r) rest) (
        again
        ∙ ap ok (
            append_assoc front (encode r) (encode_reports reports ++ back)
            ∙ ap (λ t. front ++ t) (sym (append_assoc (encode r) (encode_reports reports) back)))))

pub slice_to_block :
    (r : ReceptionReport) (rest : Bytes) → slice_to (encode r ++ rest) 24 ≡ ok (encode r)
slice_to_block r rest = rw (← length-encode r) (slice_to-append (encode r) rest)

pub slice_from_block :
    (r : ReceptionReport) (rest : Bytes) → slice_from (encode r ++ rest) 24 ≡ ok rest
slice_from_block r rest = rw (← length-encode r) (slice_from-append (encode r) rest)
