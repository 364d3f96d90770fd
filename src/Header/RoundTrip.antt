-- ===== src/Header/RoundTrip.antt =====
-- What a reader and a writer of headers may rely on.
use rtcp.Prelude.{
  ℕ, ◌/◌, ◌%◌, ◌≤◌, ◌<◌, ◌≡◌, ◌≢◌, ◌∙◌, ◌↔◌, ◌⊎◌, inl, inr, refl, ap, arith, length, take, [], ◌∷◌,
  ◌++◌, All, Bool-cases, ==_iff, ◌==◌,
}
use rtcp.Result.{ok, err, ◌>>=◌, err_invalid_header, err_packet_too_short, err_bad_version}
use rtcp.Bytes.{Bytes, IsByte, be16}
use rtcp.Header.{Header, IsValid, marshal, unmarshal}
use rtcp.Header.Wire.{encode, marshal-encode, unmarshal-encode, fields, unmarshal-fields}

-- A valid header is written, and read back from what was written, whatever bytes follow it.
pub unmarshal-marshal_header :
    (h : Header) (rest : Bytes) → IsValid h → (marshal h >>= λ raw. unmarshal (raw ++ rest)) ≡ ok h
unmarshal-marshal_header h rest v = rw (marshal-encode h v) (unmarshal-encode h rest v)

encode-fields :
    (a b c d : ℕ)
    → IsByte a
    → IsByte b
    → IsByte c
    → IsByte d
    → a / 64 % 4 ≡ 2
    → encode (fields a b c d) ≡ a ∷ b ∷ c ∷ d ∷ []
unfolding encode
encode-fields a b c d ha hb hc hd v = ground arith

fields-IsValid :
    (a b c d : ℕ) → IsByte a → IsByte b → IsByte c → IsByte d → IsValid (fields a b c d)
fields-IsValid a b c d ha hb hc hd = omega arith

read_fields :
    (a b c d : ℕ) (rest : Bytes) {h : Header}
    → unmarshal (a ∷ b ∷ c ∷ d ∷ rest) ≡ ok h
    → (a / 64 % 4 ≡ 2) × (h ≡ fields a b c d)
read_fields a b c d rest e = ground (arith, unmarshal-fields a b c d rest)

-- A header read from bytes is valid, and writing it gives the first four of those bytes.
pub marshal-unmarshal_header :
    (raw : Bytes) {h : Header}
    → All IsByte raw
    → unmarshal raw ≡ ok h
    → IsValid h × (marshal h ≡ ok (take 4 raw))
unfolding unmarshal
marshal-unmarshal_header (a ∷ b ∷ c ∷ d ∷ rest) (ha, (hb, (hc, (hd, _)))) e =
    let (version, same) = read_fields a b c d rest e in
    let valid = fields-IsValid a b c d ha hb hc hd in
    rw same (
      valid,
      marshal-encode (fields a b c d) valid ∙ ap ok (encode-fields a b c d ha hb hc hd version),
    )
marshal-unmarshal_header _ w e = cc

-- Reading answers in three ways: too short below four bytes, a bad version where the first byte's
-- top two bits are not 2, and a header otherwise. It never panics.
pub unmarshal_header_outcome :
    (raw : Bytes)
    → ((length raw < 4) × (unmarshal raw ≡ err err_packet_too_short))
      ⊎ ((a : ℕ) × (rest : Bytes) × (raw ≡ a ∷ rest)
          × (4 ≤ length raw)
          × (a / 64 % 4 ≢ 2)
          × (unmarshal raw ≡ err err_bad_version))
      ⊎ ((a : ℕ) × (rest : Bytes) × (h : Header) × (raw ≡ a ∷ rest)
          × (a / 64 % 4 ≡ 2)
          × (unmarshal raw ≡ ok h))
unfolding unmarshal
unmarshal_header_outcome (a ∷ b ∷ c ∷ d ∷ rest) = elim (Bool-cases (a / 64 % 4 == 2)) [
  | inl e ↦
      inr (
        inr (a, b ∷ c ∷ d ∷ rest, fields a b c d, refl, (==_iff _ 2).0 e, rw (unmarshal-fields, e)))
  | inr e ↦ inr (
      inl (
        a,
        b ∷ c ∷ d ∷ rest,
        refl,
        omega arith,
        ground arith,
        unmarshal-fields a b c d rest ∙ rw e,
      ))
]
unmarshal_header_outcome _ = inl (omega arith, refl)

-- Writing fails, with `err_invalid_header`, exactly when the count does not fit its five bits.
pub marshal_header_invalid : (h : Header) → (marshal h ≡ err err_invalid_header) ↔ (31 < h.count)
unfolding marshal be16
marshal_header_invalid h = ground arith
