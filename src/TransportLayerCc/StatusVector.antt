-- ===== src/TransportLayerCc/StatusVector.antt =====
-- The status vector chunks through their two bytes.
use rtcp.Prelude.{
  ℕ, zero, suc, ◌+◌, ◌*◌, ◌/◌, ◌%◌, ◌^◌, ◌≤◌, ◌<◌, ◌≡◌, ◌∙◌, refl, sym, ap, arith, length,
  length-append, All-append, All, List, [], ◌∷◌, ◌++◌,
}
use rtcp.Prelude.Bits.{pow_pos}
use rtcp.Prelude.Digits.{horner, power_mul, horner-append, horner_split, horner_lt}
use mathlib.Core.Path.{subst}
use rtcp.Result.{ok, ◌>>=◌}
use rtcp.Bytes.{put, index, be16}
use rtcp.Util.{append_nbits_to_uint16, get_nbits_from_byte}
use rtcp.Util.Fields.{append_nbits_to_uint16_lem, get_nbits_from_byte_lem}
use rtcp.TransportLayerCc.Chunk.{
  StatusVectorChunk, marshal_status_vector, unmarshal_status_vector, append_symbols, symbols_from,
}
use rtcp.TransportLayerCc.Symbols.{append_symbols-horner, symbols_from-horner}

-- A vector: fourteen symbols of one bit, or seven of two.
pub record FitsVector (v : StatusVectorChunk) : Type 0 where
  pub type_one : v.type ≡ 1
  pub size_bound : v.symbol_size ≤ 1
  pub first : List ℕ
  pub second : List ℕ
  pub parts : v.symbol_list ≡ first ++ second
  pub first_fills : suc v.symbol_size * length first ≡ 6
  pub second_fills : suc v.symbol_size * length second ≡ 8
  pub first_bits : All (λ s. s < 2 ^ suc v.symbol_size) first
  pub second_bits : All (λ s. s < 2 ^ suc v.symbol_size) second

-- The word of a vector, in two bytes.
vector_word :
    (w top : ℕ) (first second : List ℕ)
    → top < 4
    → w * length first ≡ 6
    → w * length second ≡ 8
    → All (λ s. s < 2 ^ w) first
    → All (λ s. s < 2 ^ w) second
    → let v = horner (2 ^ w) top (first ++ second) in
      (v / 2 ^ 8 % 256 ≡ horner (2 ^ w) top first)
      × (v % 256 ≡ horner (2 ^ w) 0 second)
      × (horner (2 ^ w) top first / 2 ^ 6 ≡ top)
      × (v < 2 ^ 16)
vector_word w top first second h f1 f2 b1 b2 =
    let c = 2 ^ w in
    let q1 : c ^ length first ≡ 2 ^ 6 = sym (power_mul 2 w (length first)) ∙ ap (λ n. 2 ^ n) f1 in
    let q2 : c ^ length second ≡ 2 ^ 8 = sym (power_mul 2 w (length second)) ∙ ap (λ n. 2 ^ n) f2 in
    let a = horner c top first in
    let v = horner c a second in
    let low1 : horner c 0 first < 64 = omega (arith, horner_lt c first (pow_pos w) b1, q1) in
    let low2 : horner c 0 second < 256 = omega (arith, horner_lt c second (pow_pos w) b2, q2) in
    let high : a ≡ top * 64 + horner c 0 first =
      horner_split c top first ∙ ap (λ q. top * q + horner c 0 first) q1 in
    let whole : v ≡ a * 256 + horner c 0 second =
      horner_split c a second ∙ ap (λ q. a * q + horner c 0 second) q2 in
    rw (horner-append c top first second) (
      omega (arith, whole, low2, high, low1),
      omega (arith, whole, low2),
      omega (arith, high, low1),
      omega (arith, whole, low2, high, low1),
    )

first_room : (w k top : ℕ) → top < 4 → w * k ≡ 14 → (top + 1) * (2 ^ w) ^ k ≤ 2 ^ 16
first_room w k top h e =
    let q : (2 ^ w) ^ k ≡ 2 ^ 14 = sym (power_mul 2 w k) ∙ ap (λ n. 2 ^ n) e in rw q (omega arith)

module _ (size : ℕ) (first second : List ℕ) (one : size ≤ 1) (f1 : suc size * length first ≡ 6)
    (f2 : suc size * length second ≡ 8) (b1 : All (λ s. s < 2 ^ suc size) first)
    (b2 : All (λ s. s < 2 ^ suc size) second) where
  -- What is written: the two bits of the type and the size, and then the symbols.
  written_word :
      append_symbols size
        (append_nbits_to_uint16 (append_nbits_to_uint16 0 1 1) 1 size)
        (first ++ second)
      ≡ horner (2 ^ suc size) (2 + size) (first ++ second)
  written_word =
      let count : suc size * length (first ++ second) ≡ 14 =
        grind (arith, length-append first second, f1, f2) in
      let top : append_nbits_to_uint16 (append_nbits_to_uint16 0 1 1) 1 size ≡ 2 + size =
        rw
          (
            append_nbits_to_uint16_lem 0 1 1 (omega arith),
            append_nbits_to_uint16_lem _ 1 size (omega arith),
          )
          (omega (arith, one)) in
      rw top (
        append_symbols-horner size (first ++ second) (2 + size) one
          (All-append (λ s. s < 2 ^ suc size) first second b1 b2)
          (first_room (suc size) (length (first ++ second)) (2 + size) (omega (arith, one)) count))

  size_back : get_nbits_from_byte (horner (2 ^ suc size) (2 + size) first) 1 1 ≡ size
  size_back =
      let (_, _, top, _) =
        vector_word (suc size) (2 + size) first second (omega (arith, one)) f1 f2 b1 b2 in
      get_nbits_from_byte_lem _ 1 1 (omega arith) ∙ rw top (omega (arith, one))

  first_back :
      (n : ℕ)
      → length first ≡ n
      → symbols_from n (horner (2 ^ suc size) (2 + size) first) 2 (suc size) ≡ first
  first_back n e =
      rw (← e) (symbols_from-horner (suc size) 2 (2 + size) first (omega (arith, f1)) b1)

  second_back :
      (n : ℕ)
      → length second ≡ n
      → symbols_from n (horner (2 ^ suc size) 0 second) 0 (suc size) ≡ second
  second_back n e = rw (← e) (symbols_from-horner (suc size) 0 0 second (omega (arith, f2)) b2)

-- The two bytes of a vector. Their first bit is one.
pub vector_bytes :
    (v : StatusVectorChunk) (f : FitsVector v)
    → let w = horner (2 ^ suc v.symbol_size) (2 + v.symbol_size) (f.first ++ f.second) in
      (marshal_status_vector v ≡ ok (w / 2 ^ 8 % 256 ∷ w % 256 ∷ []))
      × (get_nbits_from_byte (w / 2 ^ 8 % 256) 0 1 ≡ 1)
unfolding marshal_status_vector put be16
vector_bytes v f =
    let size = v.symbol_size in
    let word =
      written_word size f.first f.second f.size_bound f.first_fills f.second_fills f.first_bits
        f.second_bits in
    let (high, _, top, _) =
      vector_word (suc size) (2 + size) f.first f.second (omega (arith, f.size_bound)) f.first_fills
        f.second_fills f.first_bits f.second_bits in
    (
      rw (f.parts, word) refl,
      get_nbits_from_byte_lem _ 0 1 (omega arith) ∙ omega (arith, high, top, f.size_bound),
    )

vector_back :
    (size : ℕ) (first second : List ℕ)
    → size ≤ 1
    → suc size * length first ≡ 6
    → suc size * length second ≡ 8
    → All (λ s. s < 2 ^ suc size) first
    → All (λ s. s < 2 ^ suc size) second
    → let v : StatusVectorChunk = record {
      type = 1;
      symbol_size = size;
      symbol_list = first ++ second;
    } in
      (marshal_status_vector v
        >>= unmarshal_status_vector (record { type = 0; symbol_size = 0; symbol_list = [] }))
      ≡ ok v
unfolding marshal_status_vector unmarshal_status_vector put index be16
vector_back zero first second one f1 f2 b1 b2 =
    let (high, low, _, _) = vector_word 1 2 first second (omega arith) f1 f2 b1 b2 in
    rw
      (
        written_word zero first second one f1 f2 b1 b2,
        high,
        low,
        size_back zero first second one f1 f2 b1 b2,
        first_back zero first second one f1 f2 b1 b2 6 (omega (arith, f1)),
        second_back zero first second one f1 f2 b1 b2 8 (omega (arith, f2)),
      )
      refl
vector_back (suc zero) first second one f1 f2 b1 b2 =
    let (high, low, _, _) = vector_word 2 3 first second (omega arith) f1 f2 b1 b2 in
    rw
      (
        written_word 1 first second one f1 f2 b1 b2,
        high,
        low,
        size_back 1 first second one f1 f2 b1 b2,
        first_back 1 first second one f1 f2 b1 b2 3 (omega (arith, f1)),
        second_back 1 first second one f1 f2 b1 b2 4 (omega (arith, f2)),
      )
      refl
vector_back (suc (suc size)) first second one f1 f2 b1 b2 = absurd (omega arith)

-- A vector of fourteen symbols of one bit, or of seven of two bits, is written, and read back from
-- the empty vector.
pub unmarshal-marshal_status_vector :
    (v : StatusVectorChunk)
    → FitsVector v
    → (marshal_status_vector v
        >>= unmarshal_status_vector (record { type = 0; symbol_size = 0; symbol_list = [] }))
      ≡ ok v
unmarshal-marshal_status_vector v f =
    let same =
      ap
        (λ (t : ℕ). record {
          type = t;
          symbol_size = v.symbol_size;
          symbol_list = f.first ++ f.second;
        })
        (sym f.type_one)
      ∙ ap (λ (l : List ℕ). record { type = v.type; symbol_size = v.symbol_size; symbol_list = l })
          (sym f.parts) in
    subst
      (λ (u : StatusVectorChunk).
        (marshal_status_vector u
          >>= unmarshal_status_vector (record { type = 0; symbol_size = 0; symbol_list = [] }))
        ≡ ok u)
      same
      (vector_back v.symbol_size f.first f.second f.size_bound f.first_fills f.second_fills
        f.first_bits f.second_bits)
