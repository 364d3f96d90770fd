-- ===== src/ReceiverEstimatedMaximumBitrate/Bitrate.antt =====
-- The exponent and the mantissa in arithmetic.
use rtcp.Prelude.{
  ℕ, zero, suc, ◌+◌, ◌-◌, ◌*◌, ◌/◌, ◌^◌, ◌≤◌, ◌<◌, ◌≡◌, ◌∙◌, ◌⊎◌, ap, arith, leb, ne→==_false,
  le→ltb_false, lt→ltb, refl, ◌%◌, Bool-cases, inl, inr,
}
use native.Mathlib.Decide.{ℕ_discrete, dec_le}
use native.Mathlib.Nat.{zero-add, suc-add, pow-le-pow_right}
use native.Mathlib.Nat.{div-add-mod, mod-lt, mul-div_cancel}
use rtcp.Prelude.Bits.{pow_pos, pow_two_suc}
use rtcp.ReceiverEstimatedMaximumBitrate.{digits_of, shift_of, exponent, mantissa, bitrate_of}

digits_of-le : (fuel v : ℕ) → digits_of fuel v ≤ fuel
unfolding digits_of
digits_of-le zero v = omega arith
digits_of-le (suc fuel) v = ground (arith, digits_of-le fuel (v / 2))

-- `v` has that many digits, and no fewer.
digits_of_upper : (fuel v : ℕ) → v < 2 ^ fuel → v < 2 ^ digits_of fuel v
unfolding digits_of
digits_of_upper zero v h = h
digits_of_upper (suc fuel) v h = elim (ℕ_discrete v 0) [
  | yes e ↦ rw e (omega arith)
  | no ne ↦ rw (ne→==_false v 0 ne) (
      omega (
        arith,
        digits_of_upper fuel (v / 2) (omega (arith, h, pow_two_suc fuel)),
        pow_two_suc (digits_of fuel (v / 2)),
      ))
]

-- A mantissa of 18 bits, an exponent of 46 at most.
pub exponent_bound : (b : ℕ) → exponent b ≤ 46
unfolding exponent
exponent_bound b = ground (arith, digits_of-le 64 b)

pow_split : (k s : ℕ) → 2 ^ (k + s) ≡ 2 ^ k * 2 ^ s
pow_split zero s = rw zero-add (omega arith)
pow_split (suc k) s = rw (suc-add, pow_two_suc (k + s), pow_two_suc k, pow_split k s) (omega arith)

div_bound : (b q m : ℕ) → 0 < m → b < q * m → b / m < q
div_bound b q m p h = grind (arith, div-add-mod b m)

pub mantissa_bound : (b : ℕ) → b < 2 ^ 64 → mantissa b < 2 ^ 18
unfolding mantissa
mantissa_bound b h =
    let s = shift_of b in
    let upper = digits_of_upper 64 b h in
    elim (dec_le s 18) [
      | yes short ↦
          let wide : 2 ^ s ≤ 2 ^ 18 = pow-le-pow_right (omega arith) short in
          ground (arith, upper, wide)
      | no long ↦
          let k = s - 18 in
          let split : 2 ^ s ≡ 2 ^ 18 * 2 ^ k =
            ap (λ t. 2 ^ t) (omega (arith, long)) ∙ pow_split 18 k in
          let small : b / 2 ^ k < 2 ^ 18 =
            div_bound b (2 ^ 18) (2 ^ k) (pow_pos k) (omega (arith, upper, split)) in
          ground (arith, small, long)
    ]

-- What is encoded is the bitrate without its lowest `exponent` bits.
pub mantissa-exponent : (b : ℕ) → mantissa b ≡ b / 2 ^ exponent b
unfolding mantissa exponent
mantissa-exponent b = elim (Bool-cases (leb (shift_of b) 18)) [
  | inl short ↦ rw short (omega arith)
  | inr long ↦ rw long
]

-- What is read back: no more than the bitrate, and less by under 2 ^ exponent.
pub bitrate_of-mantissa :
    (b : ℕ)
    → b < 2 ^ 64
    → bitrate_of (exponent b) (mantissa b) ≡ b / 2 ^ exponent b * 2 ^ exponent b
unfolding bitrate_of
bitrate_of-mantissa b h =
    let e = exponent b in
    let whole : b / 2 ^ e * 2 ^ e ≤ b = omega (arith, div-add-mod b (2 ^ e)) in
    rw (le→ltb_false 46 e (exponent_bound b), mantissa-exponent b) (omega (arith, whole, h))

digits_of_lower : (fuel k v : ℕ) → v < 2 ^ k → digits_of fuel v ≤ k
unfolding digits_of
digits_of_lower zero k v h = omega arith
digits_of_lower (suc fuel) zero v h = let e : v ≡ 0 = omega (arith, h) in rw e (omega arith)
digits_of_lower (suc fuel) (suc k) v h =
    let half : v / 2 < 2 ^ k = omega (arith, h, pow_two_suc k) in
    ground (arith, digits_of_lower fuel k (v / 2) half)

-- Up to 18 bits nothing is cut off.
pub exponent_small : (b : ℕ) → b < 2 ^ 18 → exponent b ≡ 0
unfolding exponent
exponent_small b h = ground (arith, digits_of_lower 64 18 b h)

pub cut_le : (b e : ℕ) → b / 2 ^ e * 2 ^ e ≤ b
cut_le b e = omega (arith, div-add-mod b (2 ^ e))

pub cut_lt : (b e : ℕ) → b < b / 2 ^ e * 2 ^ e + 2 ^ e
cut_lt b e = omega (arith, div-add-mod b (2 ^ e), mod-lt b (pow_pos e))

-- A value with `e` zeros behind 18 bits needs no greater exponent, and loses nothing.
exponent-shifted : (e m : ℕ) → m < 2 ^ 18 → exponent (m * 2 ^ e) ≤ e
unfolding exponent
exponent-shifted e m h =
    let wide : m * 2 ^ e < 2 ^ (18 + e) = rw (pow_split 18 e) (grind (arith, pow_pos e)) in
    ground (arith, digits_of_lower 64 (18 + e) (m * 2 ^ e) wide)

shifted_exact : (e k m : ℕ) → k ≤ e → m * 2 ^ e / 2 ^ k * 2 ^ k ≡ m * 2 ^ e
shifted_exact e k m h =
    let parts : 2 ^ e ≡ 2 ^ (e - k) * 2 ^ k =
      ap (λ t. 2 ^ t) (omega (arith, h)) ∙ pow_split (e - k) k in
    let whole : m * 2 ^ e ≡ m * 2 ^ (e - k) * 2 ^ k = grind (arith, parts) in
    rw whole (ap (λ t. t * 2 ^ k) (mul-div_cancel (m * 2 ^ (e - k)) (pow_pos k)))

product_bound : (m p : ℕ) → m < 2 ^ 18 → p ≤ 2 ^ 46 → m * p < 2 ^ 64
product_bound m p h k = grind arith

-- A bitrate that was read is the greatest there is, or is written with no loss.
pub bitrate_of_exact :
    (e m : ℕ)
    → m < 2 ^ 18
    → (bitrate_of e m ≡ 2 ^ 64 - 1)
      ⊎ (bitrate_of e m / 2 ^ exponent (bitrate_of e m) * 2 ^ exponent (bitrate_of e m)
          ≡ bitrate_of e m)
unfolding bitrate_of
bitrate_of_exact e m h = elim (dec_le e 46) [
  | no big ↦ inl (rw (lt→ltb 46 e (omega (arith, big))) refl)
  | yes small ↦
      let step : 2 ^ e ≤ 2 ^ 46 = pow-le-pow_right (omega arith) small in
      let fits : m * 2 ^ e % 2 ^ 64 ≡ m * 2 ^ e = omega (arith, product_bound m (2 ^ e) h step) in
      inr (
        rw (le→ltb_false 46 e small, fits)
          (shifted_exact e (exponent (m * 2 ^ e)) m (exponent-shifted e m h)))
]
