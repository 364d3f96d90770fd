-- ===== src/Prelude/Digits.antt =====
-- Numbers by their digits.
use rtcp.Prelude.{
  ℕ, zero, suc, ◌+◌, ◌*◌, ◌/◌, ◌%◌, ◌^◌, ◌≤◌, ◌<◌, ◌≡◌, ◌∙◌, refl, arith, length, All, List, [],
  ◌∷◌, ◌++◌,
}
use native.Mathlib.Nat.{
  pow-zero, pow-suc, pow-succ', mul_assoc, mul-le-mul_right, le-mul_of_pos_right, mul-add-div_right,
  div-eq_of_lt, mul-add-mod_self_right, mod-eq_of_lt,
}

-- The number whose digits in base `c` are those of `dst` and then the given ones.
abbrev pub horner : ℕ → ℕ → List ℕ → ℕ
horner c dst [] = dst
horner c dst (s ∷ digits) = horner c (dst * c + s) digits

pub power_pos : (b : ℕ) → 0 < b → (k : ℕ) → 0 < b ^ k
power_pos b h zero = omega (arith, pow-zero b)
power_pos b h (suc k) =
    rw (pow-suc b k) (omega (arith, power_pos b h k, le-mul_of_pos_right (b ^ k) h))

pub horner-append :
    (c dst : ℕ) (xs ys : List ℕ) → horner c dst (xs ++ ys) ≡ horner c (horner c dst xs) ys
horner-append c dst [] ys = refl
horner-append c dst (x ∷ xs) ys = horner-append c (dst * c + x) xs ys

-- The leading digits stand in front of the others.
pub horner_split :
    (c dst : ℕ) (digits : List ℕ)
    → horner c dst digits ≡ dst * c ^ length digits + horner c 0 digits
horner_split c dst [] = rw (pow-zero c) (omega arith)
horner_split c dst (s ∷ digits) =
    let k = length digits in
    let here = horner_split c (dst * c + s) digits in
    let low = horner_split c (0 * c + s) digits in rw (here, low, pow-succ' c k) (grind arith)

pub horner_lt :
    (c : ℕ) (digits : List ℕ)
    → 0 < c
    → All (λ s. s < c) digits
    → horner c 0 digits < c ^ length digits
horner_lt c [] h w = omega (arith, pow-zero c)
horner_lt c (s ∷ digits) h w =
    let q = c ^ length digits in
    let below : horner c 0 digits < q = horner_lt c digits h w.1 in
    let digit : s + 1 ≤ c = omega (arith, w.0) in
    let top : (s + 1) * q ≤ c * q = mul-le-mul_right q digit in
    rw (horner_split c (0 * c + s) digits, pow-succ' c (length digits)) (grind (arith, below, top))

-- What stands above the low digits.
pub above : (d q r : ℕ) → r < q → (d * q + r) / q ≡ d
above d q r h = mul-add-div_right (omega (arith, h)) d r ∙ rw (div-eq_of_lt h) (omega arith)

pub power_add : (b m n : ℕ) → b ^ (m + n) ≡ b ^ m * b ^ n
power_add b m zero = let end : m + 0 ≡ m = omega arith in rw (end, pow-zero b) (omega arith)
power_add b m (suc n) =
    let out : m + suc n ≡ suc (m + n) = omega arith in
    rw (out, pow-suc b (m + n), pow-suc b n, power_add b m n) (mul_assoc (b ^ m) (b ^ n) b)

pub power_mul : (b w k : ℕ) → b ^ (w * k) ≡ (b ^ w) ^ k
power_mul b w zero =
    let none : w * 0 ≡ 0 = omega arith in rw (none, pow-zero b, pow-zero (b ^ w)) refl
power_mul b w (suc k) =
    let out : w * suc k ≡ w + w * k = grind arith in
    rw (out, power_add b w (w * k), pow-succ' (b ^ w) k, power_mul b w k) refl

-- The last of the leading digits, behind which `digits` stand.
pub digit_above :
    (c hi s : ℕ) (digits : List ℕ)
    → s < c
    → All (λ d. d < c) digits
    → horner c (hi * c + s) digits / c ^ length digits % c ≡ s
digit_above c hi s digits h w =
    let low = horner_lt c digits (omega (arith, h)) w in
    rw
      (
        horner_split c (hi * c + s) digits,
        above (hi * c + s) (c ^ length digits) (horner c 0 digits) low,
        mul-add-mod_self_right hi c s,
        mod-eq_of_lt h,
      )
      refl
