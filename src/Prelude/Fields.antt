-- ===== src/Prelude/Fields.antt =====
-- Bit fields as arithmetic.
use Prim.Native.Nat.{ℕ, zero, suc, ◌+◌, ◌-◌, ◌*◌, ◌/◌, ◌%◌, ◌^◌, bit_and, bit_or}
use mathlib.Core.Path.{◌≡◌, ◌∙◌}
use native.Mathlib.Omega.{arith}
use native.Mathlib.Nat.{div-div-eq-div-mul, mod-eq-sub-div-mul, mul-sub, mod-lt}
use rtcp.Prelude.Bits.{bit_and_step, bit_and_mask, shift_bit_or, shift_suc, pow_two_suc, pow_pos}

-- Below an even mask the lowest digit is lost.
bit_and_even : (x y : ℕ) → bit_and x (y * 2) ≡ bit_and (x / 2) y * 2
bit_and_even x y =
    let half : y * 2 / 2 ≡ y = omega arith in
    let even : y * 2 % 2 ≡ 0 = omega arith in rw bit_and_step (rw (half, even) (omega arith))

pub bit_and_shifted : (k x m : ℕ) → bit_and x (m * 2 ^ k) / 2 ^ k ≡ bit_and (x / 2 ^ k) m
bit_and_shifted zero x m =
    let one : m * 2 ^ 0 ≡ m = omega arith in
    let whole : x / 2 ^ 0 ≡ x = omega arith in rw (one, whole) (omega arith)
bit_and_shifted (suc k) x m =
    let here = bit_and_shifted k (x / 2) m in
    let left = div-div-eq-div-mul (bit_and x (m * 2 ^ k * 2)) 2 (2 ^ k) in
    let right = div-div-eq-div-mul x 2 (2 ^ k) in
    rw (shift_suc m k, pow_two_suc k, ← left, ← right, bit_and_even x (m * 2 ^ k))
      (let halved : bit_and (x / 2) (m * 2 ^ k) * 2 / 2 ≡ bit_and (x / 2) (m * 2 ^ k) =
          omega arith in
        rw halved here)

-- A field of `n` digits above the `k` lowest ones.
pub field : (k n x : ℕ) → bit_and x ((2 ^ n - 1) * 2 ^ k) / 2 ^ k ≡ x / 2 ^ k % 2 ^ n
field k n x = bit_and_shifted k x (2 ^ n - 1) ∙ bit_and_mask n (x / 2 ^ k)

-- `src << k | val & mask`, in `m + k` digits.
pub append_field :
    (m k src val : ℕ)
    → bit_or (src * 2 ^ k % (2 ^ m * 2 ^ k)) (bit_and val (2 ^ k - 1))
      ≡ src * 2 ^ k % (2 ^ m * 2 ^ k) + val % 2 ^ k
append_field m k src val =
    let q = src * 2 ^ k / (2 ^ m * 2 ^ k) in
    let c = src - q * 2 ^ m in
    let shifted : src * 2 ^ k % (2 ^ m * 2 ^ k) ≡ c * 2 ^ k =
      mod-eq-sub-div-mul (src * 2 ^ k) (2 ^ m * 2 ^ k)
      ∙ grind (arith, mul-sub (2 ^ k) src (q * 2 ^ m)) in
    rw (bit_and_mask k val, shifted) (shift_bit_or k c (val % 2 ^ k) (mod-lt val (pow_pos k)))
