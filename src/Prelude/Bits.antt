-- ===== src/Prelude/Bits.antt =====
-- `bit_or` and `bit_and` as arithmetic, for every width, from their recursion on binary digits.
use Prim.Native.Nat.{
  ℕ, zero, suc, ◌+◌, ◌-◌, ◌*◌, ◌/◌, ◌%◌, ◌^◌, ◌≤◌, ◌<◌, min, max, bit_and, bit_or, digits,
  bit_and-bitwise, bit_or-bitwise,
}
use mathlib.Core.Path.{◌≡◌, refl, sym, ap, ◌∙◌}
use native.Mathlib.Omega.{arith}
use native.Mathlib.Nat.{pow-suc, div-add-mod, add-mul-mod_self_right, mod-eq_of_lt, mod-lt}

-- Both operations go digit by digit; fuel beyond the first number changes nothing.
digits_enough :
    (z : ℕ → ℕ) (op : ℕ → ℕ → ℕ) (x n m y : ℕ)
    → x ≤ n
    → x ≤ m
    → digits z op n x y ≡ digits z op m x y
digits_enough z op zero zero zero y hn hm = refl
digits_enough z op zero zero (suc m) y hn hm = refl
digits_enough z op zero (suc n) zero y hn hm = refl
digits_enough z op zero (suc n) (suc m) y hn hm = refl
digits_enough z op (suc x) zero m y hn hm = absurd (omega arith)
digits_enough z op (suc x) (suc n) zero y hn hm = absurd (omega arith)
digits_enough z op (suc x) (suc n) (suc m) y hn hm =
    let half = suc x / 2 in
    let again = digits_enough z op half n m (y / 2) (omega arith) (omega arith) in
    omega (arith, again)

pub zero-bit_or : (y : ℕ) → bit_or 0 y ≡ y
zero-bit_or = bit_or-bitwise 0

pub zero-bit_and : (y : ℕ) → bit_and 0 y ≡ 0
zero-bit_and = bit_and-bitwise 0

-- The law for the lowest digit.
pub bit_or_step : (x y : ℕ) → bit_or x y ≡ 2 * bit_or (x / 2) (y / 2) + max (x % 2) (y % 2)
bit_or_step zero y = omega (arith, zero-bit_or (y / 2), zero-bit_or y)
bit_or_step (suc x) y =
    let half = suc x / 2 in
    let whole = bit_or-bitwise (suc x) y in
    let rest = bit_or-bitwise half (y / 2) in
    omega (
      arith,
      whole,
      rest,
      digits_enough (λ c. c) max half x half (y / 2) (omega arith) (omega arith),
    )

pub bit_and_step : (x y : ℕ) → bit_and x y ≡ 2 * bit_and (x / 2) (y / 2) + min (x % 2) (y % 2)
bit_and_step zero y = omega (arith, zero-bit_and (y / 2), zero-bit_and y)
bit_and_step (suc x) y =
    let half = suc x / 2 in
    let whole = bit_and-bitwise (suc x) y in
    let rest = bit_and-bitwise half (y / 2) in
    omega (
      arith,
      whole,
      rest,
      digits_enough (λ c. zero) min half x half (y / 2) (omega arith) (omega arith),
    )

-- Nothing is left of a number under an empty mask.
empty_mask : (room x : ℕ) → x ≤ room → bit_and x 0 ≡ 0
empty_mask room zero h = zero-bit_and 0
empty_mask zero (suc x) h = absurd (omega arith)
empty_mask (suc room) (suc x) h =
    let half = empty_mask room (suc x / 2) (omega arith) in
    omega (arith, half, bit_and_step (suc x) 0)

pub bit_and-zero : (x : ℕ) → bit_and x 0 ≡ 0
bit_and-zero x = empty_mask x x (omega arith)

pub pow_two_suc : (k : ℕ) → 2 ^ suc k ≡ 2 * 2 ^ k
pow_two_suc k = omega (arith, pow-suc 2 k)

-- One digit more on the right.
bit_or_double : (lo q : ℕ) → bit_or lo (q * 2) ≡ 2 * bit_or (lo / 2) q + lo % 2
bit_or_double lo q =
    let half : q * 2 / 2 ≡ q = omega arith in rw bit_or_step (rw half (omega arith))

pub shift_suc : (hi k : ℕ) → hi * 2 ^ suc k ≡ hi * 2 ^ k * 2
shift_suc hi k = omega (arith, ap (λ (t : ℕ). hi * t) (pow_two_suc k))

-- `(hi << k) | lo`, for a `lo` of `k` bits, is a sum.
pub bit_or_shift : (k hi lo : ℕ) → lo < 2 ^ k → bit_or lo (hi * 2 ^ k) ≡ lo + hi * 2 ^ k
bit_or_shift zero hi zero h = zero-bit_or (hi * 2 ^ 0) ∙ omega arith
bit_or_shift zero hi (suc lo) h = absurd (omega arith)
bit_or_shift (suc k) hi lo h = rw shift_suc (
    omega (
      arith,
      bit_or_double lo (hi * 2 ^ k),
      bit_or_shift k hi (lo / 2) (omega (arith, pow_two_suc k)),
    ))

bit_or-zero_fuel : (n a : ℕ) → a ≤ n → bit_or a 0 ≡ a
bit_or-zero_fuel n zero h = zero-bit_or 0
bit_or-zero_fuel zero (suc a) h = absurd (omega arith)
bit_or-zero_fuel (suc n) (suc a) h =
    omega (arith, bit_or_step (suc a) 0, bit_or-zero_fuel n (suc a / 2) (omega arith))

pub bit_or-zero : (a : ℕ) → bit_or a 0 ≡ a
bit_or-zero a = bit_or-zero_fuel a a (omega arith)

bit_or_comm_fuel : (n a b : ℕ) → a ≤ n → bit_or a b ≡ bit_or b a
bit_or_comm_fuel n zero b h = zero-bit_or b ∙ sym (bit_or-zero b)
bit_or_comm_fuel zero (suc a) b h = absurd (omega arith)
bit_or_comm_fuel (suc n) (suc a) b h = omega (
  arith,
  bit_or_step (suc a) b,
  bit_or_step b (suc a),
  bit_or_comm_fuel n (suc a / 2) (b / 2) (omega arith),
)

pub bit_or_comm : (a b : ℕ) → bit_or a b ≡ bit_or b a
bit_or_comm a b = bit_or_comm_fuel a a b (omega arith)

-- The same sum with the high part on the left.
pub shift_bit_or : (k hi lo : ℕ) → lo < 2 ^ k → bit_or (hi * 2 ^ k) lo ≡ hi * 2 ^ k + lo
shift_bit_or k hi lo h = bit_or_comm (hi * 2 ^ k) lo ∙ bit_or_shift k hi lo h ∙ omega arith

-- A mask of `k + 1` ones takes the lowest digit and masks the rest by `k` ones.
mask_step : (a m : ℕ) → bit_and a (2 * m + 1) ≡ 2 * bit_and (a / 2) m + a % 2
mask_step a m =
    let half : (2 * m + 1) / 2 ≡ m = omega arith in
    let odd : (2 * m + 1) % 2 ≡ 1 = omega arith in rw bit_and_step (rw (half, odd) (omega arith))

pub pow_pos : (k : ℕ) → 0 < 2 ^ k
pow_pos zero = omega arith
pow_pos (suc k) = omega (arith, pow_two_suc k, pow_pos k)

mod_double : (k a : ℕ) → a % 2 ^ suc k ≡ (a / 2 % 2 ^ k) * 2 + a % 2
mod_double k a =
    let low = (a / 2 % 2 ^ k) * 2 + a % 2 in
    let parts : a ≡ low + a / 2 / 2 ^ k * 2 ^ suc k =
      omega
        (arith, div-add-mod (a / 2) (2 ^ k), ap (λ (t : ℕ). a / 2 / 2 ^ k * t) (pow_two_suc k)) in
    ap (λ (t : ℕ). t % 2 ^ suc k) parts
    ∙ add-mul-mod_self_right low (a / 2 / 2 ^ k) (2 ^ suc k)
    ∙ mod-eq_of_lt (omega (arith, mod-lt (a / 2) (pow_pos k), pow_two_suc k))

-- `a & (2 ^ k - 1)` keeps the low `k` bits.
pub bit_and_mask : (k a : ℕ) → bit_and a (2 ^ k - 1) ≡ a % 2 ^ k
bit_and_mask zero a = bit_and-zero a ∙ omega arith
bit_and_mask (suc k) a =
    let wide : 2 ^ suc k - 1 ≡ 2 * (2 ^ k - 1) + 1 = omega (arith, pow_two_suc k, pow_pos k) in
    rw (wide, mask_step) (omega (arith, bit_and_mask k (a / 2), mod_double k a))

bit_and-one : (a : ℕ) → bit_and a 1 ≡ a % 2
bit_and-one a = bit_and_mask 1 a

-- `b & (1 << k)` on a `b` whose lower bits are clear.
pub bit_and_bit : (k c : ℕ) → bit_and (c * 2 ^ k) (2 ^ k) ≡ c % 2 * 2 ^ k
bit_and_bit zero c = bit_and-one (c * 2 ^ 0) ∙ omega arith
bit_and_bit (suc k) c =
    let q = c * 2 ^ k in
    let left : c * 2 ^ suc k / 2 ≡ q = rw shift_suc (omega arith) in
    let right : 2 ^ suc k / 2 ≡ 2 ^ k = omega (arith, pow_two_suc k) in
    let even : c * 2 ^ suc k % 2 ≡ 0 = rw shift_suc (omega arith) in
    bit_and_step (c * 2 ^ suc k) (2 ^ suc k)
    ∙ rw (left, right, even, bit_and_bit k c, shift_suc) (omega arith)
