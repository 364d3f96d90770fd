-- ===== src/Util/Fields.antt =====
-- The bit fields of util.go as quotients, remainders and sums.
use rtcp.Prelude.{
  ℕ, zero, suc, ◌+◌, ◌-◌, ◌*◌, ◌/◌, ◌%◌, ◌^◌, ◌≤◌, ◌<◌, ◌≡◌, refl, arith, bit_and, Bool, true,
  false, ◌&&◌, ◌==◌, ==_iff,
}
use rtcp.Prelude.Fields.{field, append_field}
use native.Mathlib.Decide.{ℕ_discrete}
use rtcp.Util.{append_nbits_to_uint16, append_nbits_to_uint32, get_nbits_from_byte}

-- A test that holds below `n`.
abbrev all_below : ℕ → (ℕ → Bool) → Bool
all_below zero f = true
all_below (suc n) f = f n && all_below n f

and_true : (a b : Bool) → (a && b) ≡ true → (a ≡ true) × (b ≡ true)
and_true true b e = (refl, e)
and_true false b e = cc

all_below_at : (n : ℕ) (f : ℕ → Bool) → all_below n f ≡ true → (i : ℕ) → i < n → f i ≡ true
all_below_at zero f all i h = absurd (omega arith)
all_below_at (suc n) f all i h = elim (ℕ_discrete i n) [
  | yes e ↦ rw e ((and_true (f n) (all_below n f) all).0)
  | no ne ↦ all_below_at n f ((and_true (f n) (all_below n f) all).1) i (omega (arith, ne))
]

-- The mask of `n` bits from bit `begin` of a byte on, as the code makes it.
abbrev mask : ℕ → ℕ → ℕ
mask begin n = bit_and (0xff / 2 ^ begin) (0xff * 2 ^ (8 - (begin + n)) % 2 ^ 8)

abbrev mask_right : ℕ → ℕ → Bool
mask_right begin n = mask begin n == (2 ^ n - 1) * 2 ^ (8 - (begin + n))

masks_right : all_below 9 (λ begin. all_below (9 - begin) (mask_right begin)) ≡ true
masks_right = refl

mask_is : (begin n : ℕ) → begin + n ≤ 8 → mask begin n ≡ (2 ^ n - 1) * 2 ^ (8 - (begin + n))
mask_is begin n h =
    let row =
      all_below_at 9 (λ begin. all_below (9 - begin) (mask_right begin)) masks_right begin
        (omega arith) in
    let cell = all_below_at (9 - begin) (mask_right begin) row n (omega arith) in
    (==_iff (mask begin n) ((2 ^ n - 1) * 2 ^ (8 - (begin + n)))).0 cell

-- `getNBitsFromByte` gives the `n` bits that stand behind the first `begin` of the low eight bits,
-- where these are no more than eight.
pub get_nbits_from_byte_lem :
    (b begin n : ℕ)
    → begin + n ≤ 8
    → get_nbits_from_byte b begin n ≡ b / 2 ^ (8 - (begin + n)) % 2 ^ n
unfolding get_nbits_from_byte
get_nbits_from_byte_lem b begin n h =
    let shift : (8 + 2 ^ 16 - (begin + n) % 2 ^ 16) % 2 ^ 16 ≡ 8 - (begin + n) = omega arith in
    rw (shift, mask_is begin n h) (field (8 - (begin + n)) n b)

-- The mask of the `n` low bits of a word of `w` bits, where the word is split at bit `n`.
abbrev low_mask_right : ℕ → ℕ → Bool
low_mask_right w n =
    ((2 ^ w - 1) / 2 ^ ((w + 2 ^ w - n) % 2 ^ w) == 2 ^ n - 1) && (2 ^ w == 2 ^ (w - n) * 2 ^ n)

low_masks16 : all_below 17 (low_mask_right 16) ≡ true
low_masks16 = refl

low_masks32 : all_below 33 (low_mask_right 32) ≡ true
low_masks32 = refl

low_mask_is :
    (w n : ℕ)
    → low_mask_right w n ≡ true
    → ((2 ^ w - 1) / 2 ^ ((w + 2 ^ w - n) % 2 ^ w) ≡ 2 ^ n - 1) × (2 ^ w ≡ 2 ^ (w - n) * 2 ^ n)
low_mask_is w n e = let both = and_true _ _ e in ((==_iff _ _).0 both.0, (==_iff _ _).0 both.1)

-- `appendNBitsToUint16`, for `n` of at most sixteen, shifts by `n` bits in sixteen, and adds the `n`
-- low bits of the value.
pub append_nbits_to_uint16_lem :
    (src n val : ℕ) → n ≤ 16 → append_nbits_to_uint16 src n val ≡ src * 2 ^ n % 2 ^ 16 + val % 2 ^ n
unfolding append_nbits_to_uint16
append_nbits_to_uint16_lem src n val h =
    let (low, whole) =
      low_mask_is 16 n (all_below_at 17 (low_mask_right 16) low_masks16 n (omega arith)) in
    rw (low, whole) (append_field (16 - n) n src val)

-- `appendNBitsToUint32` does the same in 32 bits.
pub append_nbits_to_uint32_lem :
    (src n val : ℕ) → n ≤ 32 → append_nbits_to_uint32 src n val ≡ src * 2 ^ n % 2 ^ 32 + val % 2 ^ n
unfolding append_nbits_to_uint32
append_nbits_to_uint32_lem src n val h =
    let (low, whole) =
      low_mask_is 32 n (all_below_at 33 (low_mask_right 32) low_masks32 n (omega arith)) in
    rw (low, whole) (append_field (32 - n) n src val)
