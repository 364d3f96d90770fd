-- ===== src/Util/Laws.antt =====
-- What the functions of util.go compute, as arithmetic.
use rtcp.Prelude.{ℕ, ◌+◌, ◌%◌, ◌<◌, ◌≡◌, ◌≢◌, suc, arith}
use rtcp.Util.{get_padding}

-- The padding is the least number of bytes that completes a 32-bit word.
pub get_padding_lem : (n : ℕ) → ((n + get_padding n) % 4 ≡ 0) × (get_padding n < 4)
unfolding get_padding
get_padding_lem n = ground arith

pub get_padding_of_multiple : (n : ℕ) → n % 4 ≡ 0 → get_padding n ≡ 0
unfolding get_padding
get_padding_of_multiple n h = ground arith

pub get_padding_step : (n : ℕ) → n % 4 ≢ 0 → get_padding n ≡ suc (get_padding (n + 1))
unfolding get_padding
get_padding_step n h = ground arith

pub get_padding_zero : (n : ℕ) → get_padding n ≡ 0 → n % 4 ≡ 0
unfolding get_padding
get_padding_zero n h = ground arith
