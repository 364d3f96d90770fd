-- ===== src/Util.antt =====
-- util.go: padding, and bit fields of machine words.
pub mod Laws
pub mod Fields
use rtcp.Prelude.{ℕ, ◌+◌, ◌-◌, ◌*◌, ◌/◌, ◌%◌, ◌^◌, bit_and, bit_or, ◌==◌, if◌then◌else◌, [], ◌∷◌}
use rtcp.Result.{Result, ok, panic, ◌>>=◌}
use rtcp.Bytes.{Bytes, index}

-- `getPadding`
unfoldable pub get_padding : ℕ → ℕ
get_padding len = if len % 4 == 0 then 0 else 4 - len % 4

-- `appendNBitsToUint16`: `16 - n` wraps, and a shift by 16 or more gives 0.
unfoldable pub append_nbits_to_uint16 : ℕ → ℕ → ℕ → ℕ
append_nbits_to_uint16 src n val =
    bit_or (src * 2 ^ n % 2 ^ 16) (bit_and val (0xffff / 2 ^ ((16 + 2 ^ 16 - n) % 2 ^ 16)))

-- `appendNBitsToUint32`
unfoldable pub append_nbits_to_uint32 : ℕ → ℕ → ℕ → ℕ
append_nbits_to_uint32 src n val =
    bit_or (src * 2 ^ n % 2 ^ 32) (bit_and val (0xffffffff / 2 ^ ((32 + 2 ^ 32 - n) % 2 ^ 32)))

-- `getNBitsFromByte`: `endShift` is a uint16, and the mask's two factors are bytes.
unfoldable pub get_nbits_from_byte : ℕ → ℕ → ℕ → ℕ
get_nbits_from_byte b begin n =
    let end_shift = (8 + 2 ^ 16 - (begin + n) % 2 ^ 16) % 2 ^ 16 in
    let mask = bit_and (0xff / 2 ^ begin) (0xff * 2 ^ end_shift % 2 ^ 8) in
    bit_and b mask / 2 ^ end_shift

-- `get24BitsFromBytes`
unfoldable pub get_24_bits_from_bytes : Bytes → Result ℕ
unfolding index
get_24_bits_from_bytes b = do
  x ← index b 0
  y ← index b 1
  z ← index b 2
  ok ((x * 2 ^ 16 + y * 2 ^ 8 + z) % 2 ^ 32)
