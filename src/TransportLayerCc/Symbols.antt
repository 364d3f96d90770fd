-- ===== src/TransportLayerCc/Symbols.antt =====
-- The symbols of a status vector as the digits of a number.
use rtcp.Prelude.{
  ℕ, zero, suc, ◌+◌, ◌-◌, ◌*◌, ◌^◌, ◌≤◌, ◌<◌, ◌≡◌, ◌∙◌, refl, ap, arith, length, All, List, [], ◌∷◌,
}
use rtcp.Prelude.Bits.{pow_pos}
use rtcp.Prelude.Digits.{horner, power_pos, power_mul, digit_above}
use native.Mathlib.Nat.{mod-eq_of_lt, pow-succ', mul_assoc, mul-le-mul_right, le-mul_of_pos_right}
use rtcp.Util.{append_nbits_to_uint16, get_nbits_from_byte}
use rtcp.Util.Fields.{append_nbits_to_uint16_lem, get_nbits_from_byte_lem}
use rtcp.TransportLayerCc.Chunk.{append_symbols, symbols_from}

-- There is room for a digit and then for the others.
room_step :
    (c dst s k : ℕ)
    → s < 2 ^ c
    → (dst + 1) * (2 ^ c) ^ suc k ≤ 2 ^ 16
    → ((dst * 2 ^ c + s + 1) * (2 ^ c) ^ k ≤ 2 ^ 16) × (dst * 2 ^ c + s < 2 ^ 16)
room_step c dst s k hs h =
    let b = 2 ^ c in
    let p = b ^ k in
    let pos : 0 < p = power_pos b (pow_pos c) k in
    let next : (dst * b + s + 1) * p ≤ (dst + 1) * b ^ suc k =
      let wide : dst * b + s + 1 ≤ (dst + 1) * b = grind (arith, hs) in
      rw (pow-succ' b k, ← mul_assoc (dst + 1) b p) (mul-le-mul_right p wide) in
    (omega (arith, next, h), omega (arith, next, h, le-mul_of_pos_right (dst * b + s + 1) pos))

-- A symbol is appended in `size + 1` bits.
append_symbol :
    (size dst s : ℕ) (symbols : List ℕ)
    → size ≤ 1
    → append_symbols size dst (s ∷ symbols)
      ≡ append_symbols size (append_nbits_to_uint16 dst (suc size) s) symbols
unfolding append_symbols
append_symbol zero dst s symbols h = refl
append_symbol (suc zero) dst s symbols h = refl
append_symbol (suc (suc size)) dst s symbols h = absurd (omega arith)

pub append_symbols-horner :
    (size : ℕ) (symbols : List ℕ) (dst : ℕ)
    → size ≤ 1
    → All (λ s. s < 2 ^ suc size) symbols
    → (dst + 1) * (2 ^ suc size) ^ length symbols ≤ 2 ^ 16
    → append_symbols size dst symbols ≡ horner (2 ^ suc size) dst symbols
append_symbols-horner size [] dst one w h = unfold append_symbols in refl
append_symbols-horner size (s ∷ symbols) dst one w h =
    let (rest, here) = room_step (suc size) dst s (length symbols) w.0 h in
    let low : dst * 2 ^ suc size < 2 ^ 16 = omega (arith, here) in
    let digit : append_nbits_to_uint16 dst (suc size) s ≡ dst * 2 ^ suc size + s =
      append_nbits_to_uint16_lem dst (suc size) s (omega (arith, one))
      ∙ rw (mod-eq_of_lt low, mod-eq_of_lt w.0) refl in
    append_symbol size dst s symbols one
    ∙ rw digit (append_symbols-horner size symbols (dst * 2 ^ suc size + s) one w.1 rest)

-- The symbols that stand at the end of a byte.
pub symbols_from-horner :
    (w begin hi : ℕ) (symbols : List ℕ)
    → begin + w * length symbols ≡ 8
    → All (λ s. s < 2 ^ w) symbols
    → symbols_from (length symbols) (horner (2 ^ w) hi symbols) begin w ≡ symbols
unfolding symbols_from
symbols_from-horner w begin hi [] h bits = refl
symbols_from-horner w begin hi (s ∷ symbols) h bits =
    let c = 2 ^ w in
    let k = length symbols in
    let b = horner c (hi * c + s) symbols in
    let room : begin + w + w * k ≡ 8 = grind (arith, h) in
    let place : 2 ^ (8 - (begin + w)) ≡ c ^ k =
      ap (λ n. 2 ^ n) (omega (arith, room)) ∙ power_mul 2 w k in
    let digit : get_nbits_from_byte b begin w ≡ s =
      get_nbits_from_byte_lem b begin w (omega (arith, room))
      ∙ rw place (digit_above c hi s symbols bits.0 bits.1) in
    rw (digit, symbols_from-horner w (begin + w) (hi * c + s) symbols room bits.1) refl
