-- ===== src/TransportLayerNack/PacketList.antt =====
-- `PacketList` against a description that reads the bits from the lowest up.
use rtcp.Prelude.{
  ℕ, zero, suc, ◌+◌, ◌-◌, ◌*◌, ◌/◌, ◌%◌, ◌^◌, ◌≤◌, ◌<◌, ◌≡◌, ◌≢◌, ◌∙◌, refl, sym, ap, arith,
  bit_and, List, [], ◌∷◌, ◌++◌, append_assoc, append-nil, ◌==◌, if◌then◌else◌, ne→==_false,
}
use native.Mathlib.Decide.{ℕ_discrete}
use native.Mathlib.Nat.{div-add-mod}
use native.Mathlib.Numerals.{add-one}
use rtcp.Prelude.Bits.{bit_and_bit, pow_pos, pow_two_suc}
use rtcp.Result.{ok}
use rtcp.Bytes.{IsUint16}
use rtcp.TransportLayerNack.{NackPair, lost_loop, packet_list}

-- The packets behind `packet_id + i` that the lowest `k` bits of `c` mark as lost. Sequence numbers
-- wrap at 2 ^ 16.
unfoldable pub marked : ℕ → ℕ → ℕ → ℕ → List ℕ
marked zero packet_id i c = []
marked (suc k) packet_id i c =
    let rest = marked k packet_id (i + 1) (c / 2) in
    if c % 2 == 1 then (packet_id + i + 1) % 2 ^ 16 ∷ rest else rest

marked_none : (k packet_id i : ℕ) → marked k packet_id i 0 ≡ []
unfolding marked
marked_none zero packet_id i = refl
marked_none (suc k) packet_id i = marked_none k packet_id (i + 1)

-- What is known at bit `i` with `fuel` bits to go.
next_bit : (i fuel : ℕ) → 2 ^ i * 2 ^ suc fuel ≡ 2 ^ 16 → 2 ^ (i + 1) * 2 ^ fuel ≡ 2 ^ 16
next_bit i fuel e =
    rw (add-one, pow_two_suc) (omega (arith, e, ap (λ (t : ℕ). 2 ^ i * t) (pow_two_suc fuel)))

low_bit : (i fuel : ℕ) → 2 ^ i * 2 ^ suc fuel ≡ 2 ^ 16 → 1 * 2 ^ i % 2 ^ 16 ≡ 2 ^ i
low_bit i fuel e =
    let q = pow_pos fuel in
    let double = ap (λ (t : ℕ). 2 ^ i * t) (pow_two_suc fuel) in
    let small : 2 ^ i ≤ 2 ^ i * 2 ^ fuel = grind arith in
    let below : 2 ^ i < 2 ^ 16 = omega (arith, e, double, small, pow_pos i) in omega (arith, below)

half_shift : (i c : ℕ) → c * 2 ^ i ≡ c / 2 * 2 ^ (i + 1) + c % 2 * 2 ^ i
half_shift i c =
    rw (add-one, pow_two_suc) (omega (arith, ap (λ (t : ℕ). t * 2 ^ i) (div-add-mod c 2)))

-- One round of the loop, on each of its branches.
round_done :
    (fuel packet_id i b : ℕ) (out : List ℕ) → b ≡ 0 → lost_loop fuel packet_id i b out ≡ ok out
unfolding lost_loop
round_done zero packet_id i b out e = rw e
round_done (suc fuel) packet_id i b out e = rw e

round_passed :
    (fuel packet_id i b bit : ℕ) (out : List ℕ)
    → 1 * 2 ^ i % 2 ^ 16 ≡ bit
    → b ≢ 0
    → bit_and b bit ≡ 0
    → lost_loop (suc fuel) packet_id i b out ≡ lost_loop fuel packet_id (i + 1) b out
unfolding lost_loop
round_passed fuel packet_id i b bit out e ne clear = rw (ne→==_false b 0 ne, e, clear)

round_found :
    (fuel packet_id i b bit : ℕ) (out : List ℕ)
    → 1 * 2 ^ i % 2 ^ 16 ≡ bit
    → b ≢ 0
    → bit_and b bit ≢ 0
    → lost_loop (suc fuel) packet_id i b out
      ≡ lost_loop fuel packet_id
          (i + 1)
          (b - bit_and b bit)
          (out ++ ((packet_id + i + 1) % 2 ^ 16 ∷ []))
unfolding lost_loop
round_found fuel packet_id i b bit out e ne set =
    rw (ne→==_false b 0 ne, e, ne→==_false (bit_and b bit) 0 set)

marked_clear :
    (k packet_id i c : ℕ)
    → c % 2 ≡ 0
    → marked (suc k) packet_id i c ≡ marked k packet_id (i + 1) (c / 2)
unfolding marked
marked_clear k packet_id i c e = rw e

marked_set :
    (k packet_id i c : ℕ)
    → c % 2 ≡ 1
    → marked (suc k) packet_id i c
      ≡ (packet_id + i + 1) % 2 ^ 16 ∷ marked k packet_id (i + 1) (c / 2)
unfolding marked
marked_set k packet_id i c e = rw e

zero_of_shift : (i c : ℕ) → c * 2 ^ i ≡ 0 → c ≡ 0
zero_of_shift i zero e = refl
zero_of_shift i (suc c) e = absurd (omega (arith, e, pow_pos i))

-- Taking the set bit away leaves the higher ones.
minus_bit : (i c : ℕ) → c % 2 ≡ 1 → c * 2 ^ i - bit_and (c * 2 ^ i) (2 ^ i) ≡ c / 2 * 2 ^ (i + 1)
minus_bit i c one = omega (arith, bit_and_bit i c, half_shift i c, ap (λ (t : ℕ). t * 2 ^ i) one)

lost_loop-marked :
    (fuel packet_id i c : ℕ) (out : List ℕ)
    → 2 ^ i * 2 ^ fuel ≡ 2 ^ 16
    → c < 2 ^ fuel
    → lost_loop fuel packet_id i (c * 2 ^ i) out ≡ ok (out ++ marked fuel packet_id i c)
unfolding marked
lost_loop-marked zero packet_id i c out e h =
    let none : c ≡ 0 = omega arith in
    round_done zero packet_id i (c * 2 ^ i) out (rw none (omega arith))
    ∙ ap ok (sym (append-nil out))
lost_loop-marked (suc fuel) packet_id i c out e h = elim (ℕ_discrete c 0) [
  | yes none ↦
      round_done (suc fuel) packet_id i (c * 2 ^ i) out (rw none (omega arith))
      ∙ ap ok (sym (rw (none, marked_none (suc fuel) packet_id i) (append-nil out)))
  | no some ↦
      let bit = low_bit i fuel e in
      let low = bit_and_bit i c in
      let shift = half_shift i c in
      let left : c * 2 ^ i ≢ 0 = λ zero_eq. some (zero_of_shift i c zero_eq) in
      let again = lost_loop-marked fuel packet_id (i + 1) (c / 2) in
      let next = next_bit i fuel e in
      let small : c / 2 < 2 ^ fuel = omega (arith, h, pow_two_suc fuel) in
      elim (ℕ_discrete (c % 2) 0) [
        | yes even ↦
            round_passed fuel packet_id i (c * 2 ^ i) (2 ^ i) out bit left
              (low ∙ rw even (omega arith))
            ∙ ap (λ b. lost_loop fuel packet_id (i + 1) b out) (shift ∙ rw even (omega arith))
            ∙ again out next small
            ∙ ap (λ t. ok (out ++ t)) (sym (marked_clear fuel packet_id i c even))
        | no odd ↦
            let one : c % 2 ≡ 1 = omega (arith, odd) in
            let bit_set : bit_and (c * 2 ^ i) (2 ^ i) ≡ 2 ^ i = low ∙ rw one (omega arith) in
            let item = (packet_id + i + 1) % 2 ^ 16 ∷ [] in
            round_found fuel packet_id i (c * 2 ^ i) (2 ^ i) out bit left
              (λ zero_eq. absurd (omega (arith, zero_eq, bit_set, pow_pos i)))
            ∙ ap (λ b. lost_loop fuel packet_id (i + 1) b (out ++ item)) (minus_bit i c one)
            ∙ again (out ++ item) next small
            ∙ ap ok (append_assoc out item (marked fuel packet_id (i + 1) (c / 2)))
            ∙ ap (λ t. ok (out ++ t)) (sym (marked_set fuel packet_id i c one))
      ]
]

-- A pair lists its own packet first, and then, in ascending order and wrapping at 2 ^ 16, the
-- packets whose bits are set.
pub packet_list-marked :
    (n : NackPair)
    → IsUint16 n.lost_packets
    → packet_list n ≡ ok (n.packet_id ∷ marked 16 n.packet_id 0 n.lost_packets)
unfolding packet_list
packet_list-marked n h =
    let whole : n.lost_packets ≡ n.lost_packets * 2 ^ 0 = omega arith in
    ap (λ b. lost_loop 16 n.packet_id 0 b (n.packet_id ∷ [])) whole
    ∙ lost_loop-marked 16 n.packet_id 0 n.lost_packets (n.packet_id ∷ []) refl h
