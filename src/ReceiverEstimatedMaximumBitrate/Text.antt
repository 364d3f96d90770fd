-- ===== src/ReceiverEstimatedMaximumBitrate/Text.antt =====
-- `ReceiverEstimatedMaximumBitrate.String`. The float64 arithmetic and fmt.Sprintf are parameters.
use rtcp.Prelude.{
  ℕ, zero, suc, ◌+◌, ◌*◌, ◌^◌, ◌≤◌, ◌<◌, ◌≡◌, refl, arith, Bool, Bool-cases, inl, inr, false,
  if◌then◌else◌, length, List, [], ◌∷◌,
}
use mathlib.Core.Path.{subst}
use native.Mathlib.Nat.{pow-suc}
use rtcp.Result.{Result, ok, panic, ◌>>=◌}
use rtcp.Bytes.{Bytes, IsUint64}
use rtcp.Header.Names.{codes}
use rtcp.ReceiverEstimatedMaximumBitrate.{ReceiverEstimatedMaximumBitrate}

-- What the code does with a float64.
pub record Float64 : Type 1 where
  pub F : Type 0
  -- `float64(n)`
  pub from_uint64 : ℕ → F
  -- `x >= 1000.0`
  pub at_least_1000 : F → Bool
  -- `x / 1000.0`
  pub div_1000 : F → F

-- `bitUnits`
abbrev pub bit_units : List Bytes
bit_units =
    codes "b" ∷ codes "Kb" ∷ codes "Mb" ∷ codes "Gb" ∷ codes "Tb" ∷ codes "Pb" ∷ codes "Eb" ∷ []

-- `bitUnits[i]`
unfoldable pub unit_at : List Bytes → ℕ → Result Bytes
unit_at [] i = panic
unit_at (u ∷ units) zero = ok u
unit_at (u ∷ units) (suc i) = unit_at units i

-- The loop, with `n` rounds left before `powers` is the number of units.
unfoldable pub scale : (f : Float64) → ℕ → f.F → ℕ → f.F × ℕ
scale f zero bitrate powers = (bitrate, powers)
scale f (suc n) bitrate powers =
    let rest = scale f n (f.div_1000 bitrate) (powers + 1) in
    if f.at_least_1000 bitrate then rest else (bitrate, powers)

-- `(p *ReceiverEstimatedMaximumBitrate) String`, for `fmt.Sprintf` of the format there.
unfoldable pub string :
    (f : Float64) → (ℕ → f.F → Bytes → Bytes) → ReceiverEstimatedMaximumBitrate → Result Bytes
unfolding scale unit_at
string f sprintf p = do
  let scaled = scale f (length bit_units) (f.from_uint64 p.bitrate) 0
  unit ← unit_at bit_units scaled.1
  ok (sprintf p.sender_ssrc scaled.0 unit)

-- The numbers that a float64 holds exactly: 53 bits, and zeros behind them.
pub record IsExact (m : ℕ) : Type 0 where
  pub digits : ℕ
  pub zeros : ℕ
  pub few : digits < 2 ^ 53
  pub value : digits * 2 ^ zeros ≡ m

-- Rounding is monotone, so that a bound which a float64 holds exactly stays a bound.
pub record Float64Laws (f : Float64) : Type 1 where
  pub AtMost : f.F → ℕ → Type 0
  pub from_uint64_bound : (n m : ℕ) → n ≤ m → IsExact m → AtMost (f.from_uint64 n) m
  pub div_1000_bound : (x : f.F) (m : ℕ) → AtMost x (1000 * m) → IsExact m → AtMost (f.div_1000 x) m
  pub below_1000 : (x : f.F) (m : ℕ) → AtMost x m → m < 1000 → f.at_least_1000 x ≡ false

-- A bound of all uint64 numbers at `k = 6`.
abbrev bound : ℕ → ℕ
bound k = 19 * 1000 ^ k

bound-IsExact : (k : ℕ) → k ≤ 6 → IsExact (bound k)
bound-IsExact zero h = record { digits = 19 * 125 ^ 0; zeros = 0; few = omega arith; value = refl }
bound-IsExact (suc zero) h = record {
  digits = 19 * 125 ^ 1;
  zeros = 3;
  few = omega arith;
  value = refl;
}
bound-IsExact (suc (suc zero)) h = record {
  digits = 19 * 125 ^ 2;
  zeros = 6;
  few = omega arith;
  value = refl;
}
bound-IsExact (suc (suc (suc zero))) h = record {
  digits = 19 * 125 ^ 3;
  zeros = 9;
  few = omega arith;
  value = refl;
}
bound-IsExact (suc (suc (suc (suc zero)))) h = record {
  digits = 19 * 125 ^ 4;
  zeros = 12;
  few = omega arith;
  value = refl;
}
bound-IsExact (suc (suc (suc (suc (suc zero))))) h = record {
  digits = 19 * 125 ^ 5;
  zeros = 15;
  few = omega arith;
  value = refl;
}
bound-IsExact (suc (suc (suc (suc (suc (suc zero)))))) h = record {
  digits = 19 * 125 ^ 6;
  zeros = 18;
  few = omega arith;
  value = refl;
}
bound-IsExact (suc (suc (suc (suc (suc (suc (suc k))))))) h = absurd (omega arith)

unit_in_range : (i : ℕ) → i ≤ 6 → (u : Bytes) × (unit_at bit_units i ≡ ok u)
unfolding unit_at
unit_in_range zero h = (_, refl)
unit_in_range (suc zero) h = (_, refl)
unit_in_range (suc (suc zero)) h = (_, refl)
unit_in_range (suc (suc (suc zero))) h = (_, refl)
unit_in_range (suc (suc (suc (suc zero)))) h = (_, refl)
unit_in_range (suc (suc (suc (suc (suc zero))))) h = (_, refl)
unit_in_range (suc (suc (suc (suc (suc (suc zero)))))) h = (_, refl)
unit_in_range (suc (suc (suc (suc (suc (suc (suc i))))))) h = absurd (omega arith)

module _ (f : Float64) (laws : Float64Laws f) where
  scale_bound :
      (n k : ℕ) (x : f.F) (powers : ℕ)
      → k ≤ 6
      → k ≤ n
      → laws.AtMost x (bound k)
      → (f.at_least_1000 (scale f n x powers).0 ≡ false) × ((scale f n x powers).1 ≤ powers + k)
  unfolding scale
  scale_bound zero zero x powers few room h = (laws.below_1000 x 19 h (omega arith), omega arith)
  scale_bound zero (suc k) x powers few room h = absurd (omega (arith, room))
  scale_bound (suc n) zero x powers few room h =
      rw (laws.below_1000 x 19 h (omega arith)) (laws.below_1000 x 19 h (omega arith), omega arith)
  scale_bound (suc n) (suc k) x powers few room h = elim (Bool-cases (f.at_least_1000 x)) [
    | inr less ↦ rw less (less, omega arith)
    | inl more ↦
        let parts : bound (suc k) ≡ 1000 * bound k = grind (arith, pow-suc 1000 k) in
        let h' = subst (laws.AtMost x) parts h in
        let less = laws.div_1000_bound x (bound k) h' (bound-IsExact k (omega (arith, few))) in
        let (small, near) =
          scale_bound n k (f.div_1000 x) (powers + 1) (omega (arith, few)) (omega (arith, room))
            less in
        rw more (small, omega (arith, near))
  ]

  -- `String` never panics: a bitrate, a uint64, is divided at most six times, as there are units for,
  -- and the number that is printed is below 1000; whatever rounding does to values between the
  -- numbers that a float64 holds exactly.
  pub string_lem :
      (sprintf : ℕ → f.F → Bytes → Bytes) (p : ReceiverEstimatedMaximumBitrate)
      → IsUint64 p.bitrate
      → (x : f.F) × (unit : Bytes) × (f.at_least_1000 x ≡ false)
        × (string f sprintf p ≡ ok (sprintf p.sender_ssrc x unit))
  unfolding string
  string_lem sprintf p h =
      let start =
        laws.from_uint64_bound p.bitrate (bound 6) (omega (arith, h))
          (bound-IsExact 6 (omega arith)) in
      let (small, few) =
        scale_bound 7 6 (f.from_uint64 p.bitrate) 0 (omega arith) (omega arith) start in
      let scaled = scale f 7 (f.from_uint64 p.bitrate) 0 in
      let (unit, found) = unit_in_range scaled.1 few in (scaled.0, unit, small, rw found refl)
