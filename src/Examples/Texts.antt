-- ===== src/Examples/Texts.antt =====
-- The texts of types and bitrates at concrete values.
use rtcp.Prelude.{ℕ, ◌/◌, ◌^◌, ◌≤◌, ◌<◌, ◌≡◌, refl, arith, leb, false, [], ◌-◌}
use rtcp.Result.{ok}
use rtcp.Bytes.{Bytes}
use rtcp.Header.Names as HeaderNames
use rtcp.Header.Names.{codes}
use rtcp.ReceiverEstimatedMaximumBitrate.{ReceiverEstimatedMaximumBitrate}
use rtcp.ReceiverEstimatedMaximumBitrate.Text
use rtcp.ReceiverEstimatedMaximumBitrate.Text.{Float64, Float64Laws, bit_units, scale, unit_at}

-- Whole numbers, rounded down.
abbrev whole : Float64
whole = record {
  F = ℕ;
  from_uint64 = λ n. n;
  at_least_1000 = λ x. leb 1000 x;
  div_1000 = λ x. x / 1000;
}

whole_below : (x m : ℕ) → x ≤ m → m < 1000 → leb 1000 x ≡ false
whole_below x m h k = ground arith

whole-Float64Laws : Float64Laws whole
whole-Float64Laws = record {
  AtMost = λ x m. x ≤ m;
  from_uint64_bound = λ n m h _. h;
  div_1000_bound = λ x m h _. omega (arith, h);
  below_1000 = whole_below;
}

-- The unit alone.
abbrev unit_only : ℕ → ℕ → Bytes → Bytes
unit_only ssrc x unit = unit

abbrev greatest : ReceiverEstimatedMaximumBitrate
greatest = record { sender_ssrc = 1; bitrate = 2 ^ 64 - 1; ssrcs = [] }

eighteen_exabits : Text.string whole unit_only greatest ≡ ok (codes "Eb")
unfolding Text.string
eighteen_exabits = refl

string_lem_example :
    (x : ℕ) × (unit : Bytes) × (leb 1000 x ≡ false)
    × (Text.string whole unit_only greatest ≡ ok (unit_only 1 x unit))
string_lem_example = Text.string_lem whole whole-Float64Laws unit_only greatest (omega arith)

names : HeaderNames.string 203 ≡ codes "BYE"
unfolding HeaderNames.string
names = refl
