-- ===== src/Bytes/Reads.antt =====
-- Which reads succeed, and which panic.
use rtcp.Prelude.{
  ℕ, zero, suc, ◌+◌, ◌*◌, ◌^◌, ◌≤◌, ◌<◌, ◌≡◌, refl, arith, length, length-drop, length-take, take,
  drop, ◌-◌, Bool, true, false, [], ◌∷◌,
}
use rtcp.Result.{Error, Result, ok, panic, fail_if, ◌>>=◌}
use rtcp.Bytes.{Bytes, slice, slice_to, index, uint16, uint32, uint16_at, uint32_at, uint32s_at}
use rtcp.Bytes.Laws.{slice_from-drop, slice_to-take}

-- The computation gives a value.
abbrev pub Gives {ℓ} : {A : Type ℓ} → Result A → Type ℓ
Gives {A} m = (a : A) × (m ≡ ok a)

uint16_long : (raw : Bytes) → 2 ≤ length raw → Gives (uint16 raw)
unfolding uint16
uint16_long (a ∷ b ∷ raw) h = (a * 2 ^ 8 + b, refl)
uint16_long _ h = absurd (omega arith)

uint32_long : (raw : Bytes) → 4 ≤ length raw → Gives (uint32 raw)
unfolding uint32
uint32_long (a ∷ b ∷ c ∷ d ∷ raw) h = (a * 2 ^ 24 + b * 2 ^ 16 + c * 2 ^ 8 + d, refl)
uint32_long _ h = absurd (omega arith)

uint32_short : (raw : Bytes) → length raw < 4 → uint32 raw ≡ panic
unfolding uint32
uint32_short (a ∷ b ∷ c ∷ d ∷ raw) h = absurd (omega arith)
uint32_short _ h = refl

pub uint16_at_ok : (raw : Bytes) (i : ℕ) → i + 2 ≤ length raw → Gives (uint16_at raw i)
unfolding uint16_at
uint16_at_ok raw i h =
    rw (slice_from-drop raw i (omega arith))
      (uint16_long (drop i raw) (omega (arith, length-drop i raw)))

pub uint32_at_ok : (raw : Bytes) (i : ℕ) → i + 4 ≤ length raw → Gives (uint32_at raw i)
unfolding uint32_at
uint32_at_ok raw i h =
    rw (slice_from-drop raw i (omega arith))
      (uint32_long (drop i raw) (omega (arith, length-drop i raw)))

pub uint32_at_panic :
    (raw : Bytes) (i : ℕ) → i ≤ length raw → length raw < i + 4 → uint32_at raw i ≡ panic
unfolding uint32_at
uint32_at_panic raw i lo hi =
    rw (slice_from-drop raw i lo) (uint32_short (drop i raw) (omega (arith, length-drop i raw)))

pub uint32s_at_ok :
    (n : ℕ) (raw : Bytes) (i : ℕ) → i + 4 * n ≤ length raw → Gives (uint32s_at n raw i)
unfolding uint32s_at
uint32s_at_ok zero raw i h = ([], refl)
uint32s_at_ok (suc n) raw i h =
    let (w, e) = uint32_at_ok raw i (omega arith) in
    let (ws, f) = uint32s_at_ok n raw (i + 4) (omega arith) in (w ∷ ws, rw (e, f))

-- `n` bytes.
abbrev pub GivesBytes : ℕ → Result Bytes → Type 0
GivesBytes n m = (b : Bytes) × (m ≡ ok b) × (length b ≡ n)

pub slice_ok : (raw : Bytes) (i j : ℕ) → i ≤ j → j ≤ length raw → GivesBytes (j - i) (slice raw i j)
unfolding slice
slice_ok raw i j order fits =
    let rest : length (drop i raw) ≡ length raw - i = length-drop i raw in
    let wide : j - i ≤ length (drop i raw) = omega (arith, rest, fits) in
    (
      take (j - i) (drop i raw),
      rw (slice_from-drop raw i (omega (arith, order, fits)))
          (slice_to-take (drop i raw) (j - i) wide),
      omega (arith, length-take (j - i) (drop i raw), wide),
    )

slice_to_panic : (b : Bytes) (n : ℕ) → length b < n → slice_to b n ≡ panic
unfolding slice_to
slice_to_panic b zero h = absurd (omega arith)
slice_to_panic [] (suc n) h = refl
slice_to_panic (x ∷ b) (suc n) h = rw (slice_to_panic b n (omega arith)) refl

pub slice_panic : (raw : Bytes) (i j : ℕ) → i ≤ length raw → length raw < j → slice raw i j ≡ panic
unfolding slice
slice_panic raw i j start end =
    rw (slice_from-drop raw i start)
      (slice_to_panic (drop i raw) (j - i) (omega (arith, length-drop i raw, start, end)))

pub index_ok : (raw : Bytes) (i : ℕ) → i < length raw → Gives (index raw i)
unfolding index
index_ok [] i h = absurd (omega arith)
index_ok (x ∷ raw) zero h = (x, refl)
index_ok (x ∷ raw) (suc i) h = index_ok raw i (omega arith)

-- What comes behind a computation that gives a value.
pub panic_behind :
    {A B : Type 0} {m : Result A} {f : A → Result B}
    → Gives m
    → ((a : A) → m ≡ ok a → f a ≡ panic)
    → (m >>= f) ≡ panic
panic_behind (a, e) k = rw e (k a e)

-- An error that does not arise.
pub no_fail : (b : Bool) (e : Error) → b ≡ false → Gives (fail_if b e)
no_fail true e h = absurd (ground arith)
no_fail false e h = (_, refl)
