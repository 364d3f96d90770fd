-- ===== src/Bytes/Outcome.antt =====
-- The reads of bytes.
use rtcp.Prelude.{
  ℕ, zero, suc, ◌+◌, ◌-◌, ◌*◌, ◌≤◌, ◌<◌, ◌≡◌, refl, arith, length, length-drop, length-take, take,
  drop, All, [], ◌∷◌,
}
use rtcp.Result.{panic}
use native.Mathlib.Decide.{dec_le}
use rtcp.Outcome.{Ends, Ends-ok, Ends-bind}
use rtcp.Bytes.{
  Bytes, IsByte, IsUint16, IsUint32, IsUint64, slice_from, slice_to, slice, index, uint16, uint32,
  uint64, uint16_at, uint32_at, uint32s_at,
}
use rtcp.Bytes.Laws.{slice_from-drop, slice_to-take}

-- `n` bytes.
pub record Piece (n : ℕ) (b : Bytes) : Type 0 where
  pub bytes : All IsByte b
  pub size : length b ≡ n

pub drop-bytes : (i : ℕ) (b : Bytes) → All IsByte b → All IsByte (drop i b)
drop-bytes zero b w = w
drop-bytes (suc i) [] w = tt
drop-bytes (suc i) (x ∷ b) w = drop-bytes i b w.1

pub take-bytes : (i : ℕ) (b : Bytes) → All IsByte b → All IsByte (take i b)
take-bytes zero b w = tt
take-bytes (suc i) [] w = tt
take-bytes (suc i) (x ∷ b) w = (w.0, take-bytes i b w.1)

slice_from-panic : (b : Bytes) (i : ℕ) → length b < i → slice_from b i ≡ panic
unfolding slice_from
slice_from-panic b zero h = absurd (omega arith)
slice_from-panic [] (suc i) h = refl
slice_from-panic (x ∷ b) (suc i) h = slice_from-panic b i (omega arith)

slice_to-panic : (b : Bytes) (n : ℕ) → length b < n → slice_to b n ≡ panic
unfolding slice_to
slice_to-panic b zero h = absurd (omega arith)
slice_to-panic [] (suc n) h = refl
slice_to-panic (x ∷ b) (suc n) h = rw (slice_to-panic b n (omega arith)) refl

module _ {panics : Type 0} where
  pub slice_from-Ends :
      (b : Bytes) (i : ℕ)
      → All IsByte b
      → i ≤ length b
      → Ends panics (Piece (length b - i)) (slice_from b i)
  slice_from-Ends b i w h = rw (slice_from-drop b i h) (
      Ends-ok (Piece (length b - i)) (drop i b)
        (record { bytes = drop-bytes i b w; size = length-drop i b }))

  pub slice_to-Ends :
      (b : Bytes) (n : ℕ) → All IsByte b → n ≤ length b → Ends panics (Piece n) (slice_to b n)
  slice_to-Ends b n w h = rw (slice_to-take b n h) (
      Ends-ok (Piece n) (take n b)
        (record { bytes = take-bytes n b w; size = omega (arith, length-take n b, h) }))

  pub slice-Ends :
      (b : Bytes) (lo hi : ℕ)
      → All IsByte b
      → lo ≤ hi
      → hi ≤ length b
      → Ends panics (Piece (hi - lo)) (slice b lo hi)
  unfolding slice
  slice-Ends b lo hi w h k =
      Ends-bind (slice_from-Ends b lo w (omega (arith, h, k)))
        (λ s p. slice_to-Ends s (hi - lo) p.bytes (omega (arith, p.size, k)))

  pub index-Ends :
      (b : Bytes) (i : ℕ) → All IsByte b → i < length b → Ends panics IsByte (index b i)
  unfolding index
  index-Ends [] i w h = absurd (omega arith)
  index-Ends (x ∷ b) zero w h = Ends-ok IsByte x w.0
  index-Ends (x ∷ b) (suc i) w h = index-Ends b i w.1 (omega arith)

  pub uint16-Ends : (b : Bytes) → All IsByte b → 2 ≤ length b → Ends panics IsUint16 (uint16 b)
  unfolding uint16
  uint16-Ends (x ∷ y ∷ b) w h = Ends-ok IsUint16 _ (omega (arith, w.0, w.1.0))
  uint16-Ends _ w h = absurd (omega arith)

  pub uint32-Ends : (b : Bytes) → All IsByte b → 4 ≤ length b → Ends panics IsUint32 (uint32 b)
  unfolding uint32
  uint32-Ends (x ∷ y ∷ z ∷ u ∷ b) (wx, (wy, (wz, (wu, _)))) h = Ends-ok IsUint32 _ (omega arith)
  uint32-Ends _ w h = absurd (omega arith)

  pub uint64-Ends : (b : Bytes) → All IsByte b → 8 ≤ length b → Ends panics IsUint64 (uint64 b)
  unfolding uint64
  uint64-Ends (a ∷ b ∷ c ∷ d ∷ e ∷ f ∷ g ∷ h ∷ r) (wa, (wb, (wc, (wd, (we, (wf, (wg, (wh, _))))))))
        l =
      Ends-ok IsUint64 _ (omega arith)
  uint64-Ends _ w h = absurd (omega arith)

  pub uint16_at-Ends :
      (b : Bytes) (i : ℕ) → All IsByte b → i + 2 ≤ length b → Ends panics IsUint16 (uint16_at b i)
  unfolding uint16_at
  uint16_at-Ends b i w h =
      Ends-bind (slice_from-Ends b i w (omega (arith, h)))
        (λ s p. uint16-Ends s p.bytes (omega (arith, p.size, h)))

  pub uint32_at-Ends :
      (b : Bytes) (i : ℕ) → All IsByte b → i + 4 ≤ length b → Ends panics IsUint32 (uint32_at b i)
  unfolding uint32_at
  uint32_at-Ends b i w h =
      Ends-bind (slice_from-Ends b i w (omega (arith, h)))
        (λ s p. uint32-Ends s p.bytes (omega (arith, p.size, h)))

  pub uint32s_at-Ends :
      (n : ℕ) (b : Bytes) (i : ℕ)
      → All IsByte b
      → i + 4 * n ≤ length b
      → Ends panics (λ ws. All IsUint32 ws × (length ws ≡ n)) (uint32s_at n b i)
  unfolding uint32s_at
  uint32s_at-Ends zero b i w h = Ends-ok _ [] (tt, refl)
  uint32s_at-Ends (suc n) b i w h = Ends-bind (uint32_at-Ends b i w (omega (arith, h))) (λ v hv.
      Ends-bind (uint32s_at-Ends n b (i + 4) w (omega (arith, h)))
        (λ vs hvs. Ends-ok _ (v ∷ vs) ((hv, hvs.0), omega (arith, hvs.1))))

-- The reads where they may be out of range: `panics` has to hold there.
module _ {panics : Type 0} where
  pub slice_from-Ends_or :
      (b : Bytes) (i : ℕ)
      → All IsByte b
      → (length b < i → panics)
      → Ends panics (Piece (length b - i)) (slice_from b i)
  slice_from-Ends_or b i w out = elim (dec_le i (length b)) [
    | yes h ↦ slice_from-Ends b i w h
    | no long ↦
        rw (slice_from-panic b i (omega (arith, long))) (record { at = out (omega (arith, long)) })
  ]

  uint32-Ends_or :
      (b : Bytes) → All IsByte b → (length b < 4 → panics) → Ends panics IsUint32 (uint32 b)
  unfolding uint32
  uint32-Ends_or (x ∷ y ∷ z ∷ u ∷ b) w out = uint32-Ends (x ∷ y ∷ z ∷ u ∷ b) w (omega arith)
  uint32-Ends_or [] w out = record { at = out (omega arith) }
  uint32-Ends_or (x ∷ []) w out = record { at = out (omega arith) }
  uint32-Ends_or (x ∷ y ∷ []) w out = record { at = out (omega arith) }
  uint32-Ends_or (x ∷ y ∷ z ∷ []) w out = record { at = out (omega arith) }

  pub uint32_at-Ends_or :
      (b : Bytes) (i : ℕ)
      → All IsByte b
      → (length b < i + 4 → panics)
      → Ends panics IsUint32 (uint32_at b i)
  unfolding uint32_at
  uint32_at-Ends_or b i w out =
      Ends-bind (slice_from-Ends_or b i w (λ short. out (omega (arith, short))))
        (λ s p. uint32-Ends_or s p.bytes (λ short. out (omega (arith, p.size, short))))

  slice_to-Ends_or :
      (b : Bytes) (n : ℕ)
      → All IsByte b
      → (length b < n → panics)
      → Ends panics (Piece n) (slice_to b n)
  slice_to-Ends_or b n w out = elim (dec_le n (length b)) [
    | yes h ↦ slice_to-Ends b n w h
    | no long ↦
        rw (slice_to-panic b n (omega (arith, long))) (record { at = out (omega (arith, long)) })
  ]

  pub slice-Ends_or :
      (b : Bytes) (lo hi : ℕ)
      → All IsByte b
      → lo ≤ hi
      → (length b < hi → panics)
      → Ends panics (Piece (hi - lo)) (slice b lo hi)
  unfolding slice
  slice-Ends_or b lo hi w h out =
      Ends-bind (slice_from-Ends_or b lo w (λ short. out (omega (arith, short, h)))) (λ s p.
        slice_to-Ends_or s (hi - lo) p.bytes (λ short. out (omega (arith, p.size, short, h))))
