-- ===== src/Bytes/Written.antt =====
-- Writes within a slice keep its length, and a copy behind its end panics.
use rtcp.Prelude.{ℕ, zero, suc, ◌+◌, ◌*◌, ◌≤◌, ◌<◌, ◌≡◌, ◌∙◌, refl, arith, length, List, [], ◌∷◌}
use rtcp.Result.{Error, panic}
use rtcp.Outcome.Answers.{Answers, Answers-ok, Answers-bind, Answers-weaken}
use rtcp.Bytes.{Bytes, overwrite, put, copy, copy_at, put_uint32s, be32}

-- A slice of `n` bytes.
abbrev pub OfLength : ℕ → Bytes → Type 0
OfLength n b = length b ≡ n

pub length-copy : (b src : Bytes) → length (copy b src) ≡ length b
unfolding copy
length-copy b [] = refl
length-copy [] (s ∷ src) = refl
length-copy (x ∷ b) (s ∷ src) = omega (arith, length-copy b src)

module _ {E : Error → Type 0} where
  overwrite-Answers :
      (b new : Bytes) → length new ≤ length b → Answers E (OfLength (length b)) (overwrite b new)
  unfolding overwrite
  overwrite-Answers b [] h = Answers-ok _ b refl
  overwrite-Answers [] (d ∷ new) h = absurd (omega (arith, h))
  overwrite-Answers (x ∷ b) (d ∷ new) h =
      Answers-bind (overwrite-Answers b new (omega (arith, h)))
        λ rest size. Answers-ok (OfLength (suc (length b))) (d ∷ rest) (omega (arith, size))

  pub put-Answers :
      (b : Bytes) (i : ℕ) (new : Bytes)
      → i + length new ≤ length b
      → Answers E (OfLength (length b)) (put b i new)
  unfolding put
  put-Answers b zero new h = overwrite-Answers b new (omega (arith, h))
  put-Answers [] (suc i) new h = absurd (omega (arith, h))
  put-Answers (x ∷ b) (suc i) new h =
      Answers-bind (put-Answers b i new (omega (arith, h)))
        λ rest size. Answers-ok (OfLength (suc (length b))) (x ∷ rest) (omega (arith, size))

  pub copy_at-Answers :
      (b : Bytes) (i : ℕ) (src : Bytes)
      → i ≤ length b
      → Answers E (OfLength (length b)) (copy_at b i src)
  unfolding copy_at
  copy_at-Answers b zero src h = Answers-ok _ (copy b src) (length-copy b src)
  copy_at-Answers [] (suc i) src h = absurd (omega (arith, h))
  copy_at-Answers (x ∷ b) (suc i) src h =
      Answers-bind (copy_at-Answers b i src (omega (arith, h)))
        λ rest size. Answers-ok (OfLength (suc (length b))) (x ∷ rest) (omega (arith, size))

  pub put_uint32s-Answers :
      (b : Bytes) (i : ℕ) (ws : List ℕ)
      → i + 4 * length ws ≤ length b
      → Answers E (OfLength (length b)) (put_uint32s b i ws)
  unfolding put_uint32s be32
  put_uint32s-Answers b i [] h = Answers-ok _ b refl
  put_uint32s-Answers b i (w ∷ ws) h =
      Answers-bind (put-Answers b i (be32 w) (omega (arith, h))) λ b' size.
        Answers-weaken (OfLength (length b)) (λ _ t. t ∙ size) (λ _ e. e)
          (put_uint32s-Answers b' (i + 4) ws (omega (arith, size, h)))

-- Behind the end there is nothing to copy to.
pub copy_at_panic : (b : Bytes) (i : ℕ) (src : Bytes) → length b < i → copy_at b i src ≡ panic
unfolding copy_at
copy_at_panic b zero src h = absurd (omega arith)
copy_at_panic [] (suc i) src h = refl
copy_at_panic (x ∷ b) (suc i) src h = rw (copy_at_panic b i src (omega arith)) refl
