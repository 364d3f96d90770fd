-- ===== src/Bytes/Laws.antt =====
-- Laws of the slice operations: what is read back where it was written, and where all is in range.
use rtcp.Prelude.{
  append-nil, append_assoc, length-append, sym, ◌∙◌, ℕ, zero, suc, ◌+◌, ◌-◌, ◌*◌, ◌/◌, ◌%◌, ◌^◌,
  ◌≤◌, ◌≡◌, refl, ap, arith, [], ◌∷◌, ◌++◌, length, take, drop, replicate-add, length-replicate,
}
use rtcp.Result.{ok}
use rtcp.Bytes.{
  Bytes, make, IsUint16, IsUint32, IsUint64, slice_from, slice_to, slice, index, overwrite, put,
  copy, copy_at, uint16, uint32, uint64, be16, be32, be64,
}

-- The values that the bytes of `be16`, `be32` and `be64` stand for.
pub be16_value : (v : ℕ) → IsUint16 v → v / 2 ^ 8 % 256 * 2 ^ 8 + v % 256 ≡ v
be16_value v h = omega arith

pub be32_value :
    (v : ℕ)
    → IsUint32 v
    → v / 2 ^ 24 % 256 * 2 ^ 24 + v / 2 ^ 16 % 256 * 2 ^ 16 + v / 2 ^ 8 % 256 * 2 ^ 8 + v % 256 ≡ v
be32_value v h = omega arith

pub uint16-be16 : (v : ℕ) (rest : Bytes) → IsUint16 v → uint16 (be16 v ++ rest) ≡ ok v
unfolding uint16 be16
uint16-be16 v rest h = ap ok (be16_value v h)

pub uint32-be32 : (v : ℕ) (rest : Bytes) → IsUint32 v → uint32 (be32 v ++ rest) ≡ ok v
unfolding uint32 be32
uint32-be32 v rest h = ap ok (be32_value v h)

pub uint64-be64 : (v : ℕ) (rest : Bytes) → IsUint64 v → uint64 (be64 v ++ rest) ≡ ok v
unfolding uint64 be64
uint64-be64 v rest h = ap ok (omega arith)

pub slice_from-append : (front back : Bytes) → slice_from (front ++ back) (length front) ≡ ok back
unfolding slice_from
slice_from-append [] back = refl
slice_from-append (x ∷ front) back = slice_from-append front back

pub index-append :
    (front : Bytes) (x : ℕ) (back : Bytes) → index (front ++ (x ∷ back)) (length front) ≡ ok x
unfolding index
index-append [] x back = refl
index-append (y ∷ front) x back = index-append front x back

pub slice_to-append : (front back : Bytes) → slice_to (front ++ back) (length front) ≡ ok front
unfolding slice_to
slice_to-append [] back = refl
slice_to-append (x ∷ front) back = rw (slice_to-append front back)

pub slice_from-drop : (b : Bytes) (i : ℕ) → i ≤ length b → slice_from b i ≡ ok (drop i b)
unfolding slice_from
slice_from-drop b zero h = refl
slice_from-drop [] (suc i) h = absurd (omega arith)
slice_from-drop (x ∷ b) (suc i) h = slice_from-drop b i (omega arith)

pub slice_to-take : (b : Bytes) (i : ℕ) → i ≤ length b → slice_to b i ≡ ok (take i b)
unfolding slice_to
slice_to-take b zero h = refl
slice_to-take [] (suc i) h = absurd (omega arith)
slice_to-take (x ∷ b) (suc i) h = rw (slice_to-take b i (omega arith))

-- A write over as many bytes replaces them.
pub overwrite-append :
    (new old back : Bytes)
    → length new ≡ length old
    → overwrite (old ++ back) new ≡ ok (new ++ back)
unfolding overwrite
overwrite-append [] [] back h = refl
overwrite-append [] (x ∷ old) back h = absurd (omega arith)
overwrite-append (n ∷ new) [] back h = absurd (omega arith)
overwrite-append (n ∷ new) (x ∷ old) back h = rw (overwrite-append new old back (omega arith))

pub put-append :
    (front new old back : Bytes)
    → length new ≡ length old
    → put (front ++ (old ++ back)) (length front) new ≡ ok (front ++ (new ++ back))
unfolding put
put-append [] new old back h = overwrite-append new old back h
put-append (x ∷ front) new old back h = rw (put-append front new old back h)

pub copy-append :
    (new old back : Bytes) → length new ≡ length old → copy (old ++ back) new ≡ new ++ back
unfolding copy
copy-append [] [] back h = refl
copy-append [] (x ∷ old) back h = absurd (omega arith)
copy-append (n ∷ new) [] back h = absurd (omega arith)
copy-append (n ∷ new) (x ∷ old) back h = ap (◌∷◌ n) (copy-append new old back (omega arith))

pub copy_at-append :
    (front new old back : Bytes)
    → length new ≡ length old
    → copy_at (front ++ (old ++ back)) (length front) new ≡ ok (front ++ (new ++ back))
unfolding copy_at
copy_at-append [] new old back h = ap ok (copy-append new old back h)
copy_at-append (x ∷ front) new old back h = rw (copy_at-append front new old back h)

pub length-be32 : (v : ℕ) (rest : Bytes) → length (be32 v ++ rest) ≡ 4 + length rest
unfolding be32
length-be32 v rest = omega arith

pub length-be16 : (v : ℕ) (rest : Bytes) → length (be16 v ++ rest) ≡ 2 + length rest
unfolding be16
length-be16 v rest = omega arith

-- The same with the offset and its equation apart.
pub put_at :
    (front : Bytes) (i : ℕ) (new old back : Bytes)
    → i ≡ length front
    → length new ≡ length old
    → put (front ++ (old ++ back)) i new ≡ ok (front ++ (new ++ back))
put_at front i new old back e h = rw e (put-append front new old back h)

pub copy_at_offset :
    (front : Bytes) (i : ℕ) (new old back : Bytes)
    → i ≡ length front
    → length new ≡ length old
    → copy_at (front ++ (old ++ back)) i new ≡ ok (front ++ (new ++ back))
copy_at_offset front i new old back e h = rw e (copy_at-append front new old back h)

pub make-add : (m n : ℕ) → make (m + n) ≡ make m ++ make n
make-add m n = replicate-add m n 0

pub index_at :
    (front : Bytes) (i x : ℕ) (back : Bytes)
    → i ≡ length front
    → index (front ++ (x ∷ back)) i ≡ ok x
index_at front i x back e = rw e (index-append front x back)

pub slice_at :
    (front middle back : Bytes) (lo hi : ℕ)
    → lo ≡ length front
    → hi ≡ lo + length middle
    → slice (front ++ (middle ++ back)) lo hi ≡ ok middle
unfolding slice
slice_at front middle back lo hi e f =
    let width : hi - lo ≡ length middle = omega arith in
    rw (width, e, slice_from-append front (middle ++ back)) (slice_to-append middle back)

pub length-make : (n : ℕ) → length (make n) ≡ n
length-make n = length-replicate n 0

-- A copy over the zeros at the end.
pub copy_at_end :
    (front middle src : Bytes) (i : ℕ)
    → i ≡ length front + length middle
    → copy_at (front ++ (middle ++ make (length src))) i src ≡ ok (front ++ (middle ++ src))
copy_at_end front middle src i e =
    let zeros = make (length src) in
    let behind : i ≡ length (front ++ middle) = e ∙ sym (length-append front middle) in
    let placed =
      copy_at_offset (front ++ middle) i src zeros [] behind (sym (length-make (length src))) in
    rw
      (
        append-nil zeros,
        append-nil src,
        append_assoc front middle zeros,
        append_assoc front middle src,
      )
      at placed
