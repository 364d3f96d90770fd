-- ===== src/Bytes.antt =====
-- Go's byte slices and package encoding/binary, as far as the code uses them. A slice is the list
-- of its bytes. What is out of range panics.
pub mod Laws
pub mod Words
pub mod WordLists
pub mod Reads
pub mod Outcome
pub mod Written
use rtcp.Prelude.{ℕ, zero, suc, ◌+◌, ◌-◌, ◌*◌, ◌/◌, ◌%◌, ◌^◌, ◌<◌, List, [], ◌∷◌, replicate}
use rtcp.Result.{Result, ok, panic, ◌>>=◌}

abbrev pub Bytes : Type 0
Bytes = List ℕ

abbrev pub IsByte : ℕ → Type 0
IsByte b = b < 256

abbrev pub IsUint16 : ℕ → Type 0
IsUint16 v = v < 2 ^ 16

abbrev pub IsUint32 : ℕ → Type 0
IsUint32 v = v < 2 ^ 32

abbrev pub IsUint64 : ℕ → Type 0
IsUint64 v = v < 2 ^ 64

-- A conversion to a narrower unsigned type.
abbrev pub to_uint8 : ℕ → ℕ
to_uint8 v = v % 2 ^ 8

abbrev pub to_uint16 : ℕ → ℕ
to_uint16 v = v % 2 ^ 16

-- `make([]byte, n)`
abbrev pub make : ℕ → Bytes
make n = replicate n 0

-- `b[i:]`
unfoldable pub slice_from : Bytes → ℕ → Result Bytes
slice_from b zero = ok b
slice_from [] (suc i) = panic
slice_from (x ∷ b) (suc i) = slice_from b i

-- `b[:n]`, for a slice with no spare capacity
unfoldable pub slice_to : Bytes → ℕ → Result Bytes
slice_to b zero = ok []
slice_to [] (suc n) = panic
slice_to (x ∷ b) (suc n) = do s ← slice_to b n; ok (x ∷ s)

-- `b[lo:hi]`
unfoldable pub slice : Bytes → ℕ → ℕ → Result Bytes
unfolding slice_from slice_to
slice b lo hi = do s ← slice_from b lo; slice_to s (hi - lo)

-- `b[i]`
unfoldable pub index : Bytes → ℕ → Result ℕ
index [] i = panic
index (x ∷ b) zero = ok x
index (x ∷ b) (suc i) = index b i

-- The bytes of `bytes` over the first ones of `b`, which must hold them all.
unfoldable pub overwrite : Bytes → Bytes → Result Bytes
overwrite b [] = ok b
overwrite [] (d ∷ bytes) = panic
overwrite (x ∷ b) (d ∷ bytes) = do rest ← overwrite b bytes; ok (d ∷ rest)

-- `bytes` over the bytes of `b` from `i` on.
unfoldable pub put : Bytes → ℕ → Bytes → Result Bytes
unfolding overwrite
put b zero bytes = overwrite b bytes
put [] (suc i) bytes = panic
put (x ∷ b) (suc i) bytes = do rest ← put b i bytes; ok (x ∷ rest)

-- `b[i] = v`
abbrev pub set : Bytes → ℕ → ℕ → Result Bytes
set b i v = put b i (v ∷ [])

-- `copy(b, src)`: as much as fits.
unfoldable pub copy : Bytes → Bytes → Bytes
copy b [] = b
copy [] (s ∷ src) = []
copy (x ∷ b) (s ∷ src) = s ∷ copy b src

-- `copy(b[i:], src)`
unfoldable pub copy_at : Bytes → ℕ → Bytes → Result Bytes
unfolding copy
copy_at b zero src = ok (copy b src)
copy_at [] (suc i) src = panic
copy_at (x ∷ b) (suc i) src = do rest ← copy_at b i src; ok (x ∷ rest)

-- `binary.BigEndian.Uint16`, `Uint32` and `Uint64`, on a whole slice.
unfoldable pub uint16 : Bytes → Result ℕ
uint16 (a ∷ b ∷ _) = ok (a * 2 ^ 8 + b)
uint16 _ = panic

unfoldable pub uint32 : Bytes → Result ℕ
uint32 (a ∷ b ∷ c ∷ d ∷ _) = ok (a * 2 ^ 24 + b * 2 ^ 16 + c * 2 ^ 8 + d)
uint32 _ = panic

unfoldable pub uint64 : Bytes → Result ℕ
uint64 (a ∷ b ∷ c ∷ d ∷ e ∷ f ∷ g ∷ h ∷ _) =
    ok (
      (a * 2 ^ 24 + b * 2 ^ 16 + c * 2 ^ 8 + d) * 2 ^ 32
      + (e * 2 ^ 24 + f * 2 ^ 16 + g * 2 ^ 8 + h))
uint64 _ = panic

-- `binary.BigEndian.Uint16(b[i:])` and `Uint32(b[i:])`
unfoldable pub uint16_at : Bytes → ℕ → Result ℕ
unfolding slice_from uint16
uint16_at b i = slice_from b i >>= uint16

unfoldable pub uint32_at : Bytes → ℕ → Result ℕ
unfolding slice_from uint32
uint32_at b i = slice_from b i >>= uint32

-- The bytes that `PutUint16`, `PutUint32` and `PutUint64` write.
unfoldable pub be16 : ℕ → Bytes
be16 v = v / 2 ^ 8 % 256 ∷ v % 256 ∷ []

unfoldable pub be32 : ℕ → Bytes
be32 v = v / 2 ^ 24 % 256 ∷ v / 2 ^ 16 % 256 ∷ v / 2 ^ 8 % 256 ∷ v % 256 ∷ []

unfoldable pub be64 : ℕ → Bytes
be64 v =
    v / 2 ^ 56 % 256
    ∷ v / 2 ^ 48 % 256
    ∷ v / 2 ^ 40 % 256
    ∷ v / 2 ^ 32 % 256
    ∷ v / 2 ^ 24 % 256
    ∷ v / 2 ^ 16 % 256
    ∷ v / 2 ^ 8 % 256
    ∷ v % 256
    ∷ []

-- `for _, w := range ws { PutUint32(b[i:], w); i += 4 }`
unfoldable pub put_uint32s : Bytes → ℕ → List ℕ → Result Bytes
put_uint32s b i [] = ok b
put_uint32s b i (w ∷ ws) = do b' ← put b i (be32 w); put_uint32s b' (i + 4) ws

-- The `n` words from `b[i:]` on, each appended in turn.
unfoldable pub uint32s_at : ℕ → Bytes → ℕ → Result (List ℕ)
uint32s_at zero b i = ok []
uint32s_at (suc n) b i = do w ← uint32_at b i; ws ← uint32s_at n b (i + 4); ok (w ∷ ws)

-- The rounds of `for i := lo; i < hi; i += 4`.
abbrev pub rounds : ℕ → ℕ → ℕ
rounds lo hi = (hi - lo + 3) / 4
