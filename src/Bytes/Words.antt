-- ===== src/Bytes/Words.antt =====
-- Bytes taken apart into 32-bit words.
use rtcp.Prelude.{ℕ, ◌+◌, ◌*◌, ◌^◌, ◌≤◌, ◌≡◌, ap, ◌∙◌, arith, length, All, [], ◌∷◌, ◌++◌}
use rtcp.Bytes.{Bytes, IsByte, IsUint32, be32}

-- The first four bytes of `raw` are those of a word, and `n` bytes at least follow.
pub record Word (n : ℕ) (raw : Bytes) : Type 0 where
  pub value : ℕ
  pub rest : Bytes
  pub bound : IsUint32 value
  pub splits : raw ≡ be32 value ++ rest
  pub rest_bytes : All IsByte rest
  pub room : n ≤ length rest

be32_of_bytes :
    (a b c d : ℕ)
    → IsByte a
    → IsByte b
    → IsByte c
    → IsByte d
    → be32 (a * 2 ^ 24 + b * 2 ^ 16 + c * 2 ^ 8 + d) ≡ a ∷ b ∷ c ∷ d ∷ []
unfolding be32
be32_of_bytes a b c d ha hb hc hd = ground arith

pub first-Word : (n : ℕ) (raw : Bytes) → All IsByte raw → 4 + n ≤ length raw → Word n raw
first-Word n (a ∷ b ∷ c ∷ d ∷ rest) (ha, (hb, (hc, (hd, hr)))) h = record {
  value = a * 2 ^ 24 + b * 2 ^ 16 + c * 2 ^ 8 + d;
  rest = rest;
  bound = omega arith;
  splits = rw (be32_of_bytes a b c d ha hb hc hd);
  rest_bytes = hr;
  room = omega arith;
}
first-Word n _ w h = absurd (omega arith)

-- Words one behind the other.
pub joined :
    {n : ℕ} {raw : Bytes} (w : Word n raw) {tail : Bytes}
    → w.rest ≡ tail
    → raw ≡ be32 w.value ++ tail
joined w e = w.splits ∙ ap (λ t. be32 w.value ++ t) e
