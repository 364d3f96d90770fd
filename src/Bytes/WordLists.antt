-- ===== src/Bytes/WordLists.antt =====
-- Lists of 32-bit words written to and read from a slice.
use rtcp.Prelude.{
  ℕ, ◌+◌, ◌*◌, ◌≡◌, refl, ap, ◌∙◌, arith, length, All, List, [], ◌∷◌, ◌++◌, append_assoc,
  length-append,
}
use rtcp.Result.{ok}
use rtcp.Bytes.{Bytes, IsUint32, uint32_at, be32, put_uint32s, uint32s_at}
use rtcp.Bytes.Laws.{slice_from-append, uint32-be32, put-append, length-be32}

-- The bytes of the words, one behind the other.
abbrev pub words : List ℕ → Bytes
words [] = []
words (w ∷ ws) = be32 w ++ words ws

pub length-words : (ws : List ℕ) → length (words ws) ≡ 4 * length ws
length-words [] = omega arith
length-words (w ∷ ws) = length-be32 w (words ws) ∙ omega (arith, length-words ws)

pub uint32_at-append :
    (front : Bytes) (i v : ℕ) (back : Bytes)
    → i ≡ length front
    → IsUint32 v
    → uint32_at (front ++ (be32 v ++ back)) i ≡ ok v
unfolding uint32_at
uint32_at-append front i v back e h =
    rw (e, slice_from-append front (be32 v ++ back)) (uint32-be32 v back h)

length-be32_only : (v : ℕ) → length (be32 v) ≡ 4
unfolding be32
length-be32_only v = refl

next_offset : (front : Bytes) (w : ℕ) → length front + 4 ≡ length (front ++ be32 w)
next_offset front w = omega (arith, length-append front (be32 w), length-be32_only w)

regroup : (a b c d : Bytes) → (a ++ b) ++ (c ++ d) ≡ a ++ ((b ++ c) ++ d)
regroup a b c d = simp append_assoc

pub put_uint32s-append :
    (front : Bytes) (i : ℕ) (ws : List ℕ) (old back : Bytes)
    → i ≡ length front
    → length old ≡ 4 * length ws
    → put_uint32s (front ++ (old ++ back)) i ws ≡ ok (front ++ (words ws ++ back))
unfolding put_uint32s
put_uint32s-append front i [] [] back e h = refl
put_uint32s-append front i [] (a ∷ old) back e h = absurd (omega arith)
put_uint32s-append front i (w ∷ ws) (a ∷ b ∷ c ∷ d ∷ old) back e h =
    rw (e, put-append front (be32 w) (a ∷ b ∷ c ∷ d ∷ []) (old ++ back) (length-be32_only w))
      (rw (← append_assoc front (be32 w) (old ++ back)) (
        put_uint32s-append (front ++ be32 w) (length front + 4) ws old back (next_offset front w)
          (omega arith)
        ∙ ap ok (regroup front (be32 w) (words ws) back)))
put_uint32s-append front i (w ∷ ws) _ back e h = absurd (omega arith)

pub uint32s_at-append :
    (front : Bytes) (i : ℕ) (ws : List ℕ) (back : Bytes)
    → i ≡ length front
    → All IsUint32 ws
    → uint32s_at (length ws) (front ++ (words ws ++ back)) i ≡ ok ws
unfolding uint32s_at
uint32s_at-append front i [] back e h = refl
uint32s_at-append front i (w ∷ ws) back e (hw, hs) =
    let rest =
      uint32s_at-append (front ++ be32 w) (i + 4) ws back (ap (λ k. k + 4) e ∙ next_offset front w)
        hs in
    let first = uint32_at-append front i w (words ws ++ back) e hw in
    rw (append_assoc (be32 w) (words ws) back, first)
      (rw (← append_assoc front (be32 w) (words ws ++ back)) (rw rest))
