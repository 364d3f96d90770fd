-- ===== src/TransportLayerCc/Pointers.antt =====
-- `t.RecvDeltas` as positions of memory cells.
use rtcp.Prelude.{
  ◌≡◌, ◌^◌, ◌*◌, Bool-cases, inl, inr, ℕ, zero, suc, ◌≤◌, ◌<◌, ◌≡◌, refl, arith, Bool, true, false,
  ◌==◌, if◌then◌else◌, length, length-append, replicate, All, All-append, List, [], ◌∷◌, ◌++◌,
}
use mathlib.Core.Path.{subst}
use rtcp.Outcome.{Ends, Ends-ok, Ends-bind}
use rtcp.TransportLayerCc.Chunk.{type_packet_received_small_delta}
use rtcp.TransportLayerCc.Delta.{RecvDelta, pos}
use rtcp.TransportLayerCc.Packet.{
  Deltas, deref, store, append_new, append_run, append_one_bit, append_two_bit, has_delta,
}
use rtcp.TransportLayerCc.Read.{deref_all}

-- The positions are below `n`.
abbrev pub Below : ℕ → List ℕ → Type 0
Below n pointers = All (λ p. p < n) pointers

-- What a reader leaves in a cell: a small delta of a byte of steps, or a large one of two bytes, of
-- 250 microseconds each.
pub data DeltaRead : RecvDelta → Type 0 where
  small_read : (n : ℕ) → n < 2 ^ 8 → DeltaRead (record { type = 1; delta = pos (250 * n) })
  large_read : (n : ℕ) → n < 2 ^ 16 → DeltaRead (record { type = 2; delta = pos (250 * n) })

pub record InRange (ds : Deltas) : Type 0 where
  pub targets : Below (length ds.cells) ds.pointers
  pub cells_read : All DeltaRead ds.cells

-- A new delta is zero.
new-DeltaRead : (s : ℕ) → has_delta s ≡ true → DeltaRead (record { type = s; delta = pos 0 })
new-DeltaRead s e =
    let zero_small = small_read 0 (omega arith) in
    let zero_large = large_read 0 (omega arith) in
    elim (Bool-cases (s == 1)) [
      | inl one ↦
          let same : 1 ≡ s = ground (arith, one) in
          subst (λ t. DeltaRead (record { type = t; delta = pos 0 })) same zero_small
      | inr other ↦
          let same : 2 ≡ s = ground (arith, other, e) in
          subst (λ t. DeltaRead (record { type = t; delta = pos 0 })) same zero_large
    ]

Below-weaken : (m n : ℕ) (pointers : List ℕ) → m ≤ n → Below m pointers → Below n pointers
Below-weaken m n [] h b = tt
Below-weaken m n (p ∷ pointers) h b = (omega (arith, b.0), Below-weaken m n pointers h b.1)

replicate-Below : (k p n : ℕ) → p < n → Below n (replicate k p)
replicate-Below zero p n h = tt
replicate-Below (suc k) p n h = (h, replicate-Below k p n h)

pub append_new-InRange :
    (ds : Deltas) (type n : ℕ) → has_delta type ≡ true → InRange ds → InRange (append_new ds type n)
unfolding append_new
append_new-InRange ds type n is r =
    let new : RecvDelta = record { type = type; delta = pos 0 } in
    let size = length-append ds.cells (new ∷ []) in
    let m = length (ds.cells ++ (new ∷ [])) in
    record {
      targets =
          All-append (λ p. p < m) ds.pointers (replicate n (length ds.cells))
            (Below-weaken (length ds.cells) m ds.pointers (omega (arith, size)) r.targets)
            (replicate-Below n (length ds.cells) m (omega (arith, size)));
      cells_read =
          All-append DeltaRead ds.cells (new ∷ []) r.cells_read (new-DeltaRead type is, tt);
    }

-- The pointer is appended where `b` says so.
append_if-InRange :
    (b : Bool) (ds : Deltas) (type n : ℕ)
    → (b ≡ true → has_delta type ≡ true)
    → InRange ds
    → InRange (if b then append_new ds type n else ds)
append_if-InRange true ds type n is r = append_new-InRange ds type n (is refl) r
append_if-InRange false ds type n is r = r

pub append_run-InRange : (ds : Deltas) (s n : ℕ) → InRange ds → InRange (append_run ds s n)
unfolding append_run
append_run-InRange ds s n r = append_if-InRange (has_delta s) ds s n (λ is. is) r

pub append_one_bit-InRange :
    (symbols : List ℕ) (ds : Deltas) → InRange ds → InRange (append_one_bit ds symbols)
unfolding append_one_bit
append_one_bit-InRange [] ds r = r
append_one_bit-InRange (s ∷ symbols) ds r =
    append_one_bit-InRange symbols _
      (append_if-InRange (s == type_packet_received_small_delta) ds 1 1 (λ _. refl) r)

pub append_two_bit-InRange :
    (symbols : List ℕ) (ds : Deltas) → InRange ds → InRange (append_two_bit ds symbols)
unfolding append_two_bit
append_two_bit-InRange [] ds r = r
append_two_bit-InRange (s ∷ symbols) ds r =
    append_two_bit-InRange symbols _ (append_if-InRange (has_delta s) ds s 1 (λ is. is) r)

-- What is in range is there.
pub deref-Ends :
    {panics : Type 0} (cells : List RecvDelta) (p : ℕ)
    → p < length cells
    → All DeltaRead cells
    → Ends panics DeltaRead (deref cells p)
unfolding deref
deref-Ends [] p h r = absurd (omega arith)
deref-Ends (c ∷ cells) zero h r = Ends-ok DeltaRead c r.0
deref-Ends (c ∷ cells) (suc p) h r = deref-Ends cells p (omega arith) r.1

pub deref_all-Ends :
    {panics : Type 0} (cells : List RecvDelta) (pointers : List ℕ)
    → Below (length cells) pointers
    → All DeltaRead cells
    → Ends panics (All DeltaRead) (deref_all cells pointers)
unfolding deref_all
deref_all-Ends cells [] b r = Ends-ok (All DeltaRead) [] tt
deref_all-Ends cells (p ∷ pointers) b r = Ends-bind (deref-Ends cells p b.0 r) λ d t.
    Ends-bind (deref_all-Ends cells pointers b.1 r)
      λ rest ts. Ends-ok (All DeltaRead) (d ∷ rest) (t, ts)

-- A store keeps the number of cells, and what holds of them and of the new value.
pub length-store :
    (cells : List RecvDelta) (p : ℕ) (d : RecvDelta) → length (store cells p d) ≡ length cells
unfolding store
length-store [] p d = refl
length-store (c ∷ cells) zero d = refl
length-store (c ∷ cells) (suc p) d = omega (arith, length-store cells p d)

pub store-DeltaRead :
    (cells : List RecvDelta) (p : ℕ) (d : RecvDelta)
    → All DeltaRead cells
    → DeltaRead d
    → All DeltaRead (store cells p d)
unfolding store
store-DeltaRead [] p d r t = tt
store-DeltaRead (c ∷ cells) zero d r t = (t, r.1)
store-DeltaRead (c ∷ cells) (suc p) d r t = (r.0, store-DeltaRead cells p d r.1 t)
