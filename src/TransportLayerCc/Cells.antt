-- ===== src/TransportLayerCc/Cells.antt =====
-- The deltas of a feedback packet, read one by one into the cells that were announced.
use rtcp.Prelude.{
  ℕ, ◌+◌, ◌*◌, ◌^◌, ◌≤◌, ◌<◌, ◌≡◌, ◌∙◌, refl, sym, ap, arith, length, length-append, replicate,
  append_assoc, All, List, [], ◌∷◌, ◌++◌, inl, inr, true, false, leb, ◌==◌,
}
use rtcp.Result.{ok}
use rtcp.Bytes.{Bytes, to_uint16}
use rtcp.TransportLayerCc.Delta
use rtcp.TransportLayerCc.Delta.{RecvDelta}
use rtcp.TransportLayerCc.Packet.{deref, store}
use rtcp.TransportLayerCc.Read.{upto, read_cell, read_delta, read_deltas, deref_all}
use rtcp.TransportLayerCc.Wire.{IsDeltaType, DeltaCoded, bytes_of, encode_deltas, window_at}
use rtcp.TransportLayerCc.Arrivals.{new_delta}

deref-append :
    (before : List RecvDelta) (d : RecvDelta) (after : List RecvDelta)
    → deref (before ++ (d ∷ after)) (length before) ≡ ok d
unfolding deref
deref-append [] d after = refl
deref-append (c ∷ before) d after = deref-append before d after

store-append :
    (before : List RecvDelta) (c : RecvDelta) (after : List RecvDelta) (d : RecvDelta)
    → store (before ++ (c ∷ after)) (length before) d ≡ before ++ (d ∷ after)
unfolding store
store-append [] c after d = refl
store-append (x ∷ before) c after d = ap (λ t. x ∷ t) (store-append before c after d)

-- The pointers behind those of `before`.
next_upto :
    (before : List RecvDelta) (d : RecvDelta) (n : ℕ)
    → upto (length before + 1) n ≡ upto (length (before ++ (d ∷ []))) n
next_upto before d n = ap (λ k. upto k n) (sym (length-append before (d ∷ [])))

read_cell-append :
    (type i : ℕ) (front : Bytes) (back : Bytes) (before : List RecvDelta) (c : RecvDelta)
    (after : List RecvDelta) (d : RecvDelta)
    → i ≡ length front
    → i + type < 2 ^ 16
    → DeltaCoded type d
    → read_cell
        (front ++ (bytes_of (Delta.marshal d) ++ back))
        (before ++ (c ∷ after))
        (length before)
        i
        type
      ≡ ok (before ++ (d ∷ after), to_uint16 (i + type))
unfolding read_cell
read_cell-append type i front back before c after d at small k =
    rw
      (
        window_at front (bytes_of (Delta.marshal d)) back i type at (sym k.size) small,
        k.read,
        store-append before c after d,
      )
      refl

read_delta-append :
    (type i : ℕ) (front : Bytes) (back : Bytes) (before : List RecvDelta) (after : List RecvDelta)
    (d : RecvDelta)
    → IsDeltaType type
    → i ≡ length front
    → i + type < 2 ^ 16
    → DeltaCoded type d
    → read_delta
        (front ++ (bytes_of (Delta.marshal d) ++ back))
        (before ++ (new_delta type ∷ after))
        (length before)
        i
      ≡ ok (before ++ (d ∷ after), to_uint16 (i + type))
unfolding read_delta
read_delta-append type i front back before after d (inl one) at small k =
    let cell = read_cell-append type i front back before (new_delta type) after d at small k in
    let memory = front ++ (bytes_of (Delta.marshal d) ++ back) in
    let is : (type == 1) ≡ true = ground (arith, one) in
    rw (deref-append before (new_delta type) after, is)
      (ap (λ n. read_cell memory (before ++ (new_delta type ∷ after)) (length before) i n) (sym one)
        ∙ cell)
read_delta-append type i front back before after d (inr two) at small k =
    let cell = read_cell-append type i front back before (new_delta type) after d at small k in
    let memory = front ++ (bytes_of (Delta.marshal d) ++ back) in
    let is_not : (type == 1) ≡ false = ground (arith, two) in
    let is : (type == 2) ≡ true = ground (arith, two) in
    rw (deref-append before (new_delta type) after, is_not, is)
      (ap (λ n. read_cell memory (before ++ (new_delta type ∷ after)) (length before) i n) (sym two)
        ∙ cell)

pub read_deltas-append :
    (type total i : ℕ) (front : Bytes) (deltas : List RecvDelta) (back : Bytes)
    (before : List RecvDelta)
    → IsDeltaType type
    → i ≡ length front
    → i + type * length deltas ≤ total
    → total < 65533
    → All (DeltaCoded type) deltas
    → read_deltas
        (upto (length before) (length deltas))
        (front ++ (encode_deltas deltas ++ back))
        total
        i
        (before ++ replicate (length deltas) (new_delta type))
      ≡ ok (before ++ deltas)
unfolding read_deltas upto
read_deltas-append type total i front [] back before t at room small k = refl
read_deltas-append type total i front (d ∷ deltas) back before t at room small k =
    let b = bytes_of (Delta.marshal d) in
    let n = length deltas in
    let after = replicate n (new_delta type) in
    let fits : i + type + type * n ≤ total = grind (arith, room) in
    let width : (1 ≤ type) × (type ≤ 2) = (omega (arith, t), omega (arith, t)) in
    let here : leb total i ≡ false = ground (arith, fits, width) in
    let next : to_uint16 (i + type) ≡ length (front ++ b) =
      omega (arith, at, fits, small, k.0.size, length-append front b) in
    rw
      (
        here,
        append_assoc b (encode_deltas deltas) back,
        read_delta-append type i front (encode_deltas deltas ++ back) before after d t at
            (omega (arith, fits, small)) k.0,
        next_upto before d n,
        ← append_assoc before (d ∷ []) after,
        ← append_assoc front b (encode_deltas deltas ++ back),
        read_deltas-append type total (to_uint16 (i + type)) (front ++ b) deltas back
            (before ++ (d ∷ [])) t next (omega (arith, fits, small)) small k.1,
        append_assoc before (d ∷ []) deltas,
      )
      refl

pub deref_all-upto :
    (before deltas : List RecvDelta)
    → deref_all (before ++ deltas) (upto (length before) (length deltas)) ≡ ok deltas
unfolding deref_all upto
deref_all-upto before [] = refl
deref_all-upto before (d ∷ deltas) =
    let n = length deltas in
    let shift : deref_all (before ++ (d ∷ deltas)) (upto (length before + 1) n) ≡ ok deltas =
      ap (λ c. deref_all c (upto (length before + 1) n)) (sym (append_assoc before (d ∷ []) deltas))
      ∙ ap (λ k. deref_all ((before ++ (d ∷ [])) ++ deltas) k) (next_upto before d n)
      ∙ deref_all-upto (before ++ (d ∷ [])) deltas in
    rw (deref-append before d deltas, shift) refl
