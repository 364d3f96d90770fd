-- ===== src/TransportLayerCc/Arrivals.antt =====
-- Feedback whose deltas are all of one type: the deltas that its chunks announce.
use rtcp.Prelude.{
  ℕ, zero, suc, ◌+◌, ◌^◌, ◌<◌, ◌≡◌, ◌∙◌, refl, sym, ap, arith, length-replicate, replicate,
  replicate-add, All, All-append, List, [], ◌∷◌, ◌++◌, ◌⊎◌, inl, inr, true, false, ◌==◌,
  if◌then◌else◌, Bool-cases,
}
use rtcp.TransportLayerCc.Chunk.{
  PacketStatusChunk, RunLengthChunk, StatusVectorChunk, nil_chunk, run_length_chunk,
  status_vector_chunk,
}
use mathlib.Core.Path.{subst}
use rtcp.TransportLayerCc.RunLength.{FitsRun}
use rtcp.TransportLayerCc.StatusVector.{FitsVector}
use rtcp.TransportLayerCc.Delta.{RecvDelta, pos}
use rtcp.TransportLayerCc.Packet.{
  Deltas, has_delta, append_new, append_run, append_one_bit, append_two_bit,
}
use rtcp.TransportLayerCc.Read.{upto}
use rtcp.TransportLayerCc.Wire.{IsDeltaType, added, added_all}

-- A delta that is announced and not yet read.
abbrev pub new_delta : ℕ → RecvDelta
new_delta type = record { type = type; delta = pos 0 }

-- `n` deltas of one type, each with its own pointer.
abbrev pub announced : ℕ → ℕ → Deltas
announced type n = record { cells = replicate n (new_delta type); pointers = upto 0 n }

upto-suc : (i n : ℕ) → upto i n ++ ((i + n) ∷ []) ≡ upto i (suc n)
unfolding upto
upto-suc i zero = let end : i + 0 ≡ i = omega arith in rw end refl
upto-suc i (suc n) =
    let end : i + suc n ≡ i + 1 + n = omega arith in rw (end, upto-suc (i + 1) n) refl

announce : (type n : ℕ) → append_new (announced type n) type 1 ≡ announced type (n + 1)
unfolding append_new
announce type n =
    let more : n + 1 ≡ suc n = omega arith in
    let cells : replicate n (new_delta type) ++ (new_delta type ∷ [])
        ≡ replicate (n + 1) (new_delta type) =
      sym (replicate-add n 1 (new_delta type)) in
    let pointers : upto 0 n ++ (n ∷ []) ≡ upto 0 (n + 1) =
      let end : n ≡ 0 + n = omega arith in
      rw more (ap (λ k. upto 0 n ++ (k ∷ [])) end ∙ upto-suc 0 n) in
    rw (length-replicate n (new_delta type), cells, pointers) refl

-- How many symbols announce a delta of the type.
abbrev pub arrivals : ℕ → List ℕ → ℕ
arrivals type [] = 0
arrivals type (s ∷ symbols) = (if s == type then 1 else 0) + arrivals type symbols

-- Whatever announces a delta is of the type.
abbrev pub Announces : ℕ → List ℕ → Type 0
Announces type symbols = All (λ s. has_delta s ≡ true → s ≡ type) symbols

append_two_bit-announced :
    (type : ℕ) (symbols : List ℕ) (n : ℕ)
    → IsDeltaType type
    → Announces type symbols
    → append_two_bit (announced type n) symbols ≡ announced type (n + arrivals type symbols)
unfolding append_two_bit
append_two_bit-announced type [] n t a = ap (announced type) (omega arith)
append_two_bit-announced type (s ∷ symbols) n t a = elim (Bool-cases (has_delta s)) [
  | inl hit ↦
      let same = a.0 hit in
      let is : (s == type) ≡ true = ground (arith, same) in
      rw (hit, is, same, announce type n)
        (append_two_bit-announced type symbols (n + 1) t a.1 ∙ ap (announced type) (omega arith))
  | inr miss ↦
      let is_not : (s == type) ≡ false = ground (arith, miss, t) in
      rw (miss, is_not)
        (append_two_bit-announced type symbols n t a.1 ∙ ap (announced type) (omega arith))
]

append_one_bit-announced :
    (type : ℕ) (symbols : List ℕ) (n : ℕ)
    → IsDeltaType type
    → Announces type symbols
    → All (λ s. s < 2) symbols
    → append_one_bit (announced type n) symbols ≡ announced type (n + arrivals type symbols)
unfolding append_one_bit
append_one_bit-announced type [] n t a w = ap (announced type) (omega arith)
append_one_bit-announced type (s ∷ symbols) n t a w = elim (Bool-cases (s == 1)) [
  | inl hit ↦
      let one : s ≡ 1 = ground (arith, hit) in
      let same : s ≡ type = a.0 (ground (arith, one)) in
      let is : (s == type) ≡ true = ground (arith, same) in
      let of_one : append_new (announced type n) 1 1 ≡ announced type (n + 1) =
        ap (λ k. append_new (announced type n) k 1) (sym one ∙ same) ∙ announce type n in
      rw (hit, is, of_one)
        (append_one_bit-announced type symbols (n + 1) t a.1 w.1
          ∙ ap (announced type) (omega arith))
  | inr miss ↦
      let none : s ≡ 0 = ground (arith, miss, w.0) in
      let is_not : (s == type) ≡ false = ground (arith, none, t) in
      rw (miss, is_not)
        (append_one_bit-announced type symbols n t a.1 w.1 ∙ ap (announced type) (omega arith))
]

-- A chunk that is written with no loss, and announces deltas of one type only, each with a symbol of
-- its own: a run that announces deltas has length one.
abbrev pub FitsChunk : ℕ → PacketStatusChunk → Type 0
FitsChunk type nil_chunk = ⊥
FitsChunk type (run_length_chunk r) =
    FitsRun r
    × (has_delta r.packet_status_symbol ≡ false
        ⊎ ((r.packet_status_symbol ≡ type) × (r.run_length ≡ 1)))
FitsChunk type (status_vector_chunk v) = FitsVector v × Announces type v.symbol_list

-- How many deltas a chunk announces.
abbrev pub chunk_arrivals : ℕ → PacketStatusChunk → ℕ
chunk_arrivals type nil_chunk = 0
chunk_arrivals type (run_length_chunk r) =
    if has_delta r.packet_status_symbol then r.run_length else 0
chunk_arrivals type (status_vector_chunk v) = arrivals type v.symbol_list

abbrev pub all_arrivals : ℕ → List PacketStatusChunk → ℕ
all_arrivals type [] = 0
all_arrivals type (c ∷ chunks) = chunk_arrivals type c + all_arrivals type chunks

run-announced :
    (type n : ℕ) (r : RunLengthChunk)
    → IsDeltaType type
    → FitsChunk type (run_length_chunk r)
    → added (announced type n) (run_length_chunk r)
      ≡ announced type (n + chunk_arrivals type (run_length_chunk r))
unfolding append_run
run-announced type n r t (f, inl miss) = rw miss (ap (announced type) (omega arith))
run-announced type n r t (f, inr (same, one)) =
    let hit : has_delta r.packet_status_symbol ≡ true = ground (arith, same, t) in
    rw (hit, same, one) (announce type n)

vector_symbols_one :
    (v : StatusVectorChunk) → FitsVector v → v.symbol_size ≡ 0 → All (λ s. s < 2) v.symbol_list
vector_symbols_one v f none = rw (f.parts) (
    All-append (λ s. s < 2) f.first f.second
      (subst (λ k. All (λ s. s < 2 ^ suc k) f.first) none f.first_bits)
      (subst (λ k. All (λ s. s < 2 ^ suc k) f.second) none f.second_bits))

vector-announced :
    (type n : ℕ) (v : StatusVectorChunk)
    → IsDeltaType type
    → FitsChunk type (status_vector_chunk v)
    → added (announced type n) (status_vector_chunk v)
      ≡ announced type (n + chunk_arrivals type (status_vector_chunk v))
vector-announced type n v t (f, a) = elim (Bool-cases (v.symbol_size == 0)) [
  | inl hit ↦
      let not_two : (v.symbol_size == 1) ≡ false = ground (arith, hit) in
      let none : v.symbol_size ≡ 0 = ground (arith, hit) in
      rw (hit, not_two)
        (append_one_bit-announced type v.symbol_list n t a (vector_symbols_one v f none))
  | inr miss ↦
      let two : (v.symbol_size == 1) ≡ true = ground (arith, miss, f.size_bound) in
      rw (miss, two) (append_two_bit-announced type v.symbol_list n t a)
]

added-announced :
    (type n : ℕ) (c : PacketStatusChunk)
    → IsDeltaType type
    → FitsChunk type c
    → added (announced type n) c ≡ announced type (n + chunk_arrivals type c)
added-announced type n nil_chunk t f = absurd f
added-announced type n (run_length_chunk r) t f = run-announced type n r t f
added-announced type n (status_vector_chunk v) t f = vector-announced type n v t f

pub added_all-announced :
    (type n : ℕ) (chunks : List PacketStatusChunk)
    → IsDeltaType type
    → All (FitsChunk type) chunks
    → added_all (announced type n) chunks ≡ announced type (n + all_arrivals type chunks)
added_all-announced type n [] t f = ap (announced type) (omega arith)
added_all-announced type n (c ∷ chunks) t f = rw (added-announced type n c t f.0) (
    added_all-announced type (n + chunk_arrivals type c) chunks t f.1
    ∙ ap (announced type) (omega arith))
