-- ===== src/SourceDescription/Reading.antt =====
-- The readers of source_description.go on arbitrary bytes.
use rtcp.Prelude.{
  ℕ, zero, suc, ◌+◌, ◌%◌, ◌≤◌, ◌<◌, ◌≡◌, refl, arith, length, length-drop, drop, All, All-append,
  List, [], ◌∷◌, ◌++◌, not, ◌==◌, Bool-cases, inl, inr,
}
use rtcp.Result.{err_wrong_type, err_invalid_header, err_packet_too_short}
use rtcp.Outcome.{Ends, Ends-ok, Ends-err, Ends-bind, Ends-weaken, too_short-Ends, fail_if-Ends}
use rtcp.Bytes.{Bytes, IsByte, index}
use rtcp.Bytes.Outcome.{index-Ends, slice-Ends, slice_from-Ends, uint32-Ends, drop-bytes}
use rtcp.Header.Reading as Header
use rtcp.SourceDescription.Item
use rtcp.SourceDescription.Item.{SourceDescriptionItem}
use rtcp.SourceDescription.Chunk
use rtcp.SourceDescription.Chunk.{SourceDescriptionChunk, items_len, unmarshal_items}
use rtcp.SourceDescription.RoundTrip.{IsValidChunk}
use rtcp.SourceDescription.Packet.{SourceDescription, len, chunks_len, unmarshal_chunks, unmarshal}
use rtcp.Util.Laws.{get_padding_lem}
use rtcp.SourceDescription.PacketRoundTrip.{IsValid}

-- An item that was read from `type` and `rest`.
record ItemOf (type : ℕ) (rest : Bytes) (it : SourceDescriptionItem) : Type 0 where
  same_type : it.type ≡ type
  short : length it.text ≤ 255
  fits : 1 + length it.text ≤ length rest

items_len-append :
    (items : List SourceDescriptionItem) (it : SourceDescriptionItem)
    → items_len (items ++ (it ∷ [])) ≡ items_len items + Item.len it
unfolding items_len
items_len-append [] it = omega arith
items_len-append (i ∷ items) it = omega (arith, items_len-append items it)

-- The items that were found in `rest`, behind the ones before, and the zero that closes them.
record ItemsOf (before : List SourceDescriptionItem) (rest : Bytes)
    (found : List SourceDescriptionItem) : Type 0 where
  valid : All Item.IsValid found
  size : items_len found + 1 ≤ items_len before + length rest

item-Ends :
    {panics : Type 0} (type : ℕ) (rest : Bytes)
    → All IsByte (type ∷ rest)
    → Ends panics (ItemOf type rest) (Item.unmarshal (type ∷ rest))
unfolding Item.unmarshal index
item-Ends type rest w =
    let raw = type ∷ rest in
    Ends-bind (too_short-Ends (length raw) 2 _) λ _ long.
      Ends-bind (index-Ends raw 1 w (omega (arith, long))) λ n hn.
        Ends-bind (too_short-Ends (length raw) (2 + n) _) λ _ fits.
          Ends-bind (slice-Ends raw 2 (2 + n) w (omega arith) fits) λ text p.
            Ends-ok (ItemOf type rest) _ (record {
              same_type = refl;
              short = omega (arith, p.size, hn);
              fits = omega (arith, p.size, fits);
            })

unmarshal_items-Ends :
    {panics : Type 0} (fuel : ℕ) (rest : Bytes) (items : List SourceDescriptionItem)
    → All IsByte rest
    → length rest ≤ fuel
    → All Item.IsValid items
    → Ends panics (ItemsOf items rest) (unmarshal_items fuel rest items)
unfolding unmarshal_items Item.len
unmarshal_items-Ends fuel [] items w enough v = Ends-err _ err_packet_too_short
unmarshal_items-Ends zero (type ∷ rest) items w enough v = absurd (omega arith)
unmarshal_items-Ends (suc fuel) (type ∷ rest) items w enough v = elim (Bool-cases (type == 0)) [
  | inl end ↦
      rw end
        (Ends-ok (ItemsOf items (type ∷ rest)) items (record { valid = v; size = omega arith }))
  | inr item ↦ rw item (
      Ends-bind (item-Ends type rest w) λ it h.
        Ends-weaken (ItemsOf (items ++ (it ∷ [])) (drop (2 + length it.text) (type ∷ rest)))
          (ItemsOf items (type ∷ rest)) _
          (λ found t. record {
            valid = t.valid;
            size = omega (
              arith,
              t.size,
              h.fits,
              items_len-append items it,
              length-drop (2 + length it.text) (type ∷ rest),
            );
          })
          (unmarshal_items-Ends fuel (drop (2 + length it.text) (type ∷ rest)) (items ++ (it ∷ []))
            (drop-bytes (2 + length it.text) (type ∷ rest) w)
            (omega (arith, length-drop (2 + length it.text) (type ∷ rest), enough))
            (All-append Item.IsValid items (it ∷ []) v (
              record {
                type_ne_end = ground (arith, item, h.same_type);
                type_bound = omega (arith, h.same_type, w.0);
                short_text = h.short;
              },
              tt,
            ))))
]

-- A chunk that was read from the front of `raw`.
record ChunkOf (raw : Bytes) (c : SourceDescriptionChunk) : Type 0 where
  valid : IsValidChunk c
  words : Chunk.len c % 4 ≡ 0
  size : length raw % 4 ≡ 0 → Chunk.len c ≤ length raw

chunk-Ends :
    {panics : Type 0} (raw : Bytes)
    → All IsByte raw
    → Ends panics (ChunkOf raw) (Chunk.unmarshal (record { source = 0; items = [] }) raw)
unfolding Chunk.unmarshal Chunk.len items_len
chunk-Ends raw w = Ends-bind (too_short-Ends (length raw) 5 _) λ _ long.
    Ends-bind (uint32-Ends raw w (omega (arith, long))) λ source hs.
      Ends-bind (slice_from-Ends raw 4 w (omega (arith, long))) λ rest p.
        Ends-bind (unmarshal_items-Ends (length raw) rest [] p.bytes (omega (arith, p.size)) tt)
          λ items hi.
            let (words, few) = get_padding_lem (4 + items_len items + 1) in
            Ends-ok (ChunkOf raw) (record { source = source; items = items })
              (record {
                valid = record { source_typed = hs; items_valid = hi.valid };
                words = words;
                size = λ whole. omega (arith, hi.size, p.size, long, words, few, whole);
              })

-- A chunk takes its source at least.
chunk_len_pos : (c : SourceDescriptionChunk) → 0 < Chunk.len c
unfolding Chunk.len
chunk_len_pos c = omega arith

chunks_len-append :
    (chunks : List SourceDescriptionChunk) (c : SourceDescriptionChunk)
    → chunks_len (chunks ++ (c ∷ [])) ≡ chunks_len chunks + Chunk.len c
unfolding chunks_len
chunks_len-append [] c = omega arith
chunks_len-append (d ∷ chunks) c = omega (arith, chunks_len-append chunks c)

record ChunksOf (before : List SourceDescriptionChunk) (rest : Bytes)
    (found : List SourceDescriptionChunk) : Type 0 where
  valid : All IsValidChunk found
  size : length rest % 4 ≡ 0 → chunks_len found ≤ chunks_len before + length rest

unmarshal_chunks-Ends :
    {panics : Type 0} (fuel : ℕ) (rest : Bytes) (chunks : List SourceDescriptionChunk)
    → All IsByte rest
    → length rest ≤ fuel
    → All IsValidChunk chunks
    → Ends panics (ChunksOf chunks rest) (unmarshal_chunks fuel rest chunks)
unfolding unmarshal_chunks
unmarshal_chunks-Ends fuel [] chunks w enough v =
    Ends-ok (ChunksOf chunks []) chunks (record { valid = v; size = λ _. omega arith })
unmarshal_chunks-Ends zero (b ∷ rest) chunks w enough v = absurd (omega arith)
unmarshal_chunks-Ends (suc fuel) (b ∷ rest) chunks w enough v =
    Ends-bind (chunk-Ends (b ∷ rest) w) λ c h.
      Ends-weaken (ChunksOf (chunks ++ (c ∷ [])) (drop (Chunk.len c) (b ∷ rest)))
        (ChunksOf chunks (b ∷ rest)) _
        (λ found t. record {
          valid = t.valid;
          size = λ whole.
              let fits = h.size whole in
              let left = length-drop (Chunk.len c) (b ∷ rest) in
              let more = t.size (omega (arith, fits, left, whole, h.words)) in
              omega (arith, fits, left, more, chunks_len-append chunks c);
        })
        (unmarshal_chunks-Ends fuel (drop (Chunk.len c) (b ∷ rest)) (chunks ++ (c ∷ []))
          (drop-bytes (Chunk.len c) (b ∷ rest) w)
          (omega (arith, length-drop (Chunk.len c) (b ∷ rest), chunk_len_pos c, enough))
          (All-append IsValidChunk chunks (c ∷ []) v (h.valid, tt)))

-- A description that was read from `raw`.
pub record Reads (raw : Bytes) (s : SourceDescription) : Type 0 where
  pub valid : IsValid s
  pub size : length raw % 4 ≡ 0 → len s ≤ length raw

pub Reads-Ends :
    {panics : Type 0} (raw : Bytes)
    → All IsByte raw
    → Ends panics (Reads raw) (unmarshal (record { chunks = [] }) raw)
unfolding unmarshal len chunks_len
Reads-Ends raw w = Ends-bind (Header.unmarshal-Ends raw w) λ h hh.
    Ends-bind (fail_if-Ends (not (h.type == 202)) err_wrong_type) λ _ _.
      Ends-bind (slice_from-Ends raw 4 w hh.long) λ rest p.
        Ends-bind (unmarshal_chunks-Ends (length raw) rest [] p.bytes (omega (arith, p.size)) tt)
          λ chunks hc.
            Ends-bind (fail_if-Ends (not (length chunks == h.count)) err_invalid_header) λ _ same.
              Ends-ok (Reads raw) (record { chunks = chunks })
                (record {
                  valid = record {
                    few_chunks = ground (arith, same, hh.valid.count_bound);
                    chunks_valid = hc.valid;
                  };
                  size = λ whole.
                      let fits = hc.size (omega (arith, p.size, hh.long, whole)) in
                      omega (arith, fits, p.size, hh.long);
                })

pub unmarshal-Ends :
    {panics : Type 0} (raw : Bytes)
    → All IsByte raw
    → Ends panics IsValid (unmarshal (record { chunks = [] }) raw)
unmarshal-Ends raw w =
    Ends-weaken (Reads raw) IsValid (unmarshal (record { chunks = [] }) raw) (λ _ t. t.valid)
      (Reads-Ends raw w)
