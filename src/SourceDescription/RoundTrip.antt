-- ===== src/SourceDescription/RoundTrip.antt =====
-- The bytes of chunks and packets, and what is read back from them.
use rtcp.Prelude.{
  ℕ, zero, suc, ◌+◌, ◌%◌, ◌≤◌, ◌<◌, ◌≡◌, ◌∙◌, refl, sym, ap, arith, length, drop, All, List, [],
  ◌∷◌, ◌++◌, append_assoc, append-nil, length-append, le→ltb_false, ne→==_false, drop_append,
}
use rtcp.Result.{ok}
use rtcp.Bytes.{Bytes, IsUint32, make, put, slice_from, be32}
use rtcp.Bytes.Laws.{length-make, uint32-be32, length-be32}
use rtcp.Util.{get_padding}
use rtcp.Util.Laws.{get_padding_lem}
use rtcp.SourceDescription.Item
use rtcp.SourceDescription.Item.{SourceDescriptionItem}
use rtcp.SourceDescription.Chunk
use rtcp.SourceDescription.Chunk.{SourceDescriptionChunk, items_len, marshal_items, unmarshal_items}

-- The bytes of the items, one behind the other.
abbrev pub encode_items : List SourceDescriptionItem → Bytes
encode_items [] = []
encode_items (it ∷ items) = Item.encode it ++ encode_items items

length-encode_items :
    (items : List SourceDescriptionItem) → length (encode_items items) ≡ items_len items
unfolding items_len Item.len
length-encode_items [] = refl
length-encode_items (it ∷ items) =
    omega (arith, length-append it.text (encode_items items), length-encode_items items)

marshal_items-encode :
    (raw : Bytes) (items : List SourceDescriptionItem)
    → All Item.IsValid items
    → marshal_items raw items ≡ ok (raw ++ encode_items items)
unfolding marshal_items
marshal_items-encode raw [] v = ap ok (sym (append-nil raw))
marshal_items-encode raw (it ∷ items) v = rw (Item.marshal-encode it v.0) (
    marshal_items-encode (raw ++ Item.encode it) items v.1
    ∙ ap ok (append_assoc raw (Item.encode it) (encode_items items)))

drop_item :
    (it : SourceDescriptionItem) (rest : Bytes) → drop (Item.len it) (Item.encode it ++ rest) ≡ rest
unfolding Item.len
drop_item it rest =
    let size : 2 + length it.text ≡ length (Item.encode it) = omega arith in
    rw size (drop_append (Item.encode it) rest)

shorter :
    (it : SourceDescriptionItem) (items : List SourceDescriptionItem) (fuel : ℕ)
    → length (encode_items (it ∷ items)) < suc fuel
    → length (encode_items items) < fuel
shorter it items fuel h = omega (arith, length-append it.text (encode_items items))

-- The items are read up to the first zero type.
unmarshal_items-encode :
    (fuel : ℕ) (items acc : List SourceDescriptionItem) (rest : Bytes)
    → length (encode_items items) < fuel
    → All Item.IsValid items
    → unmarshal_items fuel (encode_items items ++ (0 ∷ rest)) acc ≡ ok (acc ++ items)
unfolding unmarshal_items
unmarshal_items-encode zero items acc rest h v = absurd (omega arith)
unmarshal_items-encode (suc fuel) [] acc rest h v = ap ok (sym (append-nil acc))
unmarshal_items-encode (suc fuel) (it ∷ items) acc rest h v =
    let later = encode_items items ++ (0 ∷ rest) in
    let again =
      unmarshal_items-encode fuel items (acc ++ (it ∷ [])) rest (shorter it items fuel h) v.1 in
    rw
      (
        append_assoc it.text (encode_items items) (0 ∷ rest),
        ne→==_false it.type 0 (v.0).type_ne_end,
        Item.unmarshal-encode it later,
      )
      (ap (λ t. unmarshal_items fuel t (acc ++ (it ∷ []))) (drop_item it later)
        ∙ again
        ∙ ap ok (append_assoc acc (it ∷ []) items))

-- The zeros behind the items.
abbrev pub padding : SourceDescriptionChunk → ℕ
padding c = get_padding (4 + items_len c.items + 1)

unfoldable pub encode_chunk : SourceDescriptionChunk → Bytes
encode_chunk c = be32 c.source ++ (encode_items c.items ++ (0 ∷ make (padding c)))

-- A chunk that can be written.
pub record IsValidChunk (c : SourceDescriptionChunk) : Type 0 where
  pub source_typed : IsUint32 c.source
  pub items_valid : All Item.IsValid c.items

pub length-encode_chunk : (c : SourceDescriptionChunk) → length (encode_chunk c) ≡ Chunk.len c
unfolding encode_chunk Chunk.len
length-encode_chunk c =
    let tail = 0 ∷ make (padding c) in
    omega (
      arith,
      length-be32 c.source (encode_items c.items ++ tail),
      length-append (encode_items c.items) tail,
      length-encode_items c.items,
      length-make (padding c),
    )

pub chunk_len_bounds : (c : SourceDescriptionChunk) → (Chunk.len c % 4 ≡ 0) × (5 ≤ Chunk.len c)
unfolding Chunk.len
chunk_len_bounds c = ((get_padding_lem (4 + items_len c.items + 1)).0, omega arith)

pub marshal-encode_chunk :
    (c : SourceDescriptionChunk) → IsValidChunk c → Chunk.marshal c ≡ ok (encode_chunk c)
unfolding Chunk.marshal put be32 encode_chunk
marshal-encode_chunk c v =
    let all = be32 c.source ++ encode_items c.items in
    let size : length (all ++ (0 ∷ [])) ≡ 4 + items_len c.items + 1 = omega (
      arith,
      length-append all (0 ∷ []),
      length-be32 c.source (encode_items c.items),
      length-encode_items c.items,
    ) in
    rw (marshal_items-encode (be32 c.source) c.items v.items_valid, size)
      (ap ok (simp append_assoc))

slice_from_word : (v : ℕ) (rest : Bytes) → slice_from (be32 v ++ rest) 4 ≡ ok rest
unfolding slice_from be32
slice_from_word v rest = refl

layout_chunk :
    (c : SourceDescriptionChunk) (rest : Bytes)
    → encode_chunk c ++ rest
      ≡ be32 c.source ++ (encode_items c.items ++ (0 ∷ (make (padding c) ++ rest)))
unfolding encode_chunk
layout_chunk c rest = simp append_assoc

-- The chunk there before keeps its items, and the new ones follow them.
pub unmarshal-encode_chunk :
    (c0 c : SourceDescriptionChunk) (rest : Bytes)
    → IsValidChunk c
    → Chunk.unmarshal c0 (encode_chunk c ++ rest) ≡ ok (record c { items = c0.items ++ c.items })
unfolding Chunk.unmarshal
unmarshal-encode_chunk c0 c rest v =
    let tail = make (padding c) ++ rest in
    let body = encode_items c.items ++ (0 ∷ tail) in
    let size = length-be32 c.source body in
    let more = length-append (encode_items c.items) (0 ∷ tail) in
    rw (
      layout_chunk c rest,
      le→ltb_false (length (be32 c.source ++ body)) 5 (omega (arith, size, more)),
      uint32-be32 c.source body v.source_typed,
      slice_from_word c.source body,
      unmarshal_items-encode (length (be32 c.source ++ body)) c.items c0.items tail
          (omega (arith, size, more)) v.items_valid,
    )
