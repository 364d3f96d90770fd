-- ===== src/SourceDescription/Chunk.antt =====
-- `SourceDescriptionChunk`: a source and its items, closed by zeros up to a 32-bit boundary.
use rtcp.Prelude.{ℕ, zero, suc, ◌+◌, ltb, ◌==◌, if◌then◌else◌, length, drop, List, [], ◌∷◌, ◌++◌}
use rtcp.Result.{Result, ok, err, stuck, ◌>>=◌, ◌>>◌, fail_if, err_packet_too_short}
use rtcp.Bytes.{Bytes, make, put, slice_from, uint32, be32}
use rtcp.Util.{get_padding}
use rtcp.SourceDescription.Item
use rtcp.SourceDescription.Item.{SourceDescriptionItem, sdes_end, sdes_type_len}

abbrev pub sdes_source_len : ℕ
sdes_source_len = 4

pub record SourceDescriptionChunk : Type 0 where
  pub source : ℕ
  pub items : List SourceDescriptionItem

-- The sum of `it.len()` over the items.
unfoldable pub items_len : List SourceDescriptionItem → ℕ
items_len [] = 0
items_len (it ∷ items) = Item.len it + items_len items

-- `(s SourceDescriptionChunk) len`
unfoldable pub len : SourceDescriptionChunk → ℕ
len s = let n = sdes_source_len + items_len s.items + sdes_type_len in n + get_padding n

-- The loop of `Marshal`, on what is written so far.
unfoldable pub marshal_items : Bytes → List SourceDescriptionItem → Result Bytes
marshal_items raw [] = ok raw
marshal_items raw (it ∷ items) = do bytes ← Item.marshal it; marshal_items (raw ++ bytes) items

-- `(s SourceDescriptionChunk) Marshal`
unfoldable pub marshal : SourceDescriptionChunk → Result Bytes
marshal s = do
  raw ← put (make sdes_source_len) 0 (be32 s.source)
  raw ← marshal_items raw s.items
  let ended = raw ++ (sdes_end ∷ [])
  ok (ended ++ make (get_padding (length ended)))

-- The loop of `Unmarshal`: `rest` is `rawPacket[i:]`, and `i` moves on by `it.len()`.
unfoldable pub unmarshal_items :
    ℕ → Bytes → List SourceDescriptionItem → Result (List SourceDescriptionItem)
unmarshal_items fuel [] items = err err_packet_too_short
unmarshal_items zero (type ∷ rest) items = stuck
unmarshal_items (suc fuel) (type ∷ rest) items =
    let more = Item.unmarshal (type ∷ rest) >>= λ it.
    unmarshal_items fuel (drop (Item.len it) (type ∷ rest)) (items ++ (it ∷ [])) in
    if type == sdes_end then ok items else more

-- `(s *SourceDescriptionChunk) Unmarshal`: `s` is the chunk there before, whose items stay in front.
-- Each item takes two bytes at least, so `len(rawPacket)` rounds are enough.
unfoldable pub unmarshal : SourceDescriptionChunk → Bytes → Result SourceDescriptionChunk
unmarshal s raw = do
  fail_if (ltb (length raw) (sdes_source_len + sdes_type_len)) err_packet_too_short
  source ← uint32 raw
  rest ← slice_from raw 4
  items ← unmarshal_items (length raw) rest s.items
  ok (record { source = source; items = items })
