-- ===== src/SourceDescription/Writing.antt =====
-- The writers of source_description.go, whatever the items are.
use rtcp.Prelude.{
  ℕ, ◌+◌, ◌≤◌, ◌<◌, ◌≡◌, ◌≢◌, ◌∙◌, refl, arith, length, length-append, All, Any, here, there,
  Any-not-All, List, [], ◌∷◌, ◌++◌, ◌==◌,
}
use rtcp.Result.{Error, ok, err_sdes_missing_type, err_sdes_text_too_long, err_too_many_chunks}
use rtcp.Outcome.Answers.{
  Answers, Answers-ok, Answers-bind, Answers-eq, Answers-weaken, fail_if-Answers, too_many-Answers,
}
use rtcp.Bytes.{Bytes, to_uint8, make, copy, be32}
use rtcp.Bytes.Laws.{length-make}
use rtcp.Bytes.Written.{OfLength, put-Answers, copy_at-Answers, length-copy}
use rtcp.Util.{get_padding}
use rtcp.Header
use rtcp.Header.Wire
use rtcp.SourceDescription.Item
use rtcp.SourceDescription.Item.{SourceDescriptionItem}
use rtcp.SourceDescription.Chunk
use rtcp.SourceDescription.Chunk.{SourceDescriptionChunk, items_len, marshal_items}
use rtcp.SourceDescription.Packet.{
  SourceDescription, len, chunks_len, header, marshal_chunks, marshal,
}

-- An item with a type and a short text.
abbrev pub FitsItem : SourceDescriptionItem → Type 0
FitsItem it = (it.type ≢ 0) × (length it.text ≤ 255)

pub data RefusedItem (e : Error) (it : SourceDescriptionItem) : Type 0 where
  no_type : it.type ≡ 0 → e ≡ err_sdes_missing_type → RefusedItem e it
  long_text : it.type ≢ 0 → 255 < length it.text → e ≡ err_sdes_text_too_long → RefusedItem e it

RefusedItem-not-FitsItem :
    {e : Error} (it : SourceDescriptionItem) → RefusedItem e it → ¬ FitsItem it
RefusedItem-not-FitsItem it (no_type z _) f = f.0 z
RefusedItem-not-FitsItem it (long_text _ h _) f = omega (arith, h, f.1)

-- The descriptions that can be written, and why others are refused.
abbrev FitsChunk : SourceDescriptionChunk → Type 0
FitsChunk c = All FitsItem c.items

abbrev RefusedChunk : Error → SourceDescriptionChunk → Type 0
RefusedChunk e c = Any (RefusedItem e) c.items

abbrev pub Fits : SourceDescription → Type 0
Fits s = All FitsChunk s.chunks × (length s.chunks ≤ 31)

pub data Refused (s : SourceDescription) (e : Error) : Type 0 where
  bad_item : Any (RefusedChunk e) s.chunks → Refused s e
  many_chunks :
      All FitsChunk s.chunks → 31 < length s.chunks → e ≡ err_too_many_chunks → Refused s e

pub Refused-not-Fits : {s : SourceDescription} {e : Error} → Refused s e → ¬ Fits s
Refused-not-Fits (bad_item a) f = Any-not-All (λ c b. Any-not-All RefusedItem-not-FitsItem b) a f.0
Refused-not-Fits (many_chunks _ h _) f = omega (arith, h, f.1)

item-Answers :
    (it : SourceDescriptionItem)
    → Answers
        (λ e. RefusedItem e it)
        (λ b. OfLength (Item.len it) b × FitsItem it)
        (Item.marshal it)
unfolding Item.marshal Item.len
item-Answers it =
    Answers-bind
      (fail_if-Answers (it.type == 0) err_sdes_missing_type (λ z. no_type (ground (arith, z)) refl))
      λ _ typed.
        let some : it.type ≢ 0 = λ z. ground (arith, typed, z) in
        Answers-bind (put-Answers (make 2) 0 (to_uint8 it.type ∷ []) (omega arith)) λ b1 s1.
          Answers-bind
            (too_many-Answers 255 (length it.text) err_sdes_text_too_long
              (λ h. long_text some h refl))
            λ _ short.
              Answers-bind (put-Answers b1 1 (to_uint8 (length it.text) ∷ []) (omega (arith, s1)))
                λ b2 s2.
                  Answers-ok (λ b. OfLength (2 + length it.text) b × FitsItem it) (b2 ++ it.text)
                    (omega (arith, length-append b2 it.text, s1, s2), (some, short))

items-Answers :
    (raw : Bytes) (items : List SourceDescriptionItem)
    → Answers
        (λ e. Any (RefusedItem e) items)
        (λ b. OfLength (length raw + items_len items) b × All FitsItem items)
        (marshal_items raw items)
unfolding marshal_items items_len
items-Answers raw [] =
    Answers-ok (λ b. OfLength (length raw + 0) b × Unit {0}) raw (omega arith, tt)
items-Answers raw (it ∷ items) =
    Answers-bind (Answers-weaken _ (λ _ t. t) (λ e c. here it items c) (item-Answers it)) λ b t.
      Answers-weaken
        (λ b'.
          OfLength (length raw + (Item.len it + items_len items)) b' × All FitsItem (it ∷ items))
        (λ b' t'. (t'.0 ∙ omega (arith, length-append raw b, t.0), (t.1, t'.1)))
        (λ e c. there it items c) (items-Answers (raw ++ b) items)

chunk-Answers :
    (c : SourceDescriptionChunk)
    → Answers
        (λ e. RefusedChunk e c)
        (λ b. OfLength (Chunk.len c) b × FitsChunk c)
        (Chunk.marshal c)
unfolding Chunk.marshal Chunk.len be32
chunk-Answers c = Answers-bind (put-Answers (make 4) 0 (be32 c.source) (omega arith)) λ b1 s1.
    Answers-bind (items-Answers b1 c.items) λ b2 t.
      let n = 4 + items_len c.items + 1 in
      let ended = b2 ++ (0 ∷ []) in
      let size : length ended ≡ n = omega (arith, length-append b2 (0 ∷ []), t.0, s1) in
      let pad = make (get_padding (length ended)) in
      let whole : length (ended ++ pad) ≡ n + get_padding n =
        length-append ended pad ∙ rw (length-make (get_padding (length ended)), size) refl in
      Answers-ok (λ b. OfLength (n + get_padding n) b × FitsChunk c) (ended ++ pad) (whole, t.1)

chunks-Answers :
    (raw : Bytes) (offset : ℕ) (chunks : List SourceDescriptionChunk)
    → 4 + offset + chunks_len chunks ≤ length raw
    → Answers
        (λ e. Any (RefusedChunk e) chunks)
        (λ b. OfLength (length raw) b × All FitsChunk chunks)
        (marshal_chunks raw offset chunks)
unfolding marshal_chunks chunks_len
chunks-Answers raw offset [] h = Answers-ok (λ b. OfLength (length raw) b × Unit {0}) raw (refl, tt)
chunks-Answers raw offset (c ∷ chunks) h =
    Answers-bind (Answers-weaken _ (λ _ t. t) (λ e a. here c chunks a) (chunk-Answers c)) λ b t.
      Answers-bind (copy_at-Answers raw (4 + offset) b (omega (arith, h))) λ raw' s.
        Answers-weaken (λ b'. OfLength (length raw) b' × All FitsChunk (c ∷ chunks))
          (λ b' t'. (t'.0 ∙ s, (t.1, t'.1))) (λ e a. there c chunks a)
          (chunks-Answers raw' (offset + length b) chunks (omega (arith, h, t.0, s)))

header_bytes :
    (s : SourceDescription)
    → length s.chunks ≤ 31
    → Header.marshal (header s) ≡ ok (Wire.encode (header s))
unfolding header
header_bytes s few = Wire.marshal-encode (header s) (record {
  count_bound = omega (arith, few);
  type_bound = omega arith;
  length_bound = omega arith;
})

pub marshal-Answers :
    (s : SourceDescription) → Answers (Refused s) (λ b. OfLength (len s) b × Fits s) (marshal s)
unfolding marshal len
marshal-Answers s =
    let n = length-make (len s) in
    Answers-bind
      (Answers-weaken _ (λ _ t. t) (λ e a. bad_item a)
        (chunks-Answers (make (len s)) 0 s.chunks (omega (arith, n))))
      λ b1 t.
        Answers-bind
          (too_many-Answers 31 (length s.chunks) err_too_many_chunks (λ h. many_chunks t.1 h refl))
          λ _ few.
            Answers-bind
              (Answers-eq (header_bytes s few)
                (Answers-ok (λ _. Unit {0}) (Wire.encode (header s)) tt))
              λ h _.
                Answers-ok (λ b. OfLength (len s) b × Fits s) (copy b1 h)
                  (length-copy b1 h ∙ t.0 ∙ n, (t.1, few))
