-- ===== src/CompoundPacket/FirstName.antt =====
-- The first CNAME of a source description.
use mathlib.Core.Path.{subst}
use native.Mathlib.Decide.{ℕ_discrete}
use rtcp.Prelude.{◌≢◌, ◌∙◌, All, arith, Option, none, some, ◌≡◌, ◌⊎◌, inl, inr, refl, List, [], ◌∷◌}
use rtcp.Bytes.{Bytes}
use rtcp.SourceDescription.Item.{SourceDescriptionItem}
use rtcp.SourceDescription.Chunk.{SourceDescriptionChunk}
use rtcp.CompoundPacket.{items_cname, chunks_cname, first_name}

-- The first of the items that is a CNAME, type 1, has this text.
pub data FirstItem : List SourceDescriptionItem → Bytes → Type 0 where
  item_here :
      (it : SourceDescriptionItem) (items : List SourceDescriptionItem)
      → it.type ≡ 1
      → FirstItem (it ∷ items) it.text
  item_later :
      (it : SourceDescriptionItem) (items : List SourceDescriptionItem) (text : Bytes)
      → it.type ≢ 1
      → FirstItem items text
      → FirstItem (it ∷ items) text

-- The first CNAME of the chunks, in their order, has this text.
pub data FirstName : List SourceDescriptionChunk → Bytes → Type 0 where
  chunk_here :
      (c : SourceDescriptionChunk) (chunks : List SourceDescriptionChunk) (text : Bytes)
      → FirstItem c.items text
      → FirstName (c ∷ chunks) text
  chunk_later :
      (c : SourceDescriptionChunk) (chunks : List SourceDescriptionChunk) (text : Bytes)
      → All (λ it. it.type ≢ 1) c.items
      → FirstName chunks text
      → FirstName (c ∷ chunks) text

pub option_cases : {A : Type 0} (o : Option A) → (o ≡ none) ⊎ ((a : A) × (o ≡ some a))
option_cases none = inl refl
option_cases (some a) = inr (a, refl)

-- The search finds that item, or there is none.
items_cname-some :
    (items : List SourceDescriptionItem) (text : Bytes)
    → items_cname items ≡ some text
    → FirstItem items text
unfolding items_cname
items_cname-some [] text e = cc
items_cname-some (it ∷ items) text e = elim (ℕ_discrete it.type 1) [
  | yes is ↦
      let same : it.text ≡ text = ground (arith, is, e) in
      subst (FirstItem (it ∷ items)) same (item_here it items is)
  | no other ↦
      item_later it items text other (items_cname-some items text (ground (arith, other, e)))
]

items_cname-none :
    (items : List SourceDescriptionItem) → items_cname items ≡ none → All (λ it. it.type ≢ 1) items
unfolding items_cname
items_cname-none [] e = tt
items_cname-none (it ∷ items) e = elim (ℕ_discrete it.type 1) [
  | yes is ↦ absurd (ground (arith, is, e))
  | no other ↦ (other, items_cname-none items (ground (arith, other, e)))
]

FirstItem-found :
    (items : List SourceDescriptionItem) (text : Bytes)
    → FirstItem items text
    → items_cname items ≡ some text
unfolding items_cname
FirstItem-found _ _ (item_here it items is) = rw is refl
FirstItem-found _ text (item_later it items _ other f) =
    ground (arith, other, FirstItem-found items text f)

nameless :
    (items : List SourceDescriptionItem) → All (λ it. it.type ≢ 1) items → items_cname items ≡ none
unfolding items_cname
nameless [] others = refl
nameless (it ∷ items) others =
    let other = others.0 in ground (arith, other, nameless items others.1)

pub chunks_cname-FirstName :
    (chunks : List SourceDescriptionChunk) (text : Bytes)
    → chunks_cname chunks ≡ some text
    → FirstName chunks text
unfolding chunks_cname first_name
chunks_cname-FirstName [] text e = cc
chunks_cname-FirstName (c ∷ chunks) text e = elim (option_cases (items_cname c.items)) [
  | inl e1 ↦
      chunk_later c chunks text (items_cname-none c.items e1)
        (chunks_cname-FirstName chunks text (rw e1 at e))
  | inr (t, e1) ↦ chunk_here c chunks text (items_cname-some c.items text (e1 ∙ (rw e1 at e)))
]

pub FirstName-found :
    (chunks : List SourceDescriptionChunk) (text : Bytes)
    → FirstName chunks text
    → chunks_cname chunks ≡ some text
unfolding chunks_cname first_name
FirstName-found _ text (chunk_here c chunks _ f) = rw (FirstItem-found c.items text f) refl
FirstName-found _ text (chunk_later c chunks _ others f) =
    rw (nameless c.items others) (FirstName-found chunks text f)
