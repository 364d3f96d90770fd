-- ===== src/CompoundPacket/Specification.antt =====
-- What `Validate` accepts, and what `CNAME` then finds.
use rtcp.Prelude.{
  arith, Option, none, some, Bool, true, false, ◌≡◌, ◌↔◌, inl, inr, refl, ◌==◌, List, [], ◌∷◌,
  Bool-cases,
}
use rtcp.Result.{ok}
use rtcp.Bytes.{Bytes}
use rtcp.SourceDescription.Item.{SourceDescriptionItem, sdes_cname}
use rtcp.SourceDescription.Chunk.{SourceDescriptionChunk}
use rtcp.SourceDescription.Packet.{SourceDescription}
use rtcp.Packet.{Packet, sender_report, receiver_report, source_description}
use rtcp.CompoundPacket.FirstName.{FirstName, option_cases, chunks_cname-FirstName, FirstName-found}
use rtcp.CompoundPacket.{
  CompoundPacket, check_first, items_have_cname, chunks_have_cname, check_rest, validate,
  items_cname, chunks_cname, cname_loop, cname, first_name, answer,
}

-- Receiver reports, then a description with a CNAME, then anything.
pub data Named : List Packet → Bytes → Type 0 where
  named_after :
      (p : _) (packets : List Packet) (text : Bytes)
      → Named packets text
      → Named (receiver_report p ∷ packets) text
  named_here :
      (s : SourceDescription) (packets : List Packet) (text : Bytes)
      → FirstName s.chunks text
      → Named (source_description s ∷ packets) text

-- A compound packet: a report first, then as `Named` says.
pub data Compound : List Packet → Bytes → Type 0 where
  sender_first :
      (p : _) (packets : List Packet) (text : Bytes)
      → Named packets text
      → Compound (sender_report p ∷ packets) text
  receiver_first :
      (p : _) (packets : List Packet) (text : Bytes)
      → Named packets text
      → Compound (receiver_report p ∷ packets) text

-- Once found, a CNAME stays found.
items_stay : (items : List SourceDescriptionItem) → items_have_cname true items ≡ true
unfolding items_have_cname
items_stay [] = refl
items_stay (it ∷ items) = ground (arith, items_stay items)

chunks_stay : (chunks : List SourceDescriptionChunk) → chunks_have_cname true chunks ≡ true
unfolding chunks_have_cname
chunks_stay [] = refl
chunks_stay (c ∷ chunks) = rw (items_stay c.items) (chunks_stay chunks)

-- The two loops over the items agree.
abbrev found : {A : Type 0} → Option A → Bool
found none = false
found (some a) = true

items_agree :
    (items : List SourceDescriptionItem) → items_have_cname false items ≡ found (items_cname items)
unfolding items_have_cname items_cname
items_agree [] = refl
items_agree (it ∷ items) = elim (Bool-cases (it.type == sdes_cname)) [
  | inl e ↦ rw e (items_stay items)
  | inr e ↦ rw e (items_agree items)
]

chunks_agree :
    (chunks : List SourceDescriptionChunk)
    → chunks_have_cname false chunks ≡ found (chunks_cname chunks)
unfolding chunks_have_cname chunks_cname first_name
chunks_agree [] = refl
chunks_agree (c ∷ chunks) = elim (option_cases (items_cname c.items)) [
  | inl e ↦ rw (items_agree c.items, e) (chunks_agree chunks)
  | inr (t, e) ↦ rw (items_agree c.items, e) (chunks_stay chunks)
]

check_rest-Named :
    (packets : List Packet) → check_rest packets ≡ ok tt → (text : Bytes) × Named packets text
unfolding check_rest
check_rest-Named [] e = cc
check_rest-Named (receiver_report p ∷ packets) e =
    let (text, n) = check_rest-Named packets e in (text, named_after p packets text n)
check_rest-Named (source_description s ∷ packets) e = elim (option_cases (chunks_cname s.chunks)) [
  | inl e1 ↦
      let refused : chunks_have_cname false s.chunks ≡ false = rw (chunks_agree s.chunks, e1) in
      ground (arith, refused, e)
  | inr (text, e1) ↦ (text, named_here s packets text (chunks_cname-FirstName s.chunks text e1))
]
check_rest-Named (_ ∷ packets) e = cc

Named-check_rest :
    (packets : List Packet) (text : Bytes)
    → Named packets text
    → (check_rest packets ≡ ok tt) × (cname_loop none packets ≡ (text, none))
unfolding check_rest cname_loop answer
Named-check_rest _ text (named_after p packets _ n) = Named-check_rest packets text n
Named-check_rest _ text (named_here s packets _ f) =
    let e = FirstName-found s.chunks text f in (rw (chunks_agree s.chunks, e), rw e)

pub accepted : (c : CompoundPacket) (text : Bytes) → Compound c text → validate c ≡ ok tt
unfolding validate check_first
accepted _ text (sender_first p packets _ n) = (Named-check_rest packets text n).0
accepted _ text (receiver_first p packets _ n) = (Named-check_rest packets text n).0

-- `Validate` accepts exactly the lists that start with a report, go on with receiver reports, and
-- then have a description with a CNAME; and `CNAME` answers the first CNAME of that description, in
-- the order of its chunks and their items, with no error.
pub validate-Compound :
    (c : CompoundPacket)
    → (validate c ≡ ok tt) ↔ ((text : Bytes) × Compound c text × (cname c ≡ (text, none)))
unfolding validate check_first cname
validate-Compound [] = (λ e. cc, λ w. accepted _ _ w.1)
validate-Compound (sender_report p ∷ packets) = (
  λ e.
      let (text, n) = check_rest-Named packets e in
      (text, sender_first p packets text n, (Named-check_rest packets text n).1),
  λ w. accepted _ _ w.1,
)
validate-Compound (receiver_report p ∷ packets) = (
  λ e.
      let (text, n) = check_rest-Named packets e in
      (text, receiver_first p packets text n, (Named-check_rest packets text n).1),
  λ w. accepted _ _ w.1,
)
validate-Compound (_ ∷ packets) = (λ e. cc, λ w. accepted _ _ w.1)
