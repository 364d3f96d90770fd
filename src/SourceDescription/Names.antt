-- ===== src/SourceDescription/Names.antt =====
-- `SDESType.String` of source_description.go.
use rtcp.Prelude.{ℕ, ◌≡◌, ◌∙◌, refl, sym, ap, true, ◌-◌, ◌+◌, ◌*◌, ◌==◌, if◌then◌else◌, [], ◌∷◌}
use rtcp.Prelude.Tables.{all_below, table_lem}
use rtcp.Bytes.{Bytes, IsByte}
use rtcp.Header.Names.{codes, from_rune}
use rtcp.SourceDescription.Item.{sdes_end, sdes_cname}

abbrev sdes_name : ℕ
sdes_name = 2

abbrev sdes_email : ℕ
sdes_email = 3

abbrev sdes_phone : ℕ
sdes_phone = 4

abbrev sdes_location : ℕ
sdes_location = 5

abbrev sdes_tool : ℕ
sdes_tool = 6

abbrev sdes_note : ℕ
sdes_note = 7

abbrev sdes_private : ℕ
sdes_private = 8

-- `(s SDESType) String`
unfoldable pub string : ℕ → Bytes
string s =
    if s == sdes_end
    then codes "END"
    else if s == sdes_cname
    then codes "CNAME"
    else if s == sdes_name
    then codes "NAME"
    else if s == sdes_email
    then codes "EMAIL"
    else if s == sdes_phone
    then codes "PHONE"
    else if s == sdes_location
    then codes "LOC"
    else if s == sdes_tool
    then codes "TOOL"
    else if s == sdes_note
    then codes "NOTE"
    else if s == sdes_private
    then codes "PRIV"
    else from_rune s

-- The type that a text names.
unfoldable pub named : Bytes → ℕ
named [] = 0
named (a ∷ []) = a
named (a ∷ b ∷ []) = (a - 192) * 64 + (b - 128)
named (a ∷ b ∷ c ∷ []) = if a == b'E' then 0 else 5
named (a ∷ b ∷ c ∷ d ∷ []) =
    if b == b'A' then 2 else if a == b'T' then 6 else if a == b'N' then 7 else 8
named (a ∷ b ∷ c ∷ d ∷ e ∷ s) = if a == b'C' then 1 else if a == b'E' then 3 else 4

table : all_below 256 (λ p. named (string p) == p) ≡ true
unfolding string named all_below
table = refl

-- Two item types, bytes, never have the same text.
pub string-injective : (s t : ℕ) → IsByte s → IsByte t → string s ≡ string t → s ≡ t
string-injective s t hs ht e =
    sym (table_lem 256 (λ p. named (string p)) s table hs)
    ∙ ap named e
    ∙ table_lem 256 (λ p. named (string p)) t table ht
