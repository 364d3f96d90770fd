-- ===== src/Header/Names.antt =====
-- `PacketType.String` of header.go.
use Prim.Native.Char.{code}
use Prim.Native.String.{String}
use rtcp.Prelude.{
  ℕ, ◌+◌, ◌-◌, ◌*◌, ◌/◌, ◌%◌, ◌≡◌, ◌∙◌, refl, sym, ap, true, ltb, ◌==◌, if◌then◌else◌, [], ◌∷◌,
}
use rtcp.Bytes.{Bytes, IsByte}
use rtcp.Prelude.Tables.{all_below, table_lem}
use rtcp.Header.{
  PacketType, type_sender_report, type_receiver_report, type_source_description, type_goodbye,
  type_transport_specific_feedback, type_payload_specific_feedback,
}

-- The bytes of a text.
abbrev pub codes : String → Bytes
codes String.[] = []
codes (String.◌∷◌ c s) = code c ∷ codes s

-- `string(n)` of a uint8: the UTF-8 of the character with that number.
abbrev pub from_rune : ℕ → Bytes
from_rune n = if ltb n 128 then n ∷ [] else (192 + n / 64) ∷ (128 + n % 64) ∷ []

abbrev type_application_defined : PacketType
type_application_defined = 204

-- `(p PacketType) String`
unfoldable pub string : PacketType → Bytes
string p =
    if p == type_sender_report
    then codes "SR"
    else if p == type_receiver_report
    then codes "RR"
    else if p == type_source_description
    then codes "SDES"
    else if p == type_goodbye
    then codes "BYE"
    else if p == type_application_defined
    then codes "APP"
    else if p == type_transport_specific_feedback
    then codes "TSFB"
    else if p == type_payload_specific_feedback
    then codes "PSFB"
    else from_rune p

-- The type that a text names.
unfoldable pub named : Bytes → ℕ
named [] = 0
named (a ∷ []) = a
named (a ∷ b ∷ []) =
    if b == b'R' then (if a == b'S' then 200 else 201) else (a - 192) * 64 + (b - 128)
named (a ∷ b ∷ c ∷ []) = if a == b'B' then 203 else 204
named (a ∷ b ∷ c ∷ d ∷ s) = if b == b'D' then 202 else if a == b'T' then 205 else 206

table : all_below 256 (λ p. named (string p) == p) ≡ true
unfolding string named all_below
table = refl

-- The text of a packet type, a byte, tells which type it is: two types never have the same text.
pub string-injective : (p q : PacketType) → IsByte p → IsByte q → string p ≡ string q → p ≡ q
string-injective p q hp hq e =
    sym (table_lem 256 (λ p. named (string p)) p table hp)
    ∙ ap named e
    ∙ table_lem 256 (λ p. named (string p)) q table hq
