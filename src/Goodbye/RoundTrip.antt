-- ===== src/Goodbye/RoundTrip.antt =====
-- The bytes of a goodbye, and what is read back from them.
use rtcp.Prelude.{
  ℕ, ◌+◌, ◌*◌, ◌%◌, ◌≤◌, ◌<◌, ◌≡◌, ◌∙◌, refl, sym, ap, arith, length, All, [], ◌∷◌, ◌++◌,
  le→ltb_false, lt→ltb, append_assoc, length-append, length-replicate, suc,
}
use native.Mathlib.Nat.{add_comm}
use rtcp.Result.{ok, ◌>>=◌}
use rtcp.Bytes.{Bytes, IsUint32, to_uint8, make, uint32s_at}
use rtcp.Bytes.Laws.{length-make, index_at, slice_at, make-add, put_at, copy_at_offset}
use rtcp.Bytes.WordLists.{words, length-words, put_uint32s-append, uint32s_at-append}
use rtcp.Util.{get_padding}
use rtcp.Util.Laws.{get_padding_lem, get_padding_of_multiple}
use rtcp.Header
use rtcp.Header.Wire
use rtcp.Goodbye.{Goodbye, len, header, put_reason, reason_at, read_reason, marshal, unmarshal}

-- What a packet must be to be written: at most 31 sources, and a reason of at most 255 bytes.
pub record IsValid (g : Goodbye) : Type 0 where
  pub few_sources : length g.sources ≤ 31
  pub sources_typed : All IsUint32 g.sources
  pub short_reason : length g.reason ≤ 255

-- The zeros behind the reason.
abbrev pub padding : Goodbye → ℕ
padding g = get_padding (4 + length g.sources * 4 + (length g.reason + 1))

unfoldable pub encode : Goodbye → Bytes
encode g =
    Wire.encode (header g)
    ++ (words g.sources ++ (length g.reason ∷ (g.reason ++ make (padding g))))

-- What stands behind the header.
abbrev pub body : Goodbye → Bytes
body g = words g.sources ++ (length g.reason ∷ (g.reason ++ make (padding g)))

pub len_bounds : (g : Goodbye) → IsValid g → (len g % 4 ≡ 0) × (4 ≤ len g) × (len g < 512)
unfolding len
len_bounds g v =
    let pad = get_padding_lem (4 + length g.sources * 4 + (length g.reason + 1)) in
    (pad.0, omega arith, omega (arith, v.few_sources, v.short_reason, pad.1))

pub header-IsValid : (g : Goodbye) → IsValid g → Header.IsValid (header g)
unfolding header
header-IsValid g v = record {
  count_bound = omega (arith, v.few_sources);
  type_bound = omega arith;
  length_bound = omega (arith, len_bounds g v);
}

-- The zeroed packet, split where the parts will stand.
make_parts :
    (g : Goodbye)
    → make (len g)
      ≡ make 4
        ++ (make (length g.sources * 4) ++ (0 ∷ (make (length g.reason) ++ make (padding g))))
unfolding len
make_parts g =
    let n = length g.sources * 4 in
    let r = length g.reason in
    make-add (4 + n + (r + 1)) (padding g)
    ∙ rw (make-add (4 + n) (r + 1), make-add 4 n, add_comm r 1, make-add 1 r) (simp append_assoc)

put_reason-append :
    (front : Bytes) (k : ℕ) (reason back : Bytes)
    → 4 + k ≡ length front
    → length reason ≤ 255
    → put_reason (front ++ (0 ∷ (make (length reason) ++ back))) k reason
      ≡ ok (front ++ (length reason ∷ (reason ++ back)))
unfolding put_reason
put_reason-append front k [] back e h = refl
put_reason-append front k (c ∷ cs) back e h =
    let n = suc (length cs) in
    let small : to_uint8 n ≡ n = omega arith in
    rw
      (
        le→ltb_false 255 n h,
        put_at front (4 + k) (to_uint8 n ∷ []) (0 ∷ []) (make n ++ back) e refl,
        small,
      )
      (rw (← append_assoc front (n ∷ []) (make n ++ back)) (
        copy_at_offset (front ++ (n ∷ [])) (4 + (k + 1)) (c ∷ cs) (make n) back
          (omega (arith, length-append front (n ∷ []))) (sym (length-replicate n 0))
        ∙ ap ok (append_assoc front (n ∷ []) ((c ∷ cs) ++ back))))

pub marshal-encode : (g : Goodbye) → IsValid g → marshal g ≡ ok (encode g)
unfolding marshal encode
marshal-encode g v =
    let n = length g.sources in
    let tail = 0 ∷ (make (length g.reason) ++ make (padding g)) in
    let room : length (make (n * 4)) ≡ 4 * n = length-replicate (n * 4) 0 ∙ omega arith in
    let put_words = put_uint32s-append (make 4) 4 g.sources (make (n * 4)) tail refl room in
    let behind : 4 + n * 4 ≡ length (make 4 ++ words g.sources) =
      omega (arith, length-append (make 4) (words g.sources), length-words g.sources) in
    rw (le→ltb_false 31 n v.few_sources, make_parts g, put_words)
      (rw (← append_assoc (make 4) (words g.sources) tail) (
        rw
          (
            put_reason-append (make 4 ++ words g.sources) (n * 4) g.reason (make (padding g)) behind
                v.short_reason,
            Wire.marshal-encode (header g) (header-IsValid g v),
            append_assoc (make 4) (words g.sources),
          )
          (ap ok (Wire.copy-encode (header g) _))))

pub header_of : (g : Goodbye) → IsValid g → Header.unmarshal (encode g) ≡ ok (header g)
unfolding encode
header_of g v = Wire.unmarshal-encode (header g) _ (header-IsValid g v)

pub length-encode : (g : Goodbye) → length (encode g) ≡ len g
unfolding encode len
length-encode g =
    let tail = length g.reason ∷ (g.reason ++ make (padding g)) in
    omega (
      arith,
      Wire.length-encode (header g) (words g.sources ++ tail),
      length-append (words g.sources) tail,
      length-words g.sources,
      length-append g.reason (make (padding g)),
      length-make (padding g),
    )

reason_at-append :
    (front : Bytes) (i : ℕ) (reason back : Bytes)
    → i ≡ length front
    → reason_at (front ++ (length reason ∷ (reason ++ back))) i ≡ ok reason
unfolding reason_at
reason_at-append front i reason back e =
    let n = length reason in
    let fits : i + 1 + n ≤ length (front ++ (n ∷ (reason ++ back))) =
      omega (arith, length-append front (n ∷ (reason ++ back)), length-append reason back) in
    rw (index_at front i n (reason ++ back) e, le→ltb_false _ (i + 1 + n) fits)
      (rw (← append_assoc front (n ∷ []) (reason ++ back)) (
        slice_at (front ++ (n ∷ [])) reason back (i + 1) (i + 1 + n)
          (omega (arith, length-append front (n ∷ []))) refl))

sources_of : (g : Goodbye) → IsValid g → uint32s_at (length g.sources) (encode g) 4 ≡ ok g.sources
unfolding encode
sources_of g v =
    uint32s_at-append (Wire.encode (header g)) 4 g.sources _
      (sym (Wire.length-encode_only (header g))) v.sources_typed

-- The reason is always read, since its length byte is always written.
reason_of :
    (g : Goodbye) (old : Bytes)
    → read_reason (encode g) (4 + length g.sources * 4) old ≡ ok g.reason
unfolding read_reason encode
reason_of g old =
    let front = Wire.encode (header g) ++ words g.sources in
    let tail = length g.reason ∷ (g.reason ++ make (padding g)) in
    let behind : 4 + length g.sources * 4 ≡ length front = omega (
      arith,
      length-append (Wire.encode (header g)) (words g.sources),
      Wire.length-encode_only (header g),
      length-words g.sources,
    ) in
    rw
      (
        ← append_assoc (Wire.encode (header g)) (words g.sources) tail,
        lt→ltb (4 + length g.sources * 4) (length (front ++ tail))
            (omega (arith, length-append front tail)),
      )
      (reason_at-append front _ g.reason (make (padding g)) behind)

-- A valid goodbye is read back from its bytes, whatever the packet held before.
pub unmarshal-encode : (g0 g : Goodbye) → IsValid g → unmarshal g0 (encode g) ≡ ok g
unfolding unmarshal header
unmarshal-encode g0 g v =
    let n = length g.sources in
    let count : to_uint8 n ≡ n = omega (arith, v.few_sources) in
    let offset : to_uint8 (4 + to_uint8 (n * 4)) ≡ 4 + n * 4 = omega (arith, v.few_sources) in
    let whole : get_padding (length (encode g)) ≡ 0 =
      rw length-encode (get_padding_of_multiple (len g) (len_bounds g v).0) in
    let long : 4 + n * 4 ≤ length (encode g) = rw length-encode (unfold len in omega arith) in
    rw (
      header_of g v,
      whole,
      count,
      offset,
      le→ltb_false (length (encode g)) (4 + n * 4) long,
      sources_of g v,
      reason_of g g0.reason,
    )

-- A goodbye with at most 31 sources of 32 bits and a reason of at most 255 bytes is written, and
-- read back from the written bytes, whatever goodbye stood in the packet read into.
pub unmarshal-marshal_goodbye : (g0 g : Goodbye) → IsValid g → (marshal g >>= unmarshal g0) ≡ ok g
unmarshal-marshal_goodbye g0 g v = rw (marshal-encode g v) (unmarshal-encode g0 g v)
