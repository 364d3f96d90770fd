-- ===== src/Goodbye.antt =====
-- goodbye.go: the packet that says which sources leave, and why. A Go string is the list of its bytes.
pub mod RoundTrip
pub mod Reading
pub mod Writing
use rtcp.Prelude.{
  ℕ, ◌+◌, ◌-◌, ◌*◌, ◌/◌, ◌%◌, ◌^◌, Bool, true, false, not, ltb, ◌==◌, if◌then◌else◌, length, List,
  [], ◌∷◌,
}
use rtcp.Result.{
  Result, ok, ◌>>=◌, ◌>>◌, fail_if, err_too_many_sources, err_reason_too_long, err_wrong_type,
  err_packet_too_short,
}
use rtcp.Bytes.{
  Bytes, to_uint8, to_uint16, make, index, slice, set, copy, copy_at, put_uint32s, uint32s_at,
}
use rtcp.Util.{get_padding}
use rtcp.Header
use rtcp.Header.{Header, header_length, ssrc_length, count_max, type_goodbye}

pub record Goodbye : Type 0 where
  pub sources : List ℕ
  pub reason : Bytes

-- source_description.go declares it.
abbrev pub sdes_max_octet_count : ℕ
sdes_max_octet_count = 1 * 2 ^ 8 - 1

-- `(g *Goodbye) len`
unfoldable pub len : Goodbye → ℕ
len g =
    let l = header_length + length g.sources * ssrc_length + (length g.reason + 1) in
    l + get_padding l

-- `(g *Goodbye) Header`
unfoldable pub header : Goodbye → Header
header g = record {
  padding = false;
  count = to_uint8 (length g.sources);
  type = type_goodbye;
  length = to_uint16 (len g / 4 - 1);
}

-- `if g.Reason != "" { … }`, on the whole packet and the offset in its body.
unfoldable pub put_reason : Bytes → ℕ → Bytes → Result Bytes
put_reason raw reason_offset [] = ok raw
put_reason raw reason_offset (c ∷ cs) = do
  let reason = c ∷ cs
  fail_if (ltb sdes_max_octet_count (length reason)) err_reason_too_long
  raw ← set raw (header_length + reason_offset) (to_uint8 (length reason))
  copy_at raw (header_length + (reason_offset + 1)) reason

-- `(g Goodbye) Marshal`. `packetBody` shares the bytes behind the header.
unfoldable pub marshal : Goodbye → Result Bytes
marshal g = do
  let raw = make (len g)
  fail_if (ltb count_max (length g.sources)) err_too_many_sources
  raw ← put_uint32s raw header_length g.sources
  raw ← put_reason raw (length g.sources * ssrc_length) g.reason
  h_data ← Header.marshal (header g)
  ok (copy raw h_data)

-- The reason that stands at `reasonOffset`: its length, then its bytes.
unfoldable pub reason_at : Bytes → ℕ → Result Bytes
reason_at raw reason_offset = do
  reason_len ← index raw reason_offset
  let reason_end = reason_offset + 1 + reason_len
  fail_if (ltb (length raw) reason_end) err_packet_too_short
  slice raw (reason_offset + 1) reason_end

-- `if reasonOffset < len(rawPacket) { … }`; `old` is the reason there before.
unfoldable pub read_reason : Bytes → ℕ → Bytes → Result Bytes
read_reason raw reason_offset old =
    if ltb reason_offset (length raw) then reason_at raw reason_offset else ok old

-- `(g *Goodbye) Unmarshal`: `g` is the packet there before, whose reason stays if none is read.
-- `header.Count*ssrcLength` is a uint8.
unfoldable pub unmarshal : Goodbye → Bytes → Result Goodbye
unmarshal g raw = do
  h ← Header.unmarshal raw
  fail_if (not (h.type == type_goodbye)) err_wrong_type
  fail_if (not (get_padding (length raw) == 0)) err_packet_too_short
  let reason_offset = to_uint8 (header_length + to_uint8 (h.count * ssrc_length))
  fail_if (ltb (length raw) reason_offset) err_packet_too_short
  sources ← uint32s_at h.count raw header_length
  reason ← read_reason raw reason_offset g.reason
  ok (record { sources = sources; reason = reason })

-- `(g *Goodbye) DestinationSSRC`
unfoldable pub destination_ssrc : Goodbye → List ℕ
destination_ssrc g = copy (make (length g.sources)) g.sources
