-- ===== src/SliceLossIndication.antt =====
-- slice_loss_indication.go: which macroblocks of which picture are lost.
pub mod RoundTrip
pub mod Reading
pub mod Writing
use rtcp.Prelude.{
  ℕ, ◌+◌, ◌-◌, ◌*◌, ◌/◌, ◌%◌, ◌^◌, ◌<◌, bit_and, bit_or, false, not, ◌||◌, ltb, ◌==◌, length, map,
  List, [], ◌∷◌, ◌++◌,
}
use rtcp.Result.{
  Result, ok, ◌>>=◌, ◌>>◌, fail_if, err_too_many_reports, err_packet_too_short, err_wrong_type,
}
use rtcp.Bytes.{
  Bytes, IsUint32, to_uint8, to_uint16, make, put, uint32_at, uint32s_at, put_uint32s, be32, rounds,
}
use rtcp.Header
use rtcp.Header.{Header, header_length, ssrc_length, format_sli, type_transport_specific_feedback}

pub record SliEntry : Type 0 where
  pub first : ℕ
  pub number : ℕ
  pub picture : ℕ

pub record SliceLossIndication : Type 0 where
  pub sender_ssrc : ℕ
  pub media_ssrc : ℕ
  pub sli : List SliEntry

abbrev pub sli_length : ℕ
sli_length = 2

abbrev pub sli_offset : ℕ
sli_offset = 8

-- The word of an entry, a uint32: 13 bits, 13 bits and 6 bits.
unfoldable pub pack : SliEntry → ℕ
pack s =
    bit_or
      (bit_or (bit_and s.first 0x1fff * 2 ^ 19 % 2 ^ 32) (bit_and s.number 0x1fff * 2 ^ 6 % 2 ^ 32))
      (bit_and s.picture 0x3f)

-- The entry of a word.
unfoldable pub unpack : ℕ → SliEntry
unpack sli = record {
  first = to_uint16 (bit_and (sli / 2 ^ 19) 0x1fff);
  number = to_uint16 (bit_and (sli / 2 ^ 6) 0x1fff);
  picture = to_uint8 (bit_and sli 0x3f);
}

-- `(p *SliceLossIndication) len`
unfoldable pub len : SliceLossIndication → ℕ
len p = header_length + sli_offset + length p.sli * 4

-- `(p *SliceLossIndication) Header`
unfoldable pub header : SliceLossIndication → Header
header p = record {
  padding = false;
  count = format_sli;
  type = type_transport_specific_feedback;
  length = to_uint16 (len p / 4 - 1);
}

-- `(p SliceLossIndication) Marshal`: the bytes behind the header are made first.
unfoldable pub marshal : SliceLossIndication → Result Bytes
marshal p = do
  fail_if (ltb 255 (length p.sli + sli_length)) err_too_many_reports
  raw ← put (make (sli_offset + length p.sli * 4)) 0 (be32 p.sender_ssrc)
  raw ← put raw 4 (be32 p.media_ssrc)
  raw ← put_uint32s raw sli_offset (map pack p.sli)
  h_data ← Header.marshal (header p)
  ok (h_data ++ raw)

-- `(p *SliceLossIndication) Unmarshal`: `p` is the packet there before, whose entries stay in
-- front. `4*h.Length` is a uint16.
unfoldable pub unmarshal : SliceLossIndication → Bytes → Result SliceLossIndication
unmarshal p raw = do
  fail_if (ltb (length raw) (header_length + ssrc_length)) err_packet_too_short
  h ← Header.unmarshal raw
  fail_if (ltb (length raw) (header_length + to_uint16 (4 * h.length))) err_packet_too_short
  fail_if (not (h.type == type_transport_specific_feedback) || not (h.count == format_sli))
      err_wrong_type
  sender_ssrc ← uint32_at raw header_length
  media_ssrc ← uint32_at raw (header_length + ssrc_length)
  let begin = header_length + sli_offset
  words ← uint32s_at (rounds begin (header_length + to_uint16 (h.length * 4))) raw begin
  ok (record {
    sender_ssrc = sender_ssrc;
    media_ssrc = media_ssrc;
    sli = p.sli ++ map unpack words;
  })

-- `(p *SliceLossIndication) DestinationSSRC`
unfoldable pub destination_ssrc : SliceLossIndication → List ℕ
destination_ssrc p = p.media_ssrc ∷ []
