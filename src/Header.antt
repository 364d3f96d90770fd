-- ===== src/Header.antt =====
-- header.go: the four bytes that begin every packet.
pub mod Wire
pub mod Reading
pub mod RoundTrip
pub mod Names
pub mod Written
use rtcp.Prelude.{
  ℕ, ◌+◌, ◌-◌, ◌*◌, ◌/◌, ◌%◌, ◌^◌, ◌<◌, ◌≤◌, bit_and, bit_or, Bool, ltb, not, ◌==◌, if◌then◌else◌,
  length, [], ◌∷◌,
}
use rtcp.Result.{
  Result, ok, err, panic, ◌>>=◌, ◌>>◌, fail_if, err_invalid_header, err_packet_too_short,
  err_bad_version,
}
use rtcp.Bytes.{Bytes, make, slice_from, index, set, put, uint16, be16}

-- `PacketType`, a uint8, and its registered values.
abbrev pub PacketType : Type 0
PacketType = ℕ

abbrev pub type_sender_report : PacketType
type_sender_report = 200

abbrev pub type_receiver_report : PacketType
type_receiver_report = 201

abbrev pub type_source_description : PacketType
type_source_description = 202

abbrev pub type_goodbye : PacketType
type_goodbye = 203

abbrev pub type_transport_specific_feedback : PacketType
type_transport_specific_feedback = 205

abbrev pub type_payload_specific_feedback : PacketType
type_payload_specific_feedback = 206

-- The feedback formats, which stand in the count field.
abbrev pub format_sli : ℕ
format_sli = 2

abbrev pub format_pli : ℕ
format_pli = 1

abbrev pub format_tln : ℕ
format_tln = 1

abbrev pub format_rrr : ℕ
format_rrr = 5

abbrev pub format_remb : ℕ
format_remb = 15

abbrev pub format_tcc : ℕ
format_tcc = 15

abbrev pub rtp_version : ℕ
rtp_version = 2

abbrev pub header_length : ℕ
header_length = 4

-- receiver_report.go declares it, and every packet uses it.
abbrev pub ssrc_length : ℕ
ssrc_length = 4

abbrev pub version_shift : ℕ
version_shift = 6

abbrev pub version_mask : ℕ
version_mask = 0x3

abbrev pub padding_shift : ℕ
padding_shift = 5

abbrev pub padding_mask : ℕ
padding_mask = 0x1

abbrev pub count_shift : ℕ
count_shift = 0

abbrev pub count_mask : ℕ
count_mask = 0x1f

abbrev pub count_max : ℕ
count_max = 1 * 2 ^ 5 - 1

pub record Header : Type 0 where
  pub padding : Bool
  pub count : ℕ
  pub type : PacketType
  pub length : ℕ

-- The fields fit their Go types, and the count its five bits.
pub record IsValid (h : Header) : Type 0 where
  pub count_bound : h.count ≤ 31
  pub type_bound : h.type < 2 ^ 8
  pub length_bound : h.length < 2 ^ 16

-- The first byte before the count is or-ed in.
abbrev leading : Bool → ℕ
leading padding =
    let version = bit_or 0 (rtp_version * 2 ^ version_shift) in
    if padding then bit_or version (1 * 2 ^ padding_shift) else version

-- `(h Header) Marshal`
unfoldable pub marshal : Header → Result Bytes
unfolding put
marshal h = do
  let first = leading h.padding
  fail_if (ltb 31 h.count) err_invalid_header
  raw ← set (make header_length) 0 (bit_or first (h.count * 2 ^ count_shift % 2 ^ 8))
  raw ← set raw 1 (h.type % 2 ^ 8)
  put raw 2 (be16 h.length)

-- `(h *Header) Unmarshal`. Every field is assigned, so the header there before does not matter.
unfoldable pub unmarshal : Bytes → Result Header
unfolding index slice_from uint16
unmarshal raw = do
  fail_if (ltb (length raw) header_length) err_packet_too_short
  first ← index raw 0
  fail_if (not (bit_and (first / 2 ^ version_shift) version_mask == rtp_version)) err_bad_version
  type ← index raw 1
  rest ← slice_from raw 2
  size ← uint16 rest
  ok (record {
    padding = ltb 0 (bit_and (first / 2 ^ padding_shift) padding_mask);
    count = bit_and (first / 2 ^ count_shift) count_mask;
    type = type;
    length = size;
  })
