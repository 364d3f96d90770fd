-- ===== src/Reception.antt =====
-- reception_report.go: the 24-byte block that sender and receiver reports carry.
pub mod RoundTrip
pub mod Blocks
pub mod Reading
pub mod Writing
use rtcp.Prelude.{ℕ, ◌+◌, ◌*◌, ◌/◌, ◌%◌, ◌^◌, ◌<◌, bit_or, ltb, leb, length, List, [], ◌∷◌, ◌++◌}
use rtcp.Result.{
  Result, ok, err, panic, ◌>>=◌, ◌>>◌, fail_if, err_invalid_total_lost, err_packet_too_short,
}
use rtcp.Bytes.{
  Bytes, IsUint32, to_uint8, make, slice_from, index, set, put, copy_at, uint32, uint32_at, be32,
}

pub record ReceptionReport : Type 0 where
  pub ssrc : ℕ
  pub fraction_lost : ℕ
  pub total_lost : ℕ
  pub last_sequence_number : ℕ
  pub jitter : ℕ
  pub last_sender_report : ℕ
  pub delay : ℕ

-- The fields fit their Go types.
pub record IsTyped (r : ReceptionReport) : Type 0 where
  pub ssrc_bound : IsUint32 r.ssrc
  pub fraction_lost_bound : r.fraction_lost < 2 ^ 8
  pub total_lost_bound : IsUint32 r.total_lost
  pub last_sequence_number_bound : IsUint32 r.last_sequence_number
  pub jitter_bound : IsUint32 r.jitter
  pub last_sender_report_bound : IsUint32 r.last_sender_report
  pub delay_bound : IsUint32 r.delay

abbrev pub reception_report_length : ℕ
reception_report_length = 24

abbrev pub fraction_lost_offset : ℕ
fraction_lost_offset = 4

abbrev pub total_lost_offset : ℕ
total_lost_offset = 5

abbrev pub last_seq_offset : ℕ
last_seq_offset = 8

abbrev pub jitter_offset : ℕ
jitter_offset = 12

abbrev pub last_sr_offset : ℕ
last_sr_offset = 16

abbrev pub delay_offset : ℕ
delay_offset = 20

-- `(r ReceptionReport) Marshal`. `tlBytes` shares the packet's bytes from `totalLostOffset` on.
unfoldable pub marshal : ReceptionReport → Result Bytes
unfolding put
marshal r = do
  raw ← put (make reception_report_length) 0 (be32 r.ssrc)
  raw ← set raw fraction_lost_offset r.fraction_lost
  fail_if (leb (1 * 2 ^ 25) r.total_lost) err_invalid_total_lost
  raw ← set raw (total_lost_offset + 0) (to_uint8 (r.total_lost / 2 ^ 16))
  raw ← set raw (total_lost_offset + 1) (to_uint8 (r.total_lost / 2 ^ 8))
  raw ← set raw (total_lost_offset + 2) (to_uint8 r.total_lost)
  raw ← put raw last_seq_offset (be32 r.last_sequence_number)
  raw ← put raw jitter_offset (be32 r.jitter)
  raw ← put raw last_sr_offset (be32 r.last_sender_report)
  put raw delay_offset (be32 r.delay)

-- `(r *ReceptionReport) Unmarshal`. Every field is assigned.
unfoldable pub unmarshal : Bytes → Result ReceptionReport
unfolding index slice_from uint32 uint32_at
unmarshal raw = do
  fail_if (ltb (length raw) reception_report_length) err_packet_too_short
  ssrc ← uint32 raw
  fraction_lost ← index raw fraction_lost_offset
  tl_bytes ← slice_from raw total_lost_offset
  high ← index tl_bytes 0
  middle ← index tl_bytes 1
  low ← index tl_bytes 2
  last_sequence_number ← uint32_at raw last_seq_offset
  jitter ← uint32_at raw jitter_offset
  last_sender_report ← uint32_at raw last_sr_offset
  delay ← uint32_at raw delay_offset
  ok (record {
    ssrc = ssrc;
    fraction_lost = fraction_lost;
    total_lost = bit_or (bit_or low (middle * 2 ^ 8)) (high * 2 ^ 16);
    last_sequence_number = last_sequence_number;
    jitter = jitter;
    last_sender_report = last_sender_report;
    delay = delay;
  })

-- `(r *ReceptionReport) len`
unfoldable pub len : ReceptionReport → ℕ
len r = reception_report_length

-- The sum of `rep.len()` over the reports.
unfoldable pub reports_len : List ReceptionReport → ℕ
unfolding len
reports_len [] = 0
reports_len (r ∷ reports) = len r + reports_len reports

-- The loop over the reports in the `Marshal` of both packets: `i` is the offset in the whole packet.
unfoldable pub marshal_reports : Bytes → ℕ → List ReceptionReport → Result Bytes
marshal_reports raw i [] = ok raw
marshal_reports raw i (r ∷ reports) = do
  block ← marshal r
  raw' ← copy_at raw i block
  marshal_reports raw' (i + reception_report_length) reports
