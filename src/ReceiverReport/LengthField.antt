-- ===== src/ReceiverReport/LengthField.antt =====
-- The length field of the header against the bytes that are written.
use rtcp.Prelude.{◌+◌, ◌*◌, ◌≤◌, ◌≡◌, ◌↔◌, arith, length}
use rtcp.Result.{ok}
use rtcp.Bytes.{Bytes}
use rtcp.Util.{get_padding}
use rtcp.Util.Laws.{get_padding_lem}
use rtcp.Reception.Blocks.{reports_len-eq}
use rtcp.ReceiverReport.{ReceiverReport, len, header, marshal}
use rtcp.ReceiverReport.RoundTrip.{IsValid, marshal-encode, length-encode, encode}

pub length_field :
    (r : ReceiverReport)
    → length r.reports ≤ 31
    → 4 * ((header r).length + 1)
      ≡ 8 + 24 * length r.reports + 4 * get_padding (length r.profile_extensions)
unfolding header len
length_field r h =
    omega (arith, h, reports_len-eq r.reports, get_padding_lem (length r.profile_extensions))

-- For a valid report, the length field of the header counts the words of the written bytes exactly
-- when the profile extensions are three times as long as the zeros that pad them: extensions of 0,
-- 3, 6 or 9 bytes. The code adds the count of zeros where the count of extension words belongs.
pub receiver_report_length_field :
    (r : ReceiverReport) (raw : Bytes)
    → IsValid r
    → marshal r ≡ ok raw
    → (4 * ((header r).length + 1) ≡ length raw)
      ↔ (length r.profile_extensions ≡ 3 * get_padding (length r.profile_extensions))
receiver_report_length_field r raw v e =
    let same : encode r ≡ raw = grind (arith, e, marshal-encode r v) in
    let size = length-encode r in
    let field = length_field r v.few_reports in
    rw (← same) (omega (arith, size, field), omega (arith, size, field))
