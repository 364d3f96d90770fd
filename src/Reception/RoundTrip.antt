-- ===== src/Reception/RoundTrip.antt =====
-- The 24 bytes of a report, and what is read back from them.
use rtcp.Prelude.{
  ℕ, ◌+◌, ◌-◌, ◌*◌, ◌/◌, ◌%◌, ◌^◌, ◌≤◌, ◌<◌, ◌≡◌, ◌↔◌, ◌∙◌, refl, ap, arith, bit_or, leb, length,
  [], ◌∷◌, ◌++◌, All, le→ltb_false, false, append-nil, nil_of_length, length-append, sym,
}
use native.Mathlib.Nat.{mod-eq_of_lt}
use rtcp.Prelude.Bits.{bit_or_shift}
use rtcp.Result.{ok, err, ◌>>=◌, err_invalid_total_lost}
use rtcp.Bytes.{Bytes, IsByte, IsUint32, be32}
use rtcp.Bytes.Laws.{be32_value}
use rtcp.Bytes.Words.{Word, first-Word, joined}
use rtcp.Reception.{ReceptionReport, IsTyped, marshal, unmarshal}

unfoldable pub encode : ReceptionReport → Bytes
unfolding be32
encode r =
    be32 r.ssrc
    ++ (r.fraction_lost
        ∷ r.total_lost / 2 ^ 16 % 2 ^ 8
        ∷ r.total_lost / 2 ^ 8 % 2 ^ 8
        ∷ r.total_lost % 2 ^ 8
        ∷ (be32 r.last_sequence_number
            ++ (be32 r.jitter ++ (be32 r.last_sender_report ++ be32 r.delay))))

pub length-encode : (r : ReceptionReport) → length (encode r) ≡ 24
unfolding encode
length-encode r = refl

pub marshal-encode : (r : ReceptionReport) → r.total_lost < 2 ^ 25 → marshal r ≡ ok (encode r)
unfolding marshal encode
marshal-encode r h = let e : leb (2 ^ 25) r.total_lost ≡ false = ground arith in rw e

or_bytes :
    (low middle high : ℕ)
    → IsByte low
    → IsByte middle
    → bit_or (bit_or low (middle * 2 ^ 8)) (high * 2 ^ 16) ≡ low + middle * 2 ^ 8 + high * 2 ^ 16
or_bytes low middle high hl hm =
    rw (bit_or_shift 8 middle low hl) (bit_or_shift 16 high _ (omega arith))

total_lost_bytes :
    (t : ℕ) → t % 2 ^ 8 + t / 2 ^ 8 % 2 ^ 8 * 2 ^ 8 + t / 2 ^ 16 % 2 ^ 8 * 2 ^ 16 ≡ t % 2 ^ 24
total_lost_bytes t = omega arith

-- Only the low 24 bits of the total come back.
pub unmarshal-encode :
    (r : ReceptionReport) (rest : Bytes)
    → IsTyped r
    → unmarshal (encode r ++ rest) ≡ ok (record r { total_lost = r.total_lost % 2 ^ 24 })
unfolding unmarshal encode
unmarshal-encode r rest t =
    let t3 : IsByte (r.total_lost % 2 ^ 8) = omega arith in
    let t2 : IsByte (r.total_lost / 2 ^ 8 % 2 ^ 8) = omega arith in
    rw (
      le→ltb_false (length (encode r ++ rest)) 24 (omega arith),
      or_bytes _ _ (r.total_lost / 2 ^ 16 % 2 ^ 8) t3 t2,
      total_lost_bytes r.total_lost,
      be32_value r.ssrc t.ssrc_bound,
      be32_value r.last_sequence_number t.last_sequence_number_bound,
      be32_value r.jitter t.jitter_bound,
      be32_value r.last_sender_report t.last_sender_report_bound,
      be32_value r.delay t.delay_bound,
    )

pub unmarshal-encode_exact :
    (r : ReceptionReport) (rest : Bytes)
    → IsTyped r
    → r.total_lost < 2 ^ 24
    → unmarshal (encode r ++ rest) ≡ ok r
unmarshal-encode_exact r rest t h = unmarshal-encode r rest t ∙ rw (mod-eq_of_lt h)

-- A report whose total fits 24 bits is written, and read back whatever bytes follow it.
pub unmarshal-marshal_report :
    (r : ReceptionReport) (rest : Bytes)
    → IsTyped r
    → r.total_lost < 2 ^ 24
    → (marshal r >>= λ raw. unmarshal (raw ++ rest)) ≡ ok r
unmarshal-marshal_report r rest t h =
    rw (marshal-encode r (omega arith), unmarshal-encode r rest t, mod-eq_of_lt h)

-- The guard of `Marshal` lets a total of 25 bits pass: it is written with no error, and 2 ^ 24 less
-- is read back.
pub marshal_report_overflow :
    (r : ReceptionReport) (rest : Bytes)
    → IsTyped r
    → 2 ^ 24 ≤ r.total_lost
    → r.total_lost < 2 ^ 25
    → (marshal r >>= λ raw. unmarshal (raw ++ rest))
      ≡ ok (record r { total_lost = r.total_lost - 2 ^ 24 })
marshal_report_overflow r rest t lo hi =
    let low : r.total_lost % 2 ^ 24 ≡ r.total_lost - 2 ^ 24 = omega arith in
    rw (marshal-encode r hi, unmarshal-encode r rest t, low)

-- `Marshal` fails exactly when the total lost is 2 ^ 25 or more.
pub marshal_report_invalid :
    (r : ReceptionReport) → (marshal r ≡ err err_invalid_total_lost) ↔ (2 ^ 25 ≤ r.total_lost)
unfolding marshal be32
marshal_report_invalid r = ground arith

-- The report that 24 bytes or more stand for.
pub record Block (raw : Bytes) : Type 0 where
  pub report : ReceptionReport
  pub typed : IsTyped report
  pub total_fits : report.total_lost < 2 ^ 24
  pub rest : Bytes
  pub rest_bytes : All IsByte rest
  pub splits : raw ≡ encode report ++ rest

-- The second word holds the fraction and the total.
encode_words :
    (r : ReceptionReport) (v : ℕ) (rest : Bytes)
    → IsUint32 v
    → r.fraction_lost ≡ v / 2 ^ 24
    → r.total_lost ≡ v % 2 ^ 24
    → be32 r.ssrc
        ++ (be32 v
            ++ (be32 r.last_sequence_number
                ++ (be32 r.jitter ++ (be32 r.last_sender_report ++ (be32 r.delay ++ rest)))))
      ≡ encode r ++ rest
unfolding encode
encode_words r v rest h f t =
    let e3 : v / 2 ^ 24 % 256 ≡ r.fraction_lost = omega arith in
    let e2 : v / 2 ^ 16 % 256 ≡ r.total_lost / 2 ^ 16 % 2 ^ 8 = omega arith in
    let e1 : v / 2 ^ 8 % 256 ≡ r.total_lost / 2 ^ 8 % 2 ^ 8 = omega arith in
    let e0 : v % 256 ≡ r.total_lost % 2 ^ 8 = omega arith in rw (e3, e2, e1, e0)

words-Block :
    {raw : Bytes} (w0 : Word 20 raw) (w1 : Word 16 w0.rest) (w2 : Word 12 w1.rest)
    (w3 : Word 8 w2.rest) (w4 : Word 4 w3.rest) (w5 : Word 0 w4.rest)
    → Block raw
words-Block w0 w1 w2 w3 w4 w5 =
    let r : ReceptionReport = record {
      ssrc = w0.value;
      fraction_lost = w1.value / 2 ^ 24;
      total_lost = w1.value % 2 ^ 24;
      last_sequence_number = w2.value;
      jitter = w3.value;
      last_sender_report = w4.value;
      delay = w5.value;
    } in
    record {
      report = r;
      typed = record {
        ssrc_bound = w0.bound;
        fraction_lost_bound = omega (arith, w1.bound);
        total_lost_bound = omega arith;
        last_sequence_number_bound = w2.bound;
        jitter_bound = w3.bound;
        last_sender_report_bound = w4.bound;
        delay_bound = w5.bound;
      };
      total_fits = omega arith;
      rest = w5.rest;
      rest_bytes = w5.rest_bytes;
      splits =
          joined w0 (joined w1 (joined w2 (joined w3 (joined w4 (joined w5 refl)))))
          ∙ encode_words r w1.value w5.rest w1.bound refl refl;
    }

pub first-Block : (raw : Bytes) → All IsByte raw → 24 ≤ length raw → Block raw
first-Block raw w h =
    let w0 = first-Word 20 raw w h in
    let w1 = first-Word 16 w0.rest w0.rest_bytes w0.room in
    let w2 = first-Word 12 w1.rest w1.rest_bytes w1.room in
    let w3 = first-Word 8 w2.rest w2.rest_bytes w2.room in
    let w4 = first-Word 4 w3.rest w3.rest_bytes w3.room in
    words-Block w0 w1 w2 w3 w4 (first-Word 0 w4.rest w4.rest_bytes w4.room)

-- 24 bytes that are read as a report are written again as they were.
pub marshal-unmarshal_report :
    (raw : Bytes) → All IsByte raw → length raw ≡ 24 → (unmarshal raw >>= marshal) ≡ ok raw
marshal-unmarshal_report raw w h =
    let b = first-Block raw w (omega arith) in
    let total = ap length b.splits ∙ length-append (encode b.report) b.rest in
    let none : b.rest ≡ [] = nil_of_length b.rest (omega (arith, total, length-encode b.report)) in
    let whole : encode b.report ≡ raw =
      sym (b.splits ∙ ap (λ t. encode b.report ++ t) none ∙ append-nil _) in
    ap (λ t. unmarshal t >>= marshal) b.splits
    ∙ rw
        (
          unmarshal-encode b.report b.rest b.typed,
          mod-eq_of_lt b.total_fits,
          marshal-encode b.report (omega (arith, b.total_fits)),
        )
        (ap ok whole)
