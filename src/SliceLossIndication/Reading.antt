-- ===== src/SliceLossIndication/Reading.antt =====
-- `SliceLossIndication.Unmarshal` on arbitrary bytes.
use rtcp.Prelude.{
  ◌↔◌, le→ltb_false, ℕ, ◌+◌, ◌*◌, ◌^◌, ◌/◌, ◌≤◌, ◌≡◌, ◌<◌, refl, arith, length, map, All, List, [],
  ◌∷◌, not, ◌==◌, ◌||◌, ◌⊎◌, inl, inr,
}
use rtcp.Prelude.Bits.{bit_and_mask}
use rtcp.Result.{ok, panic, err_wrong_type}
use rtcp.Outcome.{
  Ends-panic, Ends, Ends-ok, Ends-bind, Ends-bind_eq, Ends-weaken, too_short-Ends, fail_if-Ends,
}
use rtcp.Bytes.{Bytes, IsByte, IsUint32, to_uint16, rounds, uint32s_at}
use rtcp.Bytes.Reads.{uint32_at_ok, uint32_at_panic}
use rtcp.Bytes.Outcome.{uint32_at-Ends, uint32_at-Ends_or, uint32s_at-Ends}
use rtcp.Header
use rtcp.Header.{Header}
use rtcp.Header.Reading as HeaderReading
use rtcp.SliceLossIndication.{SliceLossIndication, unpack, unmarshal}
use rtcp.SliceLossIndication.RoundTrip.{Fits}

-- The fields of the packet fit their Go types, and those of its entries their bits.
pub record IsTyped (p : SliceLossIndication) : Type 0 where
  pub sender_bound : IsUint32 p.sender_ssrc
  pub media_bound : IsUint32 p.media_ssrc
  pub entries_fit : All Fits p.sli

unpack-Fits : (word : ℕ) → Fits (unpack word)
unfolding unpack
unpack-Fits word = record {
  first_bound = rw (bit_and_mask 13 (word / 2 ^ 19)) (omega arith);
  number_bound = rw (bit_and_mask 13 (word / 2 ^ 6)) (omega arith);
  picture_bound = rw (bit_and_mask 6 word) (omega arith);
}

unpack_all-Fits : (words : List ℕ) → All Fits (map unpack words)
unpack_all-Fits [] = tt
unpack_all-Fits (w ∷ words) = (unpack-Fits w, unpack_all-Fits words)

words-Ends :
    {panics : Type 0} (n : ℕ) (raw : Bytes) (i : ℕ)
    → All IsByte raw
    → n ≡ 0 ⊎ i + 4 * n ≤ length raw
    → Ends panics (λ ws. Unit {0}) (uint32s_at n raw i)
words-Ends n raw i w (inr fits) = Ends-weaken _ _ _ (λ _ _. tt) (uint32s_at-Ends n raw i w fits)
words-Ends n raw i w (inl none) = unfold uint32s_at in rw none (Ends-ok _ [] tt)

-- A packet that its header says to be transport specific feedback.
pub record IsFeedback (raw : Bytes) : Type 0 where
  pub header : Header
  pub reads : Header.unmarshal raw ≡ ok header
  pub type : header.type ≡ 205

-- What makes the reader panic: eight to eleven bytes, with a header of this packet that counts no more
-- than there are.
pub record IsShort (raw : Bytes) : Type 0 where
  pub header : Header
  pub reads : Header.unmarshal raw ≡ ok header
  pub type : header.type ≡ 205
  pub format : header.count ≡ 2
  pub fits : 4 + to_uint16 (4 * header.length) ≤ length raw
  pub long : 8 ≤ length raw
  pub short : length raw < 12

-- What was read: typed, and from bytes of that header.
pub record IsRead (raw : Bytes) (p : SliceLossIndication) : Type 0 where
  pub typed : IsTyped p
  pub feedback : IsFeedback raw

pub unmarshal-Ends :
    (raw : Bytes)
    → All IsByte raw
    → Ends
        (IsShort raw)
        (IsRead raw)
        (unmarshal (record { sender_ssrc = 0; media_ssrc = 0; sli = [] }) raw)
unfolding unmarshal
unmarshal-Ends raw w = Ends-bind (too_short-Ends (length raw) 8 _) λ _ long.
    Ends-bind_eq (HeaderReading.unmarshal-Ends raw w) λ h read hh.
      Ends-bind (too_short-Ends (length raw) (4 + to_uint16 (4 * h.length)) _) λ _ fits.
        Ends-bind (fail_if-Ends (not (h.type == 205) || not (h.count == 2)) err_wrong_type)
          λ _ typed.
            let from : IsFeedback raw = record {
              header = h;
              reads = read;
              type = ground (arith, typed);
            } in
            Ends-bind (uint32_at-Ends raw 4 w (omega (arith, long))) λ sender hs.
              Ends-bind
                (uint32_at-Ends_or raw 8 w (λ out. record {
                  header = h;
                  reads = read;
                  type = from.type;
                  format = ground (arith, typed);
                  fits = fits;
                  long = long;
                  short = omega (arith, out);
                }))
                λ media hm.
                  Ends-bind
                    (words-Ends (rounds 12 (4 + to_uint16 (h.length * 4))) raw 12 w
                      (omega (arith, fits)))
                    λ words _. Ends-ok (IsRead raw) _ (record {
                      typed = record {
                        sender_bound = hs;
                        media_bound = hm;
                        entries_fit = unpack_all-Fits words;
                      };
                      feedback = from;
                    })

-- From eight to eleven bytes, with a header that is one of this packet and counts no more than there
-- are, make the reader panic: it reads the media SSRC behind the eight bytes that it checked for.
pub unmarshal_short_panic :
    (p : SliceLossIndication) (raw : Bytes) (h : Header)
    → Header.unmarshal raw ≡ ok h
    → h.type ≡ 205
    → h.count ≡ 2
    → 4 + to_uint16 (4 * h.length) ≤ length raw
    → 8 ≤ length raw
    → length raw < 12
    → unmarshal p raw ≡ panic
unfolding unmarshal
unmarshal_short_panic p raw h read type count fits long short =
    let (sender, found) = uint32_at_ok raw 4 long in
    rw
      (
        le→ltb_false (length raw) 8 long,
        read,
        le→ltb_false (length raw) (4 + to_uint16 (4 * h.length)) fits,
        type,
        count,
        found,
        uint32_at_panic raw 8 long short,
      )
      refl

-- The reader panics on bytes below 256 exactly where there are eight to eleven of them, with a header
-- of this packet that counts no more than there are: it checks for eight bytes, and reads the media
-- SSRC behind them.
pub unmarshal-panic-IsShort :
    (raw : Bytes)
    → All IsByte raw
    → (unmarshal (record { sender_ssrc = 0; media_ssrc = 0; sli = [] }) raw ≡ panic) ↔ IsShort raw
unmarshal-panic-IsShort raw w = (
  λ e. Ends-panic (IsRead raw) _ (unmarshal-Ends raw w) e,
  λ s. unmarshal_short_panic _ raw s.header s.reads s.type s.format s.fits s.long s.short,
)
