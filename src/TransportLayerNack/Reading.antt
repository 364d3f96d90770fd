-- ===== src/TransportLayerNack/Reading.antt =====
-- `TransportLayerNack.Unmarshal` on arbitrary bytes.
use rtcp.Prelude.{
  le→ltb_false, ℕ, zero, suc, ◌+◌, ◌*◌, ◌≤◌, ◌<◌, ◌≡◌, refl, arith, length, All, All-append, List,
  [], not, ◌==◌, ◌||◌, ◌⊎◌, inr,
}
use rtcp.Result.{ok, panic, err_wrong_type}
use rtcp.Outcome.{Ends, Ends-ok, Ends-bind, too_short-Ends, fail_if-Ends}
use rtcp.Bytes.{Bytes, IsByte, IsUint32, to_uint16, rounds}
use rtcp.Bytes.Reads.{uint32_at_ok, uint32_at_panic}
use rtcp.Bytes.Outcome.{uint16_at-Ends, uint32_at-Ends, uint32_at-Ends_or}
use rtcp.Header
use rtcp.Header.{Header}
use rtcp.Header.Reading as HeaderReading
use rtcp.TransportLayerNack.{TransportLayerNack, NackPair, unmarshal, nacks_at}
use rtcp.TransportLayerNack.Wire as Wire

-- The fields of the packet fit their Go types.
pub record IsTyped (p : TransportLayerNack) : Type 0 where
  pub sender_bound : IsUint32 p.sender_ssrc
  pub media_bound : IsUint32 p.media_ssrc
  pub nacks_typed : All Wire.IsTyped p.nacks

nacks_at-Ends :
    {panics : Type 0} (n : ℕ) (raw : Bytes) (i : ℕ) (nacks : List NackPair)
    → All IsByte raw
    → n ≡ 0 ⊎ i + 4 * n ≤ length raw
    → All Wire.IsTyped nacks
    → Ends panics (λ found. All Wire.IsTyped found) (nacks_at n raw i nacks)
unfolding nacks_at
nacks_at-Ends zero raw i nacks w fits v = Ends-ok (λ found. All Wire.IsTyped found) nacks v
nacks_at-Ends (suc n) raw i nacks w fits v =
    Ends-bind (uint16_at-Ends raw i w (omega (arith, fits))) λ id hi.
      Ends-bind (uint16_at-Ends raw (i + 2) w (omega (arith, fits))) λ lost hl.
        nacks_at-Ends n raw (i + 4) _ w (inr (omega (arith, fits))) (
          All-append Wire.IsTyped nacks _ v
            (record { packet_id_bound = hi; lost_packets_bound = hl }, tt))

pub unmarshal-Ends :
    (raw : Bytes)
    → All IsByte raw
    → Ends
        ((8 ≤ length raw) × (length raw < 12))
        IsTyped
        (unmarshal (record { sender_ssrc = 0; media_ssrc = 0; nacks = [] }) raw)
unfolding unmarshal
unmarshal-Ends raw w = Ends-bind (too_short-Ends (length raw) 8 _) λ _ long.
    Ends-bind (HeaderReading.unmarshal-Ends raw w) λ h hh.
      Ends-bind (too_short-Ends (length raw) (4 + to_uint16 (4 * h.length)) _) λ _ fits.
        Ends-bind (fail_if-Ends (not (h.type == 205) || not (h.count == 1)) err_wrong_type) λ _ _.
          Ends-bind (uint32_at-Ends raw 4 w (omega (arith, long))) λ sender hs.
            Ends-bind (uint32_at-Ends_or raw 8 w (λ out. (long, omega (arith, out)))) λ media hm.
              Ends-bind
                (nacks_at-Ends (rounds 12 (4 + to_uint16 (h.length * 4))) raw 12 [] w
                  (omega (arith, fits)) tt)
                λ nacks hn.
                  Ends-ok IsTyped _
                    (record { sender_bound = hs; media_bound = hm; nacks_typed = hn })

-- From eight to eleven bytes, with a header that is one of this packet and counts no more than there
-- are, make the reader panic: it reads the media SSRC behind the eight bytes that it checked for.
pub unmarshal_short_panic :
    (p : TransportLayerNack) (raw : Bytes) (h : Header)
    → Header.unmarshal raw ≡ ok h
    → h.type ≡ 205
    → h.count ≡ 1
    → 4 + to_uint16 (4 * h.length) ≤ length raw
    → 8 ≤ length raw
    → length raw < 12
    → unmarshal p raw ≡ panic
unfolding unmarshal
unmarshal_short_panic p raw h read type count fits long short =
    let (sender, found) = uint32_at_ok raw 4 long in
    rw
      (
        le→ltb_false (length raw) 8 long,
        read,
        le→ltb_false (length raw) (4 + to_uint16 (4 * h.length)) fits,
        type,
        count,
        found,
        uint32_at_panic raw 8 long short,
      )
      refl
