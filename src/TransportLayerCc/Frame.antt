-- ===== src/TransportLayerCc/Frame.antt =====
-- `TransportLayerCC.Marshal` up to its loop over the deltas.
use rtcp.Prelude.{ℕ, ◌+◌, ◌-◌, ◌*◌, ◌≡◌, ◌∙◌, refl, ap, arith, length, All, ◌++◌}
use rtcp.Result.{ok, ◌>>=◌}
use rtcp.Bytes.{Bytes, make, put, be16, be32}
use rtcp.Bytes.Laws.{make-add}
use rtcp.Util.{append_nbits_to_uint32}
use rtcp.Header
use rtcp.Header.Wire as HeaderWire
use rtcp.TransportLayerCc.Packet.{TransportLayerCc, len, marshal, put_deltas}
use rtcp.TransportLayerCc.Wire.{ChunkCoded, encode_chunks, put_chunks-append}

-- The sixteen bytes between the header and the chunks.
abbrev pub front : TransportLayerCc → Bytes
front t =
    be32 t.sender_ssrc
    ++ (be32 t.media_ssrc
        ++ (be16 t.base_sequence_number
            ++ (be16 t.packet_status_count
                ++ be32 (
                    append_nbits_to_uint32 (append_nbits_to_uint32 0 24 t.reference_time) 8
                      t.fb_pkt_count))))

pub length-front : (t : TransportLayerCc) → length (front t) ≡ 16
unfolding be32 be16
length-front t = refl

-- The payload before the loop over the deltas, with `n` zeros in it.
abbrev pub prepared : TransportLayerCc → ℕ → Bytes
prepared t n = front t ++ (encode_chunks t.packet_chunks ++ make n)

pub marshal-prepared :
    (t : TransportLayerCc) (n : ℕ)
    → Header.IsValid t.header
    → All ChunkCoded t.packet_chunks
    → len t ≡ 20 + 2 * length t.packet_chunks + n
    → marshal t ≡ (
        put_deltas (prepared t n) (length t.packet_chunks) 0 t.recv_deltas >>= λ p.
        ok (HeaderWire.encode t.header ++ p))
unfolding marshal put be32 be16
marshal-prepared t n valid coded size =
    let c = length t.packet_chunks in
    let parts : make (len t - 4) ≡ make 16 ++ (make (2 * c) ++ make n) =
      ap make (omega (arith, size))
      ∙ make-add 16 (2 * c + n)
      ∙ ap (λ b. make 16 ++ b) (make-add (2 * c) n) in
    rw
      (
        HeaderWire.marshal-encode t.header valid,
        parts,
        put_chunks-append 0 (front t) t.packet_chunks (make n) refl coded,
      )
      refl
