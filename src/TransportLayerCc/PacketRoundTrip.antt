-- ===== src/TransportLayerCc/PacketRoundTrip.antt =====
-- A whole feedback packet through its bytes.
use rtcp.Prelude.{
  ℕ, ◌+◌, ◌*◌, ◌/◌, ◌%◌, ◌^◌, ◌≤◌, ◌≡◌, ◌∙◌, refl, sym, ap, arith, length, length-append,
  append_assoc, replicate, [], ◌∷◌, ◌++◌, true, false, leb, le→ltb_false, ◌==◌,
}
use rtcp.Result.{ok}
use rtcp.Bytes.{
  Bytes, make, index, slice, slice_from, slice_to, to_uint16, uint16, uint32, uint16_at, uint32_at,
  be16, be32,
}
use rtcp.Bytes.Laws.{be16_value, be32_value, length-make}
use rtcp.Util.{get_24_bits_from_bytes}
use rtcp.Header
use rtcp.Header.Wire as HeaderWire
use rtcp.TransportLayerCc.Packet.{TransportLayerCc, len, zero_value}
use rtcp.TransportLayerCc.Read.{unmarshal, initial, upto, read_chunks, read_deltas}
use rtcp.TransportLayerCc.Wire.{
  encode_chunks, encode_deltas, length-encode_chunks, length-encode_deltas, read_chunks-append,
}
use rtcp.TransportLayerCc.Arrivals.{all_arrivals, announced, new_delta, added_all-announced}
use rtcp.TransportLayerCc.Coded.{chunks-Coded}
use rtcp.TransportLayerCc.Cells.{read_deltas-append, deref_all-upto}
use rtcp.TransportLayerCc.PacketBytes.{
  IsValid, header-IsValid, padding, len_lem, fixed, encode, length-fixed, deltas-Coded,
}

module _ (type : ℕ) (t : TransportLayerCc) (spare : Bytes) (v : IsValid type t) where
  pub length-encode : length (encode type t) ≡ len t
  unfolding encode
  length-encode =
      let ec = encode_chunks t.packet_chunks in
      let ed = encode_deltas t.recv_deltas in
      let pad = make (padding type t) in
      HeaderWire.length-encode t.header (fixed t ++ (ec ++ (ed ++ pad)))
      ∙ omega (
        arith,
        length-append (fixed t) (ec ++ (ed ++ pad)),
        length-append ec (ed ++ pad),
        length-append ed pad,
        length-fixed t,
        length-encode_chunks t.packet_chunks (chunks-Coded type t.packet_chunks v.chunks_fit),
        length-encode_deltas type t.recv_deltas (deltas-Coded type t.recv_deltas v.deltas_fit),
        length-make (padding type t),
        len_lem type t v,
      )

  header_of : Header.unmarshal (encode type t) ≡ ok t.header
  unfolding encode
  header_of = HeaderWire.unmarshal-encode t.header _ (header-IsValid type t v)

  sender_of : uint32_at (encode type t) 4 ≡ ok t.sender_ssrc
  unfolding encode HeaderWire.encode be32 uint32_at uint32 slice_from
  sender_of = ap ok (be32_value t.sender_ssrc v.sender_bound)

  media_of : uint32_at (encode type t) 8 ≡ ok t.media_ssrc
  unfolding encode HeaderWire.encode be32 uint32_at uint32 slice_from
  media_of = ap ok (be32_value t.media_ssrc v.media_bound)

  base_of : uint16_at (encode type t) 12 ≡ ok t.base_sequence_number
  unfolding encode HeaderWire.encode be32 be16 uint16_at uint16 slice_from
  base_of = ap ok (be16_value t.base_sequence_number v.base_sequence_number_bound)

  count_of : uint16_at (encode type t) 14 ≡ ok t.packet_status_count
  unfolding encode HeaderWire.encode be32 be16 uint16_at uint16 slice_from
  count_of =
      ap ok (
        be16_value t.packet_status_count (omega (arith, len_lem type t v, v.small, v.status_count)))

  -- The word of the reference time and the packet count.
  word : ℕ
  word = t.reference_time * 2 ^ 8 + t.fb_pkt_count

  time_bytes : Bytes
  unfolding word
  time_bytes = word / 2 ^ 24 % 256 ∷ word / 2 ^ 16 % 256 ∷ word / 2 ^ 8 % 256 ∷ []

  time_slice : slice (encode type t ++ spare) 16 19 ≡ ok time_bytes
  unfolding encode HeaderWire.encode be32 be16 slice slice_from slice_to time_bytes word
  time_slice = refl

  time_of : get_24_bits_from_bytes time_bytes ≡ ok t.reference_time
  unfolding time_bytes word get_24_bits_from_bytes index
  time_of = ap ok (omega (arith, v.reference_time_bound, v.fb_pkt_count_bound))

  fb_slice : slice (encode type t ++ spare) 19 20 ≡ ok (t.fb_pkt_count ∷ [])
  unfolding encode HeaderWire.encode be32 be16 slice slice_from slice_to
  fb_slice = ap (λ b. ok (b ∷ [])) (omega (arith, v.fb_pkt_count_bound))

  -- The memory, with what stands before the chunks.
  chunks_shape :
      encode type t ++ spare
      ≡ (HeaderWire.encode t.header ++ fixed t)
        ++ (encode_chunks t.packet_chunks
            ++ (encode_deltas t.recv_deltas ++ (make (padding type t) ++ spare)))
  unfolding encode
  chunks_shape = simp append_assoc

  front_size : 20 ≡ length (HeaderWire.encode t.header ++ fixed t)
  front_size = omega (arith, HeaderWire.length-encode t.header (fixed t), length-fixed t)

  chunks_of :
      read_chunks t.packet_status_count (encode type t ++ spare) (len t) 20 [] (initial [])
      ≡ ok (t.packet_chunks, announced type (length t.recv_deltas))
  unfolding initial upto
  chunks_of =
      let coded = chunks-Coded type t.packet_chunks v.chunks_fit in
      let room : 20 + 2 * length t.packet_chunks ≤ len t = omega (arith, len_lem type t v) in
      let all = added_all-announced type 0 t.packet_chunks v.delta_type v.chunks_fit in
      let many : 0 + all_arrivals type t.packet_chunks ≡ length t.recv_deltas =
        omega (arith, v.announced) in
      let back = encode_deltas t.recv_deltas ++ (make (padding type t) ++ spare) in
      let front = HeaderWire.encode t.header ++ fixed t in
      ap (λ n. read_chunks n (encode type t ++ spare) (len t) 20 [] (announced type 0))
        v.status_count
      ∙ ap (λ b. read_chunks (length t.packet_chunks) b (len t) 20 [] (announced type 0))
          chunks_shape
      ∙ (read_chunks-append (len t) 20 front t.packet_chunks back [] (announced type 0) front_size
            room v.small coded
          ∙ ap (λ ds. ok (t.packet_chunks, ds)) (all ∙ ap (announced type) many))

  deltas_of :
      read_deltas
        (upto 0 (length t.recv_deltas))
        (encode type t ++ spare)
        (len t)
        (to_uint16 (20 + to_uint16 (2 * t.packet_status_count)))
        (replicate (length t.recv_deltas) (new_delta type))
      ≡ ok t.recv_deltas
  deltas_of =
      let coded = chunks-Coded type t.packet_chunks v.chunks_fit in
      let ec = encode_chunks t.packet_chunks in
      let before = (HeaderWire.encode t.header ++ fixed t) ++ ec in
      let back = make (padding type t) ++ spare in
      let place : to_uint16 (20 + to_uint16 (2 * t.packet_status_count))
          ≡ 20 + 2 * length t.packet_chunks =
        omega (arith, len_lem type t v, v.small, v.status_count) in
      let size : 20 + 2 * length t.packet_chunks ≡ length before = omega (
        arith,
        front_size,
        length-append (HeaderWire.encode t.header ++ fixed t) ec,
        length-encode_chunks t.packet_chunks coded,
      ) in
      let shape : encode type t ++ spare ≡ before ++ (encode_deltas t.recv_deltas ++ back) =
        chunks_shape
        ∙ sym (
            append_assoc (HeaderWire.encode t.header ++ fixed t) ec
              (encode_deltas t.recv_deltas ++ back)) in
      rw (place, shape)
        (read_deltas-append type (len t) (20 + 2 * length t.packet_chunks) before t.recv_deltas back
          [] v.delta_type size (len_lem type t v) v.small
          (deltas-Coded type t.recv_deltas v.deltas_fit))

  right_type : (t.header.type == 205) ≡ true
  right_type = ground (arith, v.packet_type)

  right_format : (t.header.count == 15) ≡ true
  right_format = ground (arith, v.format)

  pub unmarshal-encode : unmarshal zero_value (encode type t) spare ≡ ok t
  unfolding unmarshal index
  unmarshal-encode =
      let total : to_uint16 (4 * to_uint16 (t.header.length + 1)) ≡ len t =
        omega (arith, v.size, v.small) in
      let long : 22 ≤ len t = omega (arith, len_lem type t v, v.some_chunks) in
      let enough : leb (len t) 20 ≡ false = ground (arith, long) in
      rw
        (
          length-encode,
          le→ltb_false (len t) 8 (omega (arith, long)),
          header_of,
          total,
          enough,
          le→ltb_false (len t) (len t) (omega arith),
          right_type,
          right_format,
          sender_of,
          media_of,
          base_of,
          count_of,
          time_slice,
          time_of,
          fb_slice,
          chunks_of,
          deltas_of,
          deref_all-upto [] t.recv_deltas,
        )
        refl
