-- ===== src/TransportLayerCc/PacketBytes.antt =====
-- A whole feedback packet as its bytes.
use rtcp.Prelude.{
  ℕ, ◌+◌, ◌-◌, ◌*◌, ◌/◌, ◌%◌, ◌^◌, ◌≤◌, ◌<◌, ◌≡◌, ◌∙◌, refl, sym, ap, arith, length, length-append,
  append_assoc, All, List, [], ◌∷◌, ◌++◌,
}
use rtcp.Result.{ok, bind-of_ok}
use rtcp.TransportLayerCc.RoundTrip.{unmarshal-marshal_small_delta, unmarshal-marshal_large_delta}
use rtcp.Bytes.{Bytes, IsByte, IsUint16, IsUint32, make, put, be16, be32}
use rtcp.Bytes.Laws.{make-add}
use rtcp.Util.{append_nbits_to_uint32}
use rtcp.Util.Fields.{append_nbits_to_uint32_lem}
use rtcp.Header
use rtcp.Header.Wire as HeaderWire
use rtcp.TransportLayerCc.Delta
use rtcp.TransportLayerCc.Delta.{RecvDelta, pos, quot, is_small, is_large, low_digits}
use rtcp.TransportLayerCc.Packet.{TransportLayerCc, len, deltas_len, marshal, put_deltas}
use rtcp.TransportLayerCc.Wire.{
  IsDeltaType, DeltaCoded, encode_chunks, encode_deltas, put_deltas-append, length-encode_chunks,
}
use rtcp.TransportLayerCc.Frame.{front, prepared, marshal-prepared}
use rtcp.TransportLayerCc.Arrivals.{FitsChunk, all_arrivals}
use rtcp.TransportLayerCc.Coded.{chunks-Coded}

-- A delta that is written with no loss: a small one of at most 255 steps of 250 microseconds, or a
-- large one of more steps than that, below 2 ^ 15.
pub data FitsDelta : ℕ → RecvDelta → Type 0 where
  fits_small : (n : ℕ) → n ≤ 255 → FitsDelta 1 (record { type = 1; delta = pos (250 * n) })
  fits_large :
      (n : ℕ) → 255 < n → n < 2 ^ 15 → FitsDelta 2 (record { type = 2; delta = pos (250 * n) })

small_bytes :
    (n : ℕ) → n ≤ 255 → Delta.marshal (record { type = 1; delta = pos (250 * n) }) ≡ ok (n ∷ [])
unfolding Delta.marshal put quot is_small is_large low_digits
small_bytes n h = ground arith

pub large_bytes :
    (n : ℕ)
    → n < 2 ^ 15
    → Delta.marshal (record { type = 2; delta = pos (250 * n) })
      ≡ ok (n / 2 ^ 8 % 256 ∷ n % 256 ∷ [])
unfolding Delta.marshal put quot is_small is_large low_digits be16
large_bytes n h = ground arith

pub delta-Coded : (type : ℕ) (d : RecvDelta) → FitsDelta type d → DeltaCoded type d
delta-Coded _ _ (fits_small n h) = record {
  same_type = refl;
  written = rw (small_bytes n h) refl;
  size = rw (small_bytes n h) refl;
  read =
      rw (small_bytes n h)
        (bind-of_ok Delta.unmarshal (small_bytes n h) (unmarshal-marshal_small_delta n h));
}
delta-Coded _ _ (fits_large n lo hi) = record {
  same_type = refl;
  written = rw (large_bytes n hi) refl;
  size = rw (large_bytes n hi) refl;
  read =
      rw (large_bytes n hi)
        (bind-of_ok Delta.unmarshal (large_bytes n hi) (unmarshal-marshal_large_delta n hi));
}

pub deltas-Coded :
    (type : ℕ) (deltas : List RecvDelta)
    → All (FitsDelta type) deltas
    → All (DeltaCoded type) deltas
deltas-Coded type [] f = tt
deltas-Coded type (d ∷ deltas) f = (delta-Coded type d f.0, deltas-Coded type deltas f.1)

-- What a delta is counted for.
pub counted :
    (type : ℕ) (d : RecvDelta) (deltas : List RecvDelta)
    → FitsDelta type d
    → deltas_len (d ∷ deltas) ≡ type + deltas_len deltas
unfolding deltas_len quot is_small is_large
counted _ _ deltas (fits_small n h) = ground arith
counted _ _ deltas (fits_large n lo hi) = ground arith

pub deltas_len-type :
    (type : ℕ) (deltas : List RecvDelta)
    → All (FitsDelta type) deltas
    → deltas_len deltas ≡ type * length deltas
deltas_len-type type [] f = unfold deltas_len in omega arith
deltas_len-type type (d ∷ deltas) f =
    counted type d deltas f.0 ∙ grind (arith, deltas_len-type type deltas f.1)

-- A packet that is written with no loss. Its header says its length, its packet status count is the
-- number of its chunks, which announce as many deltas as there are, all of one type.
pub record IsValid (type : ℕ) (t : TransportLayerCc) : Type 0 where
  pub delta_type : IsDeltaType type
  pub format : t.header.count ≡ 15
  pub packet_type : t.header.type ≡ 205
  pub size : 4 * (t.header.length + 1) ≡ len t
  pub small : len t < 65533
  pub sender_bound : IsUint32 t.sender_ssrc
  pub media_bound : IsUint32 t.media_ssrc
  pub base_sequence_number_bound : IsUint16 t.base_sequence_number
  pub reference_time_bound : t.reference_time < 2 ^ 24
  pub fb_pkt_count_bound : IsByte t.fb_pkt_count
  pub some_chunks : 0 < length t.packet_chunks
  pub status_count : t.packet_status_count ≡ length t.packet_chunks
  pub chunks_fit : All (FitsChunk type) t.packet_chunks
  pub deltas_fit : All (FitsDelta type) t.recv_deltas
  pub announced : all_arrivals type t.packet_chunks ≡ length t.recv_deltas

pub header-IsValid : (type : ℕ) (t : TransportLayerCc) → IsValid type t → Header.IsValid t.header
header-IsValid type t v = record {
  count_bound = omega (arith, v.format);
  type_bound = omega (arith, v.packet_type);
  length_bound = omega (arith, v.size, v.small);
}

-- The bytes that the chunks and the deltas take, and the zeros behind them.
abbrev pub used : ℕ → TransportLayerCc → ℕ
used type t = 20 + 2 * length t.packet_chunks + type * length t.recv_deltas

abbrev pub padding : ℕ → TransportLayerCc → ℕ
padding type t = len t - used type t

pub len_lem : (type : ℕ) (t : TransportLayerCc) → IsValid type t → used type t ≤ len t
unfolding len
len_lem type t v = ground (arith, deltas_len-type type t.recv_deltas v.deltas_fit)

-- The sixteen bytes between the header and the chunks.
abbrev pub fixed : TransportLayerCc → Bytes
fixed t =
    be32 t.sender_ssrc
    ++ (be32 t.media_ssrc
        ++ (be16 t.base_sequence_number
            ++ (be16 t.packet_status_count ++ be32 (t.reference_time * 2 ^ 8 + t.fb_pkt_count))))

abbrev pub body : ℕ → TransportLayerCc → Bytes
body type t =
    fixed t
    ++ (encode_chunks t.packet_chunks ++ (encode_deltas t.recv_deltas ++ make (padding type t)))

unfoldable pub encode : ℕ → TransportLayerCc → Bytes
encode type t = HeaderWire.encode t.header ++ body type t

pub length-fixed : (t : TransportLayerCc) → length (fixed t) ≡ 16
unfolding be32 be16
length-fixed t = refl

-- The reference time and the packet count share a word.
time_word :
    (time count : ℕ)
    → time < 2 ^ 24
    → count < 2 ^ 8
    → append_nbits_to_uint32 (append_nbits_to_uint32 0 24 time) 8 count ≡ time * 2 ^ 8 + count
time_word time count h k =
    rw
      (
        append_nbits_to_uint32_lem 0 24 time (omega arith),
        append_nbits_to_uint32_lem _ 8 count (omega arith),
      )
      (omega (arith, h, k))

pub front-fixed : (type : ℕ) (t : TransportLayerCc) → IsValid type t → front t ≡ fixed t
front-fixed type t v =
    rw (time_word t.reference_time t.fb_pkt_count v.reference_time_bound v.fb_pkt_count_bound) refl

-- The loop over the deltas, behind the chunks.
put_deltas-body :
    (type : ℕ) (t : TransportLayerCc)
    → IsValid type t
    → put_deltas
        (prepared t (type * length t.recv_deltas + padding type t))
        (length t.packet_chunks)
        0
        t.recv_deltas
      ≡ ok (body type t)
put_deltas-body type t v =
    let c = length t.packet_chunks in
    let k = length t.recv_deltas in
    let pad = make (padding type t) in
    let ec = encode_chunks t.packet_chunks in
    let coded = chunks-Coded type t.packet_chunks v.chunks_fit in
    let behind : 16 + c * 2 + 0 * type ≡ length (fixed t ++ ec) = omega (
      arith,
      length-append (fixed t) ec,
      length-fixed t,
      length-encode_chunks t.packet_chunks coded,
    ) in
    ap (λ b. put_deltas (b ++ (ec ++ make (type * k + padding type t))) c 0 t.recv_deltas)
      (front-fixed type t v)
    ∙ ap (λ b. put_deltas (fixed t ++ (ec ++ b)) c 0 t.recv_deltas)
        (make-add (type * k) (padding type t))
    ∙ ap (λ b. put_deltas b c 0 t.recv_deltas)
        (sym (append_assoc (fixed t) ec (make (type * k) ++ pad)))
    ∙ put_deltas-append type c 0 (fixed t ++ ec) t.recv_deltas pad v.delta_type behind
        (deltas-Coded type t.recv_deltas v.deltas_fit)
    ∙ ap ok (append_assoc (fixed t) ec (encode_deltas t.recv_deltas ++ pad))

pub marshal-encode :
    (type : ℕ) (t : TransportLayerCc) → IsValid type t → marshal t ≡ ok (encode type t)
unfolding encode
marshal-encode type t v =
    marshal-prepared t (type * length t.recv_deltas + padding type t) (header-IsValid type t v)
      (chunks-Coded type t.packet_chunks v.chunks_fit) (omega (arith, len_lem type t v))
    ∙ rw (put_deltas-body type t v) refl
