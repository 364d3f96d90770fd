-- ===== src/Packet/Append.antt =====
-- `Unmarshal` of two datagrams in one.
use rtcp.Prelude.{
  ℕ, zero, suc, ◌<◌, ◌≡◌, ◌≢◌, ◌∙◌, refl, sym, ap, arith, length, List, [], ◌∷◌, ◌++◌, append_assoc,
  append-nil,
}
use rtcp.Result.{Result, ok, ◌>>=◌, bind_assoc, bind-ext}
use rtcp.Bytes.{Bytes, slice_from}
use rtcp.Packet.{Packet, unmarshal_first, unmarshal_loop, unmarshal, some_packets}
use rtcp.Packet.Progress.{some_packets-ok, next_round, loop_round}
use rtcp.Packet.Datagram.{Datagram-filled, unmarshal-Datagram, loop-Datagram, Datagram-loop}

abbrev behind : List Packet → List Packet → Result (List Packet)
behind found packets = ok (found ++ packets)

-- The packets found before only stand in front.
loop-found :
    (fuel : ℕ) (raw : Bytes) (found : List Packet)
    → unmarshal_loop fuel raw found ≡ (unmarshal_loop fuel raw [] >>= behind found)
unfolding next_round
loop-found fuel [] found = unfold unmarshal_loop in ap ok (sym (append-nil found))
loop-found zero (b ∷ raw) found = unfold unmarshal_loop in refl
loop-found (suc fuel) (b ∷ raw) found =
    let round : (pn : Packet × ℕ)
        → next_round fuel (b ∷ raw) found pn ≡ (next_round fuel (b ∷ raw) [] pn >>= behind found) =
      λ pn.
        bind-ext (slice_from (b ∷ raw) pn.1) _ _ (λ rest _.
          loop-found fuel rest (found ++ (pn.0 ∷ []))
          ∙ bind-ext (unmarshal_loop fuel rest []) _ _
              (λ ps _. ap ok (append_assoc found (pn.0 ∷ []) ps))
          ∙ sym (bind_assoc (unmarshal_loop fuel rest []) (behind (pn.0 ∷ [])) (behind found))
          ∙ ap (λ m. m >>= behind found) (sym (loop-found fuel rest (pn.0 ∷ []))))
        ∙ sym (bind_assoc (slice_from (b ∷ raw) pn.1) _ (behind found)) in
    loop_round fuel b raw found
    ∙ bind-ext (unmarshal_first (b ∷ raw)) _ _ (λ pn _. round pn)
    ∙ sym (bind_assoc (unmarshal_first (b ∷ raw)) (next_round fuel (b ∷ raw) []) (behind found))
    ∙ ap (λ m. m >>= behind found) (sym (loop_round fuel b raw []))

-- What is found is not empty where there are bytes.
pub loop_filled :
    (fuel : ℕ) (raw : Bytes) (found : List Packet)
    → 0 < length raw
    → unmarshal_loop fuel raw [] ≡ ok found
    → found ≢ []
loop_filled fuel raw found some e none =
    let (packets, same, d) = loop-Datagram fuel raw [] found e in
    Datagram-filled d some (sym same ∙ none)

append_filled : (xs ys : List Packet) → xs ≢ [] → xs ++ ys ≢ []
append_filled [] ys filled = absurd (filled refl)
append_filled (x ∷ xs) ys filled = λ e. cc

-- A datagram that is read, with at least one byte behind it: the answer is that for the bytes behind,
-- their packets behind the first ones, or their error or panic.
pub unmarshal-append :
    (raw more : Bytes) (packets : List Packet)
    → unmarshal raw ≡ ok packets
    → 0 < length more
    → unmarshal (raw ++ more) ≡ (unmarshal more >>= λ others. ok (packets ++ others))
unfolding unmarshal
unmarshal-append raw more packets e some =
    let (d, filled) = (unmarshal-Datagram raw packets).0 e in
    let m = unmarshal_loop (length more) more [] in
    ap (λ r. r >>= some_packets)
      (Datagram-loop more (length (raw ++ more)) [] d (omega arith)
        ∙ loop-found (length more) more packets)
    ∙ bind_assoc m (behind packets) some_packets
    ∙ bind-ext m _ _ (λ others found.
      some_packets-ok (packets ++ others) (append_filled packets others filled)
      ∙ ap (λ r. r >>= behind packets)
          (sym (some_packets-ok others (loop_filled (length more) more others some found))))
    ∙ sym (bind_assoc m some_packets (behind packets))
