-- ===== src/Packet/Stops.antt =====
-- Where the loop of `Unmarshal` comes to an end.
use rtcp.Prelude.{
  ℕ, zero, suc, ◌≤◌, ◌<◌, ◌≡◌, ◌≢◌, ◌∙◌, refl, arith, length, length-drop, drop, All, List, [], ◌∷◌,
  ◌++◌,
}
use rtcp.Result.{Error, Result, ok, err, panic, stuck, ◌>>=◌}
use rtcp.Outcome.{Ends-ne_stuck}
use rtcp.Bytes.{Bytes, IsByte}
use rtcp.Bytes.Outcome.{drop-bytes}
use rtcp.Packet.{Packet, unmarshal_first, unmarshal_loop, unmarshal, some_packets}
use rtcp.Packet.Progress.{some_packets-ok, first_progress, next_round-drop, loop_round}
use rtcp.Packet.Reading.{Typed}
use rtcp.Packet.Reached.{Reached, start, next, unmarshal_first-Ends}
use rtcp.Packet.Append.{loop_filled}

-- How the answer `m` comes from the rest of the datagram at which the last round began.
pub data Stop (rest : Bytes) (m : Result (List Packet)) : Type 0 where
  -- No byte is left.
  finished : (packets : List Packet) → rest ≡ [] → m ≡ ok packets → Stop rest m
  -- The first packet of the rest is refused, and its error is the answer.
  refused : (e : Error) → unmarshal_first rest ≡ err e → m ≡ err e → Stop rest m
  -- Its reader runs out of range.
  overran : unmarshal_first rest ≡ panic → m ≡ panic → Stop rest m

pub record Stopped (raw : Bytes) (m : Result (List Packet)) : Type 0 where
  pub rest : Bytes
  pub reached : Reached raw rest
  pub stop : Stop rest m

-- A first packet is read, refused, or out of range.
data First (m : Result (Packet × ℕ)) : Type 0 where
  read : (p : Packet) (n : ℕ) → m ≡ ok (p, n) → First m
  error : (e : Error) → m ≡ err e → First m
  out_of_range : m ≡ panic → First m

First-cases : (m : Result (Packet × ℕ)) → m ≢ stuck → First m
First-cases (ok (p, n)) ne = read p n refl
First-cases (err e) ne = error e refl
First-cases panic ne = out_of_range refl
First-cases stuck ne = absurd (ne refl)

loop-Stopped :
    (fuel : ℕ) (raw rest : Bytes) (found : List Packet)
    → All IsByte rest
    → length rest ≤ fuel
    → Reached raw rest
    → Stopped raw (unmarshal_loop fuel rest found)
loop-Stopped fuel raw [] found w enough r = record {
  rest = [];
  reached = r;
  stop = finished found refl (unfold unmarshal_loop in refl);
}
loop-Stopped zero raw (b ∷ rest) found w enough r = absurd (omega arith)
loop-Stopped (suc fuel) raw (b ∷ rest) found w enough r =
    let round = loop_round fuel b rest found in
    elim (First-cases (unmarshal_first (b ∷ rest))
      (Ends-ne_stuck (λ pn. Typed pn.0) _ (unmarshal_first-Ends (b ∷ rest) w))) [
        | read p n e ↦
            let (moved, fits) = first_progress (b ∷ rest) p n e in
            let same = round ∙ rw e (next_round-drop fuel (b ∷ rest) found p n fits) in
            let later =
              loop-Stopped fuel raw (drop n (b ∷ rest)) (found ++ (p ∷ []))
                (drop-bytes n (b ∷ rest) w) (omega (arith, length-drop n (b ∷ rest), moved, enough))
                (next (b ∷ rest) p n r e) in
            rw same later
        | error e from ↦ record {
          rest = b ∷ rest;
          reached = r;
          stop = refused e from (round ∙ rw from refl);
        }
        | out_of_range from ↦ record {
          rest = b ∷ rest;
          reached = r;
          stop = overran from (round ∙ rw from refl);
        }
      ]

answered :
    (rest : Bytes) (m : Result (List Packet))
    → ((packets : List Packet) → m ≡ ok packets → packets ≢ [])
    → Stop rest m
    → Stop rest (m >>= some_packets)
answered rest m filled (finished packets none e) =
    finished packets none (rw e (some_packets-ok packets (filled packets e)))
answered rest m filled (refused e from same) = refused e from (rw same refl)
answered rest m filled (overran from same) = overran from (rw same refl)

-- From a datagram of at least one byte, all below 256, `Unmarshal` comes to a rest that its rounds
-- reach where it stops: no byte is left, and it answers packets; or the first packet of the rest is
-- refused, and it answers that error; or that packet's reader panics, and so does it.
pub unmarshal-Stopped :
    (raw : Bytes) → 0 < length raw → All IsByte raw → Stopped raw (unmarshal raw)
unfolding unmarshal
unmarshal-Stopped raw some w =
    let s = loop-Stopped (length raw) raw raw [] w (omega arith) start in
    record {
      rest = s.rest;
      reached = s.reached;
      stop =
          answered s.rest (unmarshal_loop (length raw) raw [])
            (λ packets e. loop_filled (length raw) raw packets some e) s.stop;
    }
