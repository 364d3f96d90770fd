-- ===== src/Packet/Termination.antt =====
-- The loop of `Unmarshal` comes to an end.
use rtcp.Prelude.{ℕ, ◌+◌, ◌≤◌, ◌≡◌, ◌≢◌, arith, length, length-drop, drop, All, []}
use rtcp.Result.{ok, stuck, ◌>>=◌}
use rtcp.Outcome.{Ends-ne_stuck}
use rtcp.Bytes.{Bytes, IsByte}
use rtcp.Packet.{Packet, unmarshal_first, unmarshal_loop, unmarshal, some_packets}
use rtcp.Packet.Progress.{first_progress, unmarshal_fuel}
use rtcp.Packet.Reached.{AllTyped, unmarshal-Ends}

-- `n` rounds lead from `raw` to `rest`.
pub data Rounds (raw : Bytes) : ℕ → Bytes → Type 0 where
  no_round : Rounds raw 0 raw
  one_more :
      (k : ℕ) (rest : Bytes) (p : Packet) (n : ℕ)
      → Rounds raw k rest
      → unmarshal_first rest ≡ ok (p, n)
      → Rounds raw (k + 1) (drop n rest)

-- Each round takes a byte at least.
Rounds-bound :
    (raw : Bytes) (k : ℕ) (rest : Bytes) → Rounds raw k rest → k + length rest ≤ length raw
Rounds-bound raw _ _ no_round = omega arith
Rounds-bound raw _ _ (one_more k rest p n r e) =
    let (moved, fits) = first_progress rest p n e in
    omega (arith, Rounds-bound raw k rest r, length-drop n rest, moved, fits)

-- The loop of `Unmarshal` ends: on a datagram of bytes below 256, `k` rounds leave at least `k` bytes
-- fewer, so that there are at most as many rounds as bytes; with at least as much fuel as there are
-- bytes it never runs out, and the answer is the same whatever fuel is left over.
pub unmarshal_terminates :
    (raw : Bytes) (more k : ℕ) (rest : Bytes)
    → All IsByte raw
    → Rounds raw k rest
    → (k + length rest ≤ length raw)
      × ((unmarshal_loop (length raw + more) raw [] >>= some_packets) ≡ unmarshal raw)
      × (unmarshal raw ≢ stuck)
unmarshal_terminates raw more k rest w r = (
  Rounds-bound raw k rest r,
  unmarshal_fuel raw more,
  Ends-ne_stuck AllTyped _ (unmarshal-Ends raw w),
)
