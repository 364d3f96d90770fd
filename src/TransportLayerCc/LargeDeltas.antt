-- ===== src/TransportLayerCc/LargeDeltas.antt =====
-- `TransportLayerCC.Marshal` on deltas of the large type that small ones would do for.
use rtcp.Prelude.{ℕ, ◌*◌, ◌≤◌}
use rtcp.Bytes.{Bytes}
use rtcp.Header
use rtcp.TransportLayerCc.Delta
use rtcp.TransportLayerCc.Delta.{RecvDelta, pos}
use rtcp.TransportLayerCc.Packet.{TransportLayerCc}

-- A delta of the large type, of at most 255 steps of 250 microseconds.
pub data LowLarge : RecvDelta → Type 0 where
  low_large : (n : ℕ) → n ≤ 255 → LowLarge (record { type = 2; delta = pos (250 * n) })
