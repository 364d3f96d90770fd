-- ===== src/TransportLayerCc/MixedDeltas.antt =====
-- `TransportLayerCC.Marshal` on small deltas with a large one behind them.
use rtcp.Bytes.{Bytes}
use rtcp.Header
use rtcp.TransportLayerCc.Packet.{TransportLayerCc}
