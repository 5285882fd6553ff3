-- ===== src/PacketAnalyzer.antt =====
-- `CpuPacketAnalyzer` of src/packet_analyzer.cpp: packets are parsed, and then aggregated. Its state is
-- the list of the learned addresses. `none` is a read outside a buffer.
pub mod Agreement
use packet_switch.Prelude.{ℕ, List, Option, some, [], ◌∷◌}
use packet_switch.Frame.{◌>>=◌, MacAddress}
use packet_switch.Packet.{PacketView, PacketAnalysis}
use packet_switch.Aggregator.{AnalysisBatch}
use packet_switch.PacketBatch.{PacketBatch, packet_views}
use packet_switch.Ranking.{aggregate}
use packet_switch.PacketParser.{parse_packet}

-- Without `frame_lengths` a packet counts with the length of its analysis.
abbrev pub with_own_length : PacketAnalysis → PacketAnalysis × ℕ
with_own_length a = (a, a.frame_length)

-- The loop of `analyze` over views.
unfoldable pub parse_views : List PacketView → Option (List (PacketAnalysis × ℕ))
parse_views [] = some []
parse_views (view ∷ views) =
    let rest = parse_views views in
    do analysis ← parse_packet view; analyses ← rest; some ((analysis, view.size) ∷ analyses)

-- `CpuPacketAnalyzer::analyze` on views; its state is the learned addresses.
unfoldable pub analyze :
    List MacAddress → List PacketView → Option (List MacAddress × AnalysisBatch)
analyze learned views = do packets ← parse_views views; some (aggregate learned packets)

-- The loop of `analyze` over the packets of a batch.
unfoldable pub parse_stored : List PacketView → Option (List (PacketAnalysis × ℕ))
parse_stored [] = some []
parse_stored (view ∷ views) =
    let rest = parse_stored views in
    do analysis ← parse_packet view; analyses ← rest; some (with_own_length analysis ∷ analyses)

-- `CpuPacketAnalyzer::analyze` on a `PacketBatch`.
unfoldable pub analyze_batch :
    List MacAddress → PacketBatch → Option (List MacAddress × AnalysisBatch)
analyze_batch learned batch = do
  views ← packet_views batch
  packets ← parse_stored views
  some (aggregate learned packets)

abbrev pub reset : List MacAddress → List MacAddress
reset learned = []
