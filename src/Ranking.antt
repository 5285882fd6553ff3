-- ===== src/Ranking.antt =====
-- The orders and the merges of the entries that src/packet_analyzer.cpp ranks, and
-- `PacketAnalysisAggregator::aggregate`.
pub mod Counting
pub mod Histograms
use packet_switch.Prelude.{
  ℕ, List, Bool, ◌==◌, if◌then◌else◌, ltb, Option, some, not, ◌&&◌, ◌∷◌, [],
}
use packet_switch.Packet.{PacketAnalysis, FlowKey, PacketView}
use packet_switch.Aggregator.{
  FlowRecord, HistogramEntry, TrafficMatrixEntry, MacTrafficRecord, AnalysisBatch, aggregate_all,
  add_u64, no_batch,
}
use packet_switch.Frame.{◌>>=◌, MacAddress, mac_eq, mac_bytes}
use packet_switch.Merging.{merge}
use packet_switch.Prelude.Sorting.{sort}
use packet_switch.Prelude.Texts.{text_lt}
use packet_switch.PacketParser.{parse_packet}

abbrev pub value_less : HistogramEntry → HistogramEntry → Bool
value_less first second = ltb first.value second.value

abbrev pub add_entry : HistogramEntry → HistogramEntry → HistogramEntry
add_entry aggregate entry = record aggregate {
  packet_count = add_u64 aggregate.packet_count entry.packet_count;
  byte_count = add_u64 aggregate.byte_count entry.byte_count;
}

unfoldable pub aggregate_histogram : List HistogramEntry → List HistogramEntry
aggregate_histogram histogram =
    merge (λ first second. first.value == second.value) add_entry (sort value_less histogram)

abbrev pub mac_less : MacAddress → MacAddress → Bool
mac_less first second = text_lt (mac_bytes first) (mac_bytes second)

abbrev pub add_traffic : MacTrafficRecord → MacTrafficRecord → MacTrafficRecord
add_traffic aggregate entry = record aggregate {
  packet_count = add_u64 aggregate.packet_count entry.packet_count;
  byte_count = add_u64 aggregate.byte_count entry.byte_count;
}

unfoldable pub aggregate_mac_traffic : List MacTrafficRecord → List MacTrafficRecord
aggregate_mac_traffic traffic =
    merge (λ first second. mac_eq first.mac second.mac) add_traffic
      (sort (λ first second. mac_less first.mac second.mac) traffic)

abbrev pub rank_less : MacTrafficRecord → MacTrafficRecord → Bool
rank_less first second =
    if not (first.byte_count == second.byte_count)
    then ltb second.byte_count first.byte_count
    else if not (first.packet_count == second.packet_count)
    then ltb second.packet_count first.packet_count
    else mac_less first.mac second.mac

unfoldable pub rank_mac_traffic : List MacTrafficRecord → List MacTrafficRecord
rank_mac_traffic traffic = sort rank_less traffic

abbrev pub matrix_less : TrafficMatrixEntry → TrafficMatrixEntry → Bool
matrix_less first second =
    if mac_eq first.source_mac second.source_mac
    then mac_less first.destination_mac second.destination_mac
    else mac_less first.source_mac second.source_mac

abbrev pub add_matrix : TrafficMatrixEntry → TrafficMatrixEntry → TrafficMatrixEntry
add_matrix aggregate entry = record aggregate {
  packet_count = add_u64 aggregate.packet_count entry.packet_count;
  byte_count = add_u64 aggregate.byte_count entry.byte_count;
}

unfoldable pub aggregate_traffic_matrix : List TrafficMatrixEntry → List TrafficMatrixEntry
aggregate_traffic_matrix matrix =
    merge
      (λ first second.
        mac_eq first.source_mac second.source_mac
        && mac_eq first.destination_mac second.destination_mac)
      add_matrix (sort matrix_less matrix)

abbrev pub key_less : FlowKey → FlowKey → Bool
key_less first second =
    if not (first.source_ipv4 == second.source_ipv4)
    then ltb first.source_ipv4 second.source_ipv4
    else if not (first.destination_ipv4 == second.destination_ipv4)
    then ltb first.destination_ipv4 second.destination_ipv4
    else if not (first.source_port == second.source_port)
    then ltb first.source_port second.source_port
    else if not (first.destination_port == second.destination_port)
    then ltb first.destination_port second.destination_port
    else ltb first.protocol second.protocol

-- `operator==` of `FlowKey`.
abbrev pub key_eq : FlowKey → FlowKey → Bool
key_eq first second =
    first.source_ipv4 == second.source_ipv4
    && first.destination_ipv4 == second.destination_ipv4
    && first.source_port == second.source_port
    && first.destination_port == second.destination_port
    && first.protocol == second.protocol

abbrev pub add_flow : FlowRecord → FlowRecord → FlowRecord
add_flow aggregate flow = record aggregate {
  packet_count = add_u64 aggregate.packet_count flow.packet_count;
  byte_count = add_u64 aggregate.byte_count flow.byte_count;
}

-- The sort and the loop over the flows at the end of `aggregate`.
unfoldable pub aggregate_flows : List FlowRecord → List FlowRecord
aggregate_flows flows =
    merge (λ first second. key_eq first.key second.key) add_flow
      (sort (λ first second. key_less first.key second.key) flows)

abbrev pub flow_rank_less : FlowRecord → FlowRecord → Bool
flow_rank_less first second =
    if not (first.byte_count == second.byte_count)
    then ltb second.byte_count first.byte_count
    else if not (first.packet_count == second.packet_count)
    then ltb second.packet_count first.packet_count
    else key_less first.key second.key

unfoldable pub rank_flows : List FlowRecord → List FlowRecord
rank_flows flows = sort flow_rank_less flows

-- The end of `aggregate`.
unfoldable pub finish : AnalysisBatch → AnalysisBatch
finish b = record b {
  flows = rank_flows (aggregate_flows b.flows);
  ethertype_histogram = aggregate_histogram b.ethertype_histogram;
  protocol_histogram = aggregate_histogram b.protocol_histogram;
  destination_port_histogram = aggregate_histogram b.destination_port_histogram;
  source_mac_traffic = rank_mac_traffic (aggregate_mac_traffic b.source_mac_traffic);
  destination_mac_traffic = rank_mac_traffic (aggregate_mac_traffic b.destination_mac_traffic);
  mac_traffic_matrix = aggregate_traffic_matrix b.mac_traffic_matrix;
}

-- Each packet stands with the length that `aggregate` counts for it.
unfoldable pub aggregate :
    List MacAddress → List (PacketAnalysis × ℕ) → List MacAddress × AnalysisBatch
aggregate learned packets =
    let out = aggregate_all (learned, no_batch) packets in (out.0, finish out.1)
