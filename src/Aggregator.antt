-- ===== src/Aggregator.antt =====
-- `PacketAnalysisAggregator` of src/packet_analyzer.cpp and include/wirelab/packet_analyzer.hpp: the
-- classes of packets, and the histograms of a batch. `std::sort` need not be stable; entries that it
-- may exchange have one key and are merged.
pub mod Counts
pub mod Learning
use packet_switch.Prelude.{
  ℕ, List, ◌∷◌, length, ◌+◌, ◌%◌, [], ◌==◌, select, ◌^◌, if◌then◌else◌, suc, Bool, ◌++◌, ◌-◌, zero,
  true, leb, any_of, false, ◌&&◌, ◌||◌,
}
use packet_switch.Packet.{
  broadcast, unknown_unicast, known_unicast, PacketClassification, PacketAnalysis, PacketValidity,
  FlowKey, valid, malformed_ethernet, malformed_ipv4, malformed_transport, malformed,
}
use packet_switch.Frame.{MacAddress, is_broadcast, mac_eq}
use packet_switch.PacketParser.{ipv4_type, make_flow_key}

pub record PacketSizeHistogramBucket : Type 0 where
  pub inclusive_minimum : ℕ
  pub inclusive_maximum : ℕ
  pub packet_count : ℕ
  pub byte_count : ℕ

pub record HistogramEntry : Type 0 where
  pub value : ℕ
  pub packet_count : ℕ
  pub byte_count : ℕ

pub record FlowRecord : Type 0 where
  pub key : FlowKey
  pub flow_hash : ℕ
  pub packet_count : ℕ
  pub byte_count : ℕ

pub record MacTrafficRecord : Type 0 where
  pub mac : MacAddress
  pub packet_count : ℕ
  pub byte_count : ℕ

pub record TrafficMatrixEntry : Type 0 where
  pub source_mac : MacAddress
  pub destination_mac : MacAddress
  pub packet_count : ℕ
  pub byte_count : ℕ

pub record AnalysisBatch : Type 0 where
  pub frame_size_histogram : List PacketSizeHistogramBucket
  pub ethertype_histogram : List HistogramEntry
  pub protocol_histogram : List HistogramEntry
  pub destination_port_histogram : List HistogramEntry
  pub packets : List PacketAnalysis
  pub source_mac_traffic : List MacTrafficRecord
  pub destination_mac_traffic : List MacTrafficRecord
  pub mac_traffic_matrix : List TrafficMatrixEntry
  pub flows : List FlowRecord
  pub received_packets : ℕ
  pub received_bytes : ℕ
  pub malformed_packets : ℕ
  pub broadcast_packets : ℕ
  pub unknown_unicast_packets : ℕ
  pub known_unicast_packets : ℕ

-- `frame_size_histogram` from the minimums of the buckets: each ends where the next begins.
unfoldable pub buckets : List ℕ → List PacketSizeHistogramBucket
buckets [] = []
buckets (low ∷ []) =
    record {
      inclusive_minimum = low;
      inclusive_maximum = 2 ^ 64 - 1;
      packet_count = 0;
      byte_count = 0;
    }
    ∷ []
buckets (low ∷ next ∷ lows) =
    record {
      inclusive_minimum = low;
      inclusive_maximum = next - 1;
      packet_count = 0;
      byte_count = 0;
    }
    ∷ buckets (next ∷ lows)

-- FRAME_SIZE_BUCKET_MINIMUMS after the first, which is 0.
abbrev pub later_minimums : List ℕ
later_minimums = 64 ∷ 128 ∷ 256 ∷ 512 ∷ 1024 ∷ 1519 ∷ []

unfoldable pub no_batch : AnalysisBatch
unfolding buckets
no_batch = record {
  frame_size_histogram = buckets (0 ∷ later_minimums);
  ethertype_histogram = [];
  protocol_histogram = [];
  destination_port_histogram = [];
  packets = [];
  source_mac_traffic = [];
  destination_mac_traffic = [];
  mac_traffic_matrix = [];
  flows = [];
  received_packets = 0;
  received_bytes = 0;
  malformed_packets = 0;
  broadcast_packets = 0;
  unknown_unicast_packets = 0;
  known_unicast_packets = 0;
}

abbrev pub add_u64 : ℕ → ℕ → ℕ
add_u64 a b = (a + b) % 2 ^ 64

-- `std::upper_bound` on the rising minimums, as an index.
abbrev pub bucket_index : ℕ → ℕ
bucket_index frame_length = length (select (λ low. leb low frame_length) later_minimums)

unfoldable pub count_size : ℕ → ℕ → List PacketSizeHistogramBucket → List PacketSizeHistogramBucket
count_size i frame_length [] = []
count_size zero frame_length (bucket ∷ rest) =
    record bucket {
      packet_count = add_u64 bucket.packet_count 1;
      byte_count = add_u64 bucket.byte_count frame_length;
    }
    ∷ rest
count_size (suc i) frame_length (bucket ∷ rest) = bucket ∷ count_size i frame_length rest

abbrev pub entry_of : ℕ → ℕ → HistogramEntry
entry_of value frame_length = record { value = value; packet_count = 1; byte_count = frame_length }

abbrev pub traffic_of : MacAddress → ℕ → MacTrafficRecord
traffic_of mac frame_length = record { mac = mac; packet_count = 1; byte_count = frame_length }

abbrev pub is_wellformed : PacketValidity → Bool
is_wellformed valid = true
is_wellformed malformed_ethernet = false
is_wellformed malformed_ipv4 = false
is_wellformed malformed_transport = false

abbrev pub has_ethernet : PacketValidity → Bool
has_ethernet valid = true
has_ethernet malformed_ethernet = false
has_ethernet malformed_ipv4 = true
has_ethernet malformed_transport = true

-- `learned_macs_.find`.
abbrev pub is_learned : List MacAddress → MacAddress → Bool
is_learned learned mac = any_of (λ m. mac_eq m mac) learned

abbrev pub classify : List MacAddress → PacketAnalysis → PacketClassification
classify learned a =
    if is_broadcast a.destination_mac
    then PacketClassification.broadcast
    else if is_learned learned a.destination_mac
    then PacketClassification.known_unicast
    else PacketClassification.unknown_unicast

abbrev pub count_class : PacketClassification → AnalysisBatch → AnalysisBatch
count_class broadcast b = record b { broadcast_packets = add_u64 b.broadcast_packets 1 }
count_class unknown_unicast b = record b {
  unknown_unicast_packets = add_u64 b.unknown_unicast_packets 1;
}
count_class known_unicast b = record b { known_unicast_packets = add_u64 b.known_unicast_packets 1 }
count_class malformed b = b

-- The counters of every packet.
unfoldable pub count_frame : ℕ → AnalysisBatch → AnalysisBatch
count_frame frame_length b = record b {
  received_packets = add_u64 b.received_packets 1;
  received_bytes = add_u64 b.received_bytes frame_length;
  frame_size_histogram = count_size (bucket_index frame_length) frame_length b.frame_size_histogram;
}

-- What the loop records of a packet that has an Ethernet header.
unfoldable pub record_ethernet : PacketAnalysis → ℕ → AnalysisBatch → AnalysisBatch
record_ethernet a frame_length b =
    let ip = a.ethertype == ipv4_type && is_wellformed a.validity in
    record b {
      ethertype_histogram = b.ethertype_histogram ++ entry_of a.ethertype frame_length ∷ [];
      source_mac_traffic = b.source_mac_traffic ++ traffic_of a.source_mac frame_length ∷ [];
      destination_mac_traffic =
          b.destination_mac_traffic ++ traffic_of a.destination_mac frame_length ∷ [];
      mac_traffic_matrix =
          b.mac_traffic_matrix
          ++ record {
            source_mac = a.source_mac;
            destination_mac = a.destination_mac;
            packet_count = 1;
            byte_count = frame_length;
          }
            ∷ [];
      malformed_packets =
          if is_wellformed a.validity then b.malformed_packets else add_u64 b.malformed_packets 1;
      protocol_histogram =
          if ip
          then b.protocol_histogram ++ entry_of a.protocol frame_length ∷ []
          else b.protocol_histogram;
      destination_port_histogram =
          if ip && (a.protocol == 6 || a.protocol == 17)
          then b.destination_port_histogram ++ entry_of a.destination_port frame_length ∷ []
          else b.destination_port_histogram;
      flows =
          if ip
          then b.flows
            ++ record {
              key = make_flow_key a;
              flow_hash = a.flow_hash;
              packet_count = 1;
              byte_count = frame_length;
            }
              ∷ []
          else b.flows;
    }

abbrev pub push_packet : PacketAnalysis → AnalysisBatch → AnalysisBatch
push_packet a b = record b { packets = b.packets ++ a ∷ [] }

-- The body of the loop: the learned addresses, and the batch.
unfoldable pub aggregate_packet :
    List MacAddress × AnalysisBatch → PacketAnalysis × ℕ → List MacAddress × AnalysisBatch
aggregate_packet (learned, b) (a, frame_length) =
    let counted = count_frame frame_length b in
    let classified : PacketAnalysis = record a { classification = classify learned a } in
    if has_ethernet a.validity
    then (
      if is_learned learned a.source_mac then learned else a.source_mac ∷ learned,
      push_packet classified
          (count_class (classify learned a) (record_ethernet a frame_length counted)),
    )
    else (
      learned,
      push_packet a (record counted { malformed_packets = add_u64 counted.malformed_packets 1 }),
    )

unfoldable pub aggregate_all :
    List MacAddress × AnalysisBatch → List (PacketAnalysis × ℕ) → List MacAddress × AnalysisBatch
aggregate_all state [] = state
aggregate_all state (p ∷ ps) = aggregate_all (aggregate_packet state p) ps
