-- ===== src/SwitchMetrics.antt =====
-- src/switch_metrics.cpp and include/wirelab/switch_metrics.hpp: the switch's counters. A counter is
-- an atomic `uint64_t`; one `fetch_add` is one step here.
use packet_switch.Prelude.{ℕ, ◌+◌, ◌%◌, ◌^◌}

pub record SwitchMetrics : Type 0 where
  pub received_packets : ℕ
  pub received_bytes : ℕ
  pub forwarded_packets : ℕ
  pub forwarded_bytes : ℕ
  pub broadcast_packets : ℕ
  pub unknown_unicast_packets : ℕ
  pub dropped_packets : ℕ
  pub malformed_packets : ℕ
  pub learned_macs : ℕ

abbrev pub no_metrics : SwitchMetrics
no_metrics = record {
  received_packets = 0;
  received_bytes = 0;
  forwarded_packets = 0;
  forwarded_bytes = 0;
  broadcast_packets = 0;
  unknown_unicast_packets = 0;
  dropped_packets = 0;
  malformed_packets = 0;
  learned_macs = 0;
}

abbrev pub fetch_add : ℕ → ℕ → ℕ
fetch_add counter n = (counter + n) % 2 ^ 64

abbrev pub record_received : SwitchMetrics → ℕ → SwitchMetrics
record_received m bytes = record m {
  received_packets = fetch_add m.received_packets 1;
  received_bytes = fetch_add m.received_bytes bytes;
}

abbrev pub record_forwarded : SwitchMetrics → ℕ → SwitchMetrics
record_forwarded m bytes = record m {
  forwarded_packets = fetch_add m.forwarded_packets 1;
  forwarded_bytes = fetch_add m.forwarded_bytes bytes;
}

abbrev pub record_broadcast : SwitchMetrics → SwitchMetrics
record_broadcast m = record m { broadcast_packets = fetch_add m.broadcast_packets 1 }

abbrev pub record_unknown_unicast : SwitchMetrics → SwitchMetrics
record_unknown_unicast m = record m {
  unknown_unicast_packets = fetch_add m.unknown_unicast_packets 1;
}

abbrev pub record_drop : SwitchMetrics → SwitchMetrics
record_drop m = record m { dropped_packets = fetch_add m.dropped_packets 1 }

abbrev pub record_malformed : SwitchMetrics → SwitchMetrics
record_malformed m = record m { malformed_packets = fetch_add m.malformed_packets 1 }

abbrev pub record_mac_learned : SwitchMetrics → SwitchMetrics
record_mac_learned m = record m { learned_macs = fetch_add m.learned_macs 1 }
