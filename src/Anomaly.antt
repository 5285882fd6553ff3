-- ===== src/Anomaly.antt =====
-- The anomaly events of include/wirelab/anomaly_detector.hpp.
use packet_switch.Prelude.{ℕ, Bool, holds}
use packet_switch.Frame.{MacAddress}

pub data AnomalyType : Type 0 where
  broadcast_storm mac_flap unknown_unicast_flood udp_flood port_scan : AnomalyType
  hot_talker malformed_frame : AnomalyType

unfoldable pub anomaly_discrete : Discrete AnomalyType
anomaly_discrete = hlevel

abbrev pub type_eq : AnomalyType → AnomalyType → Bool
type_eq a b = holds (anomaly_discrete a b)

-- The order of an `enum class` is that of its enumerators.
abbrev pub ordinal : AnomalyType → ℕ
ordinal broadcast_storm = 0
ordinal mac_flap = 1
ordinal unknown_unicast_flood = 2
ordinal udp_flood = 3
ordinal port_scan = 4
ordinal hot_talker = 5
ordinal malformed_frame = 6

pub record AnomalyEvent : Type 0 where
  pub type : AnomalyType
  pub source_mac : MacAddress
  pub source_ipv4 : ℕ
  pub ingress_port : ℕ
  pub observed_packets : ℕ
  pub observed_bytes : ℕ
  pub observed_distinct_destinations : ℕ
  pub threshold : ℕ
  pub window_duration_ns : ℕ
