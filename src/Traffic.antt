-- ===== src/Traffic.antt =====
-- The maps that `AnomalyDetector::evaluate` of src/anomaly_detector.cpp fills from the packets of its
-- window. A `std::map` iterates by key; what comes of the iteration is sorted afterwards by fields that hold the key, so
-- the order of an association list serves.
use packet_switch.Prelude.{
  [], List, ℕ, Option, ◌&&◌, Bool, true, some, if◌then◌else◌, ◌==◌, ◌∷◌, false, any_of, ◌||◌, ◌+◌,
  not, ◌%◌, ◌^◌, ℕ_discrete, none, value_or, ◌++◌,
}
use packet_switch.Frame.{MacAddress, mac_discrete}
use packet_switch.Prelude.Maps.{assign, find}
use packet_switch.Packet.{
  broadcast, PacketAnalysis, PacketClassification, valid, malformed, unknown_unicast,
  malformed_ethernet, malformed_ipv4, malformed_transport,
}

pub record ObservedPacket : Type 0 where
  pub timestamp_ns : ℕ
  pub packet : PacketAnalysis

pub record TrafficCounter : Type 0 where
  pub packets : ℕ
  pub bytes : ℕ
  pub ingress_port : ℕ

abbrev pub is_valid : PacketAnalysis → Bool
is_valid p = elim p.validity [
  | valid ↦ true
  | malformed_ethernet ↦ false
  | malformed_ipv4 ↦ false
  | malformed_transport ↦ false
]

abbrev pub is_class_broadcast : PacketClassification → Bool
is_class_broadcast broadcast = true
is_class_broadcast _ = false

abbrev pub is_class_unknown : PacketClassification → Bool
is_class_unknown unknown_unicast = true
is_class_unknown _ = false

abbrev pub is_class_malformed : PacketClassification → Bool
is_class_malformed malformed = true
is_class_malformed _ = false

-- The maps that `evaluate` fills.
pub record Tables : Type 0 where
  pub broadcasts : List (MacAddress × TrafficCounter)
  pub unknown_unicasts : List (MacAddress × TrafficCounter)
  pub udp_sources : List (ℕ × TrafficCounter)
  pub scan_destinations : List (ℕ × List ℕ)
  pub scan_ingress_ports : List (ℕ × ℕ)
  pub ingress_ports : List (MacAddress × List ℕ)
  pub source_traffic : List (MacAddress × TrafficCounter)
  pub malformed_ingress_ports : List (ℕ × TrafficCounter)

abbrev pub no_tables : Tables
no_tables = record {
  broadcasts = [];
  unknown_unicasts = [];
  udp_sources = [];
  scan_destinations = [];
  scan_ingress_ports = [];
  ingress_ports = [];
  source_traffic = [];
  malformed_ingress_ports = [];
}

-- A counter of `counters[key]`, which starts at 0, with one packet more.
abbrev pub bump : Option TrafficCounter → PacketAnalysis → TrafficCounter
bump none p = record { packets = 1; bytes = p.frame_length; ingress_port = p.ingress_port }
bump (some counter) p = record {
  packets = (counter.packets + 1) % 2 ^ 64;
  bytes = (counter.bytes + p.frame_length) % 2 ^ 64;
  ingress_port = p.ingress_port;
}

abbrev pub bump_if :
    {K : Type 0}
    → Discrete K
    → Bool
    → K
    → PacketAnalysis
    → List (K × TrafficCounter)
    → List (K × TrafficCounter)
bump_if dec test key p m = if test then assign dec key (bump (find dec key m) p) m else m

-- `std::set::insert`.
abbrev pub set_insert : ℕ → List ℕ → List ℕ
set_insert x xs = if any_of (λ y. y == x) xs then xs else x ∷ xs

-- The body of the loop over the observations.
unfoldable pub observe : Tables → PacketAnalysis → Tables
observe t p =
    let udp = is_valid p && p.protocol == 17 in
    let scanned = is_valid p && (p.protocol == 6 || p.protocol == 17) in
    let formed = not (is_class_malformed p.classification) in
    record {
      broadcasts =
          bump_if mac_discrete (is_class_broadcast p.classification) p.source_mac p t.broadcasts;
      unknown_unicasts =
          bump_if mac_discrete (is_class_unknown p.classification) p.source_mac p
            t.unknown_unicasts;
      udp_sources = bump_if ℕ_discrete udp p.source_ipv4 p t.udp_sources;
      scan_destinations =
          if scanned
          then assign ℕ_discrete p.source_ipv4
              (set_insert p.destination_port
                (value_or (find ℕ_discrete p.source_ipv4 t.scan_destinations) []))
              t.scan_destinations
          else t.scan_destinations;
      scan_ingress_ports =
          if scanned
          then assign ℕ_discrete p.source_ipv4 p.ingress_port t.scan_ingress_ports
          else t.scan_ingress_ports;
      ingress_ports =
          if formed
          then assign mac_discrete p.source_mac
              (value_or (find mac_discrete p.source_mac t.ingress_ports) [] ++ p.ingress_port ∷ [])
              t.ingress_ports
          else t.ingress_ports;
      source_traffic = bump_if mac_discrete (is_valid p) p.source_mac p t.source_traffic;
      malformed_ingress_ports =
          bump_if ℕ_discrete (not (is_valid p)) p.ingress_port p t.malformed_ingress_ports;
    }

unfoldable pub observe_all : Tables → List ObservedPacket → Tables
observe_all t [] = t
observe_all t (o ∷ os) = observe_all (observe t o.packet) os
