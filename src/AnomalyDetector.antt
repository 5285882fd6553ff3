-- ===== src/AnomalyDetector.antt =====
-- src/anomaly_detector.cpp and include/wirelab/anomaly_detector.hpp: the sliding window over the
-- analysed packets, and the anomalies that start in it.
pub mod Window
pub mod Storms
use packet_switch.Prelude.{
  ◌≡◌, [], List, ℕ, false, if◌then◌else◌, select, ◌∷◌, Bool, ℕ_discrete, map, ltb, any_of, not,
  ◌++◌, ◌==◌, Option, value_or, ◌+◌, ◌-◌, ◌&&◌, holds, true, none, leb, length, some,
}
use packet_switch.Traffic.{observe_all, Tables, TrafficCounter, ObservedPacket, no_tables}
use packet_switch.Packet.{PacketAnalysis}
use packet_switch.Frame.{MacAddress, mac_discrete, zero_mac, mac_bytes}
use packet_switch.Anomaly.{
  AnomalyEvent, AnomalyType, anomaly_discrete, mac_flap, port_scan, malformed_frame, udp_flood,
  broadcast_storm, ordinal, unknown_unicast_flood, hot_talker,
}
use packet_switch.Prelude.Sorting.{sort}
use packet_switch.Prelude.Maps.{find}
use packet_switch.Prelude.Texts.{text_lt}

pub record AnomalyDetectorConfig : Type 0 where
  pub window_duration_ns : ℕ
  pub broadcast_packets_threshold : ℕ
  pub mac_flap_transitions_threshold : ℕ
  pub unknown_unicast_packets_threshold : ℕ
  pub udp_packets_threshold : ℕ
  pub port_scan_destinations_threshold : ℕ
  pub hot_talker_packets_threshold : ℕ
  pub malformed_frames_threshold : ℕ

pub record ActiveAnomaly : Type 0 where
  pub type : AnomalyType
  pub source_mac : MacAddress
  pub source_ipv4 : ℕ
  pub ingress_port : ℕ

unfoldable pub active_discrete : Discrete ActiveAnomaly
active_discrete = hlevel (anomaly_discrete, mac_discrete, ℕ_discrete)

pub record AnomalyDetector : Type 0 where
  pub config : AnomalyDetectorConfig
  pub observations : List ObservedPacket
  pub active_anomalies : List ActiveAnomaly
  pub last_timestamp_ns : ℕ
  pub has_timestamp : Bool

-- The changes from each port to the next.
unfoldable pub transitions : List ℕ → ℕ
transitions [] = 0
transitions (port ∷ []) = 0
transitions (port ∷ next ∷ ports) = (if next == port then 0 else 1) + transitions (next ∷ ports)

abbrev pub last_or : ℕ → List ℕ → ℕ
last_or port [] = port
last_or port (next ∷ ports) = last_or next ports

-- `add_candidate`: whether the evidence is above a threshold that is set.
abbrev pub exceeds : AnomalyEvent → Bool
exceeds e =
    not (e.threshold == 0)
    && not (leb e.observed_packets e.threshold && leb e.observed_distinct_destinations e.threshold)

abbrev pub mac_event :
    AnomalyDetectorConfig → AnomalyType → ℕ → MacAddress × TrafficCounter → AnomalyEvent
mac_event config type threshold (mac, counter) = record {
  type = type;
  source_mac = mac;
  source_ipv4 = 0;
  ingress_port = counter.ingress_port;
  observed_packets = counter.packets;
  observed_bytes = counter.bytes;
  observed_distinct_destinations = 0;
  threshold = threshold;
  window_duration_ns = config.window_duration_ns;
}

abbrev pub udp_event : AnomalyDetectorConfig → ℕ × TrafficCounter → AnomalyEvent
udp_event config (source_ipv4, counter) =
    record (mac_event config udp_flood config.udp_packets_threshold (zero_mac, counter)) {
      source_ipv4 = source_ipv4;
    }

abbrev pub malformed_event : AnomalyDetectorConfig → ℕ × TrafficCounter → AnomalyEvent
malformed_event config (ingress_port, counter) =
    record (mac_event config malformed_frame config.malformed_frames_threshold
      (zero_mac, counter)) { ingress_port = ingress_port }

abbrev pub scan_event : AnomalyDetectorConfig → List (ℕ × ℕ) → ℕ × List ℕ → AnomalyEvent
scan_event config ports (source_ipv4, destinations) = record {
  type = port_scan;
  source_mac = zero_mac;
  source_ipv4 = source_ipv4;
  ingress_port = value_or (find ℕ_discrete source_ipv4 ports) 0;
  observed_packets = 0;
  observed_bytes = 0;
  observed_distinct_destinations = length destinations;
  threshold = config.port_scan_destinations_threshold;
  window_duration_ns = config.window_duration_ns;
}

abbrev pub flap_event : AnomalyDetectorConfig → MacAddress × List ℕ → AnomalyEvent
flap_event config (mac, ports) = record {
  type = mac_flap;
  source_mac = mac;
  source_ipv4 = 0;
  ingress_port = last_or 0 ports;
  observed_packets = transitions ports;
  observed_bytes = 0;
  observed_distinct_destinations = 0;
  threshold = config.mac_flap_transitions_threshold;
  window_duration_ns = config.window_duration_ns;
}

-- The seven loops that call `add_candidate`.
unfoldable pub candidates : AnomalyDetectorConfig → Tables → List AnomalyEvent
candidates config t = select exceeds (
    map (mac_event config broadcast_storm config.broadcast_packets_threshold) t.broadcasts
    ++ (map (mac_event config unknown_unicast_flood config.unknown_unicast_packets_threshold)
          t.unknown_unicasts
        ++ (map (udp_event config) t.udp_sources
            ++ (map (scan_event config t.scan_ingress_ports) t.scan_destinations
                ++ (map (flap_event config) t.ingress_ports
                    ++ (map (mac_event config hot_talker config.hot_talker_packets_threshold)
                          t.source_traffic
                        ++ map (malformed_event config) t.malformed_ingress_ports))))))

abbrev pub event_less : AnomalyEvent → AnomalyEvent → Bool
event_less a b =
    if ltb (ordinal a.type) (ordinal b.type)
    then true
    else if ltb (ordinal b.type) (ordinal a.type)
    then false
    else if text_lt (mac_bytes a.source_mac) (mac_bytes b.source_mac)
    then true
    else if text_lt (mac_bytes b.source_mac) (mac_bytes a.source_mac)
    then false
    else if ltb a.source_ipv4 b.source_ipv4
    then true
    else if ltb b.source_ipv4 a.source_ipv4
    then false
    else ltb a.ingress_port b.ingress_port

abbrev pub active_of : AnomalyEvent → ActiveAnomaly
active_of e = record {
  type = e.type;
  source_mac = e.source_mac;
  source_ipv4 = e.source_ipv4;
  ingress_port = e.ingress_port;
}

abbrev pub is_active : List ActiveAnomaly → AnomalyEvent → Bool
is_active active e = any_of (λ a. holds (active_discrete a (active_of e))) active

-- `AnomalyDetector(config)`: `none` is the exception `std::invalid_argument`.
unfoldable pub init : AnomalyDetectorConfig → Option AnomalyDetector
init config =
    if config.window_duration_ns == 0
    then none
    else some (record {
      config = config;
      observations = [];
      active_anomalies = [];
      last_timestamp_ns = 0;
      has_timestamp = false;
    })

-- The loop of `expire`.
unfoldable pub drop_before : ℕ → List ObservedPacket → List ObservedPacket
drop_before cutoff [] = []
drop_before cutoff (o ∷ os) = if ltb o.timestamp_ns cutoff then drop_before cutoff os else o ∷ os

abbrev pub cutoff_at : AnomalyDetectorConfig → ℕ → ℕ
cutoff_at config timestamp_ns =
    if ltb config.window_duration_ns timestamp_ns
    then timestamp_ns - config.window_duration_ns
    else 0

abbrev pub stamp : ℕ → PacketAnalysis → ObservedPacket
stamp timestamp_ns p = record { timestamp_ns = timestamp_ns; packet = p }

-- The observations after the new packets are in and the old ones out.
unfoldable pub slide : AnomalyDetector → List PacketAnalysis → ℕ → List ObservedPacket
slide d packets timestamp_ns =
    drop_before (cutoff_at d.config timestamp_ns)
      (d.observations ++ map (stamp timestamp_ns) packets)

-- All candidates of the window, in the order of the report.
unfoldable pub current : AnomalyDetectorConfig → List ObservedPacket → List AnomalyEvent
current config observations =
    sort event_less (candidates config (observe_all no_tables observations))

-- `none` is the exception `std::invalid_argument`.
unfoldable pub evaluate :
    AnomalyDetector → List PacketAnalysis → ℕ → AnomalyDetector × Option (List AnomalyEvent)
evaluate d packets timestamp_ns =
    let window = slide d packets timestamp_ns in
    let found = current d.config window in
    if d.has_timestamp && ltb timestamp_ns d.last_timestamp_ns then (d, none) else (
      record d {
        observations = window;
        active_anomalies = map active_of found;
        last_timestamp_ns = timestamp_ns;
        has_timestamp = true;
      },
      some (select (λ e. not (is_active d.active_anomalies e)) found),
    )

unfoldable pub reset : AnomalyDetector → AnomalyDetector
reset d = record d {
  observations = [];
  active_anomalies = [];
  last_timestamp_ns = 0;
  has_timestamp = false;
}
