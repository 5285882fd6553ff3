-- ===== src/Tests.antt =====
-- Concrete inputs for the theorems: a star of two hosts, its controller, rules and leases.
mod Frames
mod Faults
pub mod Requests
mod Control
mod Policies
mod Switching
mod Detection
mod Supervision
mod Analysis
mod Traffic
use packet_switch.TrafficGenerator.{DeterministicTrafficGenerator}
use packet_switch.FaultEngine
use packet_switch.SwitchSupervisor
use packet_switch.PolicyEngine
use packet_switch.TopologyController
use packet_switch.TopologyController.{init, TopologyController, load, set_port_fault}
use packet_switch.Prelude.{◌≡◌, List, [], ℕ, ◌∷◌, suc, false, true, some, none, ◌++◌}
use packet_switch.Anomaly.{AnomalyEvent, udp_flood, mac_flap}
use packet_switch.PolicyEnforcer.{PolicyEnforcer, PolicyEnforcerConfig}
use packet_switch.Frame.{EthernetFrame, MacAddress, serialize, mac_bytes}
use packet_switch.MacTable.{MacTable, Endpoint}
use packet_switch.Topology.{TopologyConfiguration, Topology, switch, host}
use packet_switch.FaultEngine.{
  FaultEngine, FaultConfiguration, FaultState, fresh_state, set_fault, no_fault, drop_frame,
}
use packet_switch.PolicyEngine.{PolicyEngine, PolicyRule, PolicyDecision, PolicyAction}
use packet_switch.VSwitch.{UdpSocket, VSwitch, FrameGate, Pass, received, failed}
use packet_switch.Prelude.Int.{pos, ◌+ℤ◌}
use packet_switch.Prelude.Texts.{ascii, Text}
use packet_switch.SwitchMetrics.{no_metrics}
use packet_switch.AnalysisPipeline.{AnalysisPipeline}
use packet_switch.Packet.{PacketAnalysis, valid, PacketClassification, no_analysis, PacketView}
use packet_switch.AnomalyDetector.{AnomalyDetector}
use packet_switch.Aggregator.{HistogramEntry}
use packet_switch.SwitchSupervisor.Accounts.{GateCall, inspecting, ticking}
use packet_switch.SwitchSupervisor.{SwitchSupervisor, ControlServer}
use packet_switch.TrafficShape.{TrafficGeneratorConfig, TrafficScenario}

abbrev pub mac_a : MacAddress
mac_a = record { b0 = 2; b1 = 0; b2 = 0; b3 = 0; b4 = 0; b5 = 10 }

abbrev pub mac_b : MacAddress
mac_b = record { b0 = 2; b1 = 0; b2 = 0; b3 = 0; b4 = 0; b5 = 11 }

abbrev pub frame_ab : EthernetFrame
frame_ab = record { dst_mac = mac_b; src_mac = mac_a; ethertype = 2048; payload = ascii "hello" }

abbrev pub endpoint_a : Endpoint
endpoint_a = record { address = ascii "127.0.0.1"; port = 5000 }

abbrev pub endpoint_b : Endpoint
endpoint_b = record { address = ascii "127.0.0.1"; port = 5001 }

abbrev pub endpoint_c : Endpoint
endpoint_c = record { address = ascii "10.0.0.3"; port = 5002 }

abbrev pub macs : MacTable
macs = (mac_a, endpoint_a) ∷ (mac_b, endpoint_b) ∷ []

abbrev pub star : TopologyConfiguration
star = record {
  name = ascii "lab";
  nodes =
      record { id = ascii "s"; type = switch }
      ∷ record { id = ascii "a"; type = host }
      ∷ record { id = ascii "b"; type = host }
      ∷ [];
  links =
      record { from = ascii "a"; to = ascii "s"; latency = pos 2 }
      ∷ record { from = ascii "s"; to = ascii "b"; latency = pos 0 }
      ∷ [];
}

abbrev pub star_topology : Topology
star_topology = record { configuration = star; switch_index = 0 }

abbrev pub slow_fault : FaultConfiguration
slow_fault = record no_fault {
  latency = pos 5;
  jitter = pos 3;
  bandwidth_bits_per_second = 1000000;
}

abbrev pub lossy_fault : FaultConfiguration
lossy_fault = record slow_fault { loss_basis_points = 2500; duplication_basis_points = 100 }

abbrev pub faulty_engine : FaultEngine
faulty_engine = (set_fault (FaultEngine.init 7) (ascii "port:1:a") lossy_fault).0

abbrev pub lossy_state : FaultState
lossy_state = fresh_state 7 (ascii "port:1:a") lossy_fault

abbrev pub lab : TopologyController
lab = load (init 7) star_topology

abbrev pub flood : AnomalyEvent
flood = record {
  type = udp_flood;
  source_mac = mac_a;
  source_ipv4 = 10;
  ingress_port = 0;
  observed_packets = 50;
  observed_bytes = 5000;
  observed_distinct_destinations = 0;
  threshold = 20;
  window_duration_ns = 1000000000;
}

abbrev pub limit_rule : PolicyRule
limit_rule = record {
  name = ascii "limit";
  anomaly_type = udp_flood;
  action = PolicyAction.rate_limit;
  enabled = true;
  rate_limit_packets_per_second = 10;
}

abbrev pub isolate_rule : PolicyRule
isolate_rule = record {
  name = ascii "isolate";
  anomaly_type = mac_flap;
  action = PolicyAction.quarantine;
  enabled = true;
  rate_limit_packets_per_second = 0;
}

abbrev pub rules : List PolicyRule
rules = limit_rule ∷ isolate_rule ∷ []

abbrev pub policies : PolicyEngine
policies = record { rules = rules; hit_counts = [] }

abbrev pub leasing : PolicyEnforcerConfig
leasing = record {
  rate_limit_lease = pos 10;
  drop_lease = pos 20;
  quarantine_lease = pos 30;
  assumed_frame_bytes = 512;
}

abbrev pub enforcer : PolicyEnforcer
enforcer = record { config = leasing; leases = [] }

abbrev pub decisions : List PolicyDecision
decisions =
    (PolicyEngine.evaluate policies
      (flood ∷ record flood { type = mac_flap; ingress_port = 1 } ∷ [])).1

-- A socket that counts what it is handed, and a gate that lets every frame through twice.
abbrev pub counting : UdpSocket ℕ
counting = record { send_to = λ n frame to. (suc n, true); close = λ n. n }

abbrev pub doubling : FrameGate ℕ
doubling = record {
  inspect = λ n frame sender now. (
    suc n,
    record {
      dropped = false;
      delivery_count = 2;
      delivery_times = now ∷ (now +ℤ pos 4000000) ∷ [];
    },
  );
  tick = λ n now. n;
  tick_interval = λ n. pos 200;
}

-- A gate that drops every frame.
abbrev pub blocking : FrameGate ℕ
blocking = record {
  inspect = λ n frame sender now. (suc n, drop_frame);
  tick = λ n now. n;
  tick_interval = λ n. pos 200;
}

abbrev pub switching : VSwitch ℕ ℕ
switching = record {
  socket = 0;
  mac_table = [];
  metrics = no_metrics;
  running = false;
  gate = some 0;
  pending =
      record { due = pos 3000000; frame_data = ascii "x"; destination = endpoint_a }
      ∷ record { due = pos 9000000; frame_data = ascii "y"; destination = endpoint_b }
      ∷ [];
}

abbrev pub two_passes : List Pass
two_passes =
    record {
      drained_at = pos 1000000;
      wakeup = received (serialize frame_ab) endpoint_a;
      handled_at = pos 1000010;
      ticked_at = pos 1000020;
    }
    ∷ record {
      drained_at = pos 4000000;
      wakeup = failed;
      handled_at = pos 4000010;
      ticked_at = pos 4000020;
    }
    ∷ []

abbrev pub stormy : PacketAnalysis
stormy = record no_analysis {
  source_mac = mac_a;
  source_ipv4 = 10;
  destination_port = 53;
  frame_length = 64;
  ingress_port = 0;
  protocol = 17;
  validity = valid;
  classification = PacketClassification.broadcast;
}

abbrev pub detector : AnomalyDetector
detector = record {
  config = record {
    window_duration_ns = 100;
    broadcast_packets_threshold = 1;
    mac_flap_transitions_threshold = 0;
    unknown_unicast_packets_threshold = 0;
    udp_packets_threshold = 1;
    port_scan_destinations_threshold = 0;
    hot_talker_packets_threshold = 0;
    malformed_frames_threshold = 0;
  };
  observations = [];
  active_anomalies = [];
  last_timestamp_ns = 0;
  has_timestamp = false;
}

abbrev pub pipeline : AnalysisPipeline
pipeline = record {
  detector = detector;
  policies = policies;
  enforcer = enforcer;
  attached = true;
  last_timestamp_ns = 0;
}

-- A UDP datagram without a payload, from port 7 to port 9.
abbrev pub udp_packet : Text
udp_packet =
    69 ∷ 0 ∷ 0 ∷ 28 ∷ 0 ∷ 0 ∷ 0 ∷ 0 ∷ 64 ∷ 17 ∷ 0 ∷ 0 ∷ 10 ∷ 0 ∷ 0 ∷ 1 ∷ 10 ∷ 0 ∷ 0 ∷ 2 ∷ 0 ∷ 7 ∷ 0
    ∷ 9 ∷ 0 ∷ 8 ∷ 0 ∷ 0 ∷ []

abbrev pub view_ab : PacketView
view_ab = record {
  bytes = some (mac_bytes mac_b ++ mac_bytes mac_a ++ 8 ∷ 0 ∷ udp_packet);
  size = 42;
  ingress_port = 1;
}

abbrev pub views_ab : List PacketView
views_ab =
    record { bytes = some (ascii "hello"); size = 5; ingress_port = 1 }
    ∷ record { bytes = none; size = 0; ingress_port = 2 }
    ∷ []

abbrev pub analyses_ab : List (PacketAnalysis × ℕ)
analyses_ab =
    (record no_analysis { source_mac = mac_a; destination_mac = mac_b; validity = valid }, 64)
    ∷ (record no_analysis { source_mac = mac_b; destination_mac = mac_a; validity = valid }, 1600)
    ∷ (no_analysis, 5)
    ∷ []

abbrev pub histogram : List HistogramEntry
histogram =
    record { value = 17; packet_count = 1; byte_count = 64 }
    ∷ record { value = 6; packet_count = 1; byte_count = 80 }
    ∷ record { value = 17; packet_count = 1; byte_count = 100 }
    ∷ []

-- A server that counts what is published.
abbrev pub serving : ControlServer ℕ
serving = record {
  poll = λ c p t. (c, p, t);
  publish_analysis = λ c outcome. suc c;
  publish_supervision = λ c snapshot. suc c;
}

abbrev pub isolating : FaultConfiguration
isolating = record no_fault { isolated = true }

abbrev pub contained_lab : TopologyController
contained_lab = (set_port_fault lab (ascii "a") isolating).0

abbrev pub supervisor : SwitchSupervisor ℕ (List MacAddress)
supervisor =
    SwitchSupervisor.init pipeline contained_lab
      (record { tick_interval = pos 200; max_batch_frames = 2 }) []

abbrev pub idle_supervisor : SwitchSupervisor ℕ (List MacAddress)
idle_supervisor =
    SwitchSupervisor.init pipeline lab (record { tick_interval = pos 200; max_batch_frames = 2 }) []

abbrev pub supervised : VSwitch ℕ (SwitchSupervisor ℕ (List MacAddress))
supervised = record {
  socket = 0;
  mac_table = [];
  metrics = no_metrics;
  running = true;
  gate = some supervisor;
  pending = [];
}

abbrev pub gate_calls : List GateCall
gate_calls =
    inspecting (ascii "hello") endpoint_a (pos 5)
    ∷ inspecting (ascii "hello") endpoint_b (pos 6)
    ∷ ticking (pos 300000000)
    ∷ inspecting (ascii "hello") endpoint_a (pos 300000001)
    ∷ []

abbrev pub flooding : TrafficGeneratorConfig
flooding = record {
  scenario = TrafficScenario.udp_flood;
  seed = 1;
  frame_size = 64;
  host_count = 16;
}

abbrev pub flooding_generator : DeterministicTrafficGenerator
flooding_generator = record { config = flooding; sequence = 0 }
