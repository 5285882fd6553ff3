-- ===== src/ControlProtocol/Events.antt =====
-- The events of include/wirelab/control_protocol.hpp and their `to_json`. A `double` and
-- `json_number`, which formats it by `std::ostringstream`, are parameters.
pub mod Apart
use packet_switch.ControlProtocol.{ControlReply}
use packet_switch.ControlProtocol.Printing.{signed_decimal, configuration_members}
use packet_switch.Json.Strings.{json_string}
use packet_switch.Json.Numbers.{bool_text}
use packet_switch.PolicyEngine.{
  PolicyAction, allow, drop, mirror, rate_limit, quarantine, alert_only, PolicyDecision,
}
use packet_switch.Prelude.{ℕ, Bool, List, ◌∷◌, ◌++◌, [], if◌then◌else◌}
use packet_switch.Topology.{TopologyNode, TopologyLink, TopologyNodeType, host, switch}
use packet_switch.SwitchMetrics.{SwitchMetrics}
use packet_switch.Anomaly.{
  AnomalyType, AnomalyEvent, broadcast_storm, mac_flap, unknown_unicast_flood, udp_flood, port_scan,
  hot_talker, malformed_frame,
}
use packet_switch.Prelude.Texts.{Text, ascii, is_empty}
use packet_switch.FaultEngine.{FaultConfiguration}
use packet_switch.Benchmark.{BenchmarkResult}
use packet_switch.Frame.{mac_to_string}
use packet_switch.Prelude.Decimal.{decimal}

-- The members that every event has.
pub record EventStamp : Type 0 where
  pub api_version : ℕ
  pub event_sequence : ℕ
  pub topology_revision : ℕ

pub record FaultStateEvent : Type 0 where
  pub stamp : EventStamp
  pub first_endpoint : Text
  pub second_endpoint : Text
  pub configuration : FaultConfiguration
  pub active : Bool

pub record TopologyStateEvent : Type 0 where
  pub stamp : EventStamp
  pub name : Text
  pub nodes : List TopologyNode
  pub links : List TopologyLink

pub record SwitchMetricsEvent : Type 0 where
  pub stamp : EventStamp
  pub metrics : SwitchMetrics

pub record AnomalyDetectedEvent : Type 0 where
  pub stamp : EventStamp
  pub anomaly : AnomalyEvent

pub record PolicyActionEvent : Type 0 where
  pub stamp : EventStamp
  pub decision : PolicyDecision

-- A `PortBinding` is a port and an endpoint.
pub record SupervisionStateEvent : Type 0 where
  pub stamp : EventStamp
  pub analysed_frames : ℕ
  pub blocked_frames : ℕ
  pub bindings : List (Text × Text)

pub record BenchmarkProgressEvent : Type 0 where
  pub stamp : EventStamp
  pub operation_id : Text
  pub completed_packets : ℕ
  pub total_packets : ℕ

pub record BenchmarkResultEvent (R : Type 0) : Type 0 where
  pub stamp : EventStamp
  pub operation_id : Text
  pub completed : Bool
  pub result : R

abbrev pub anomaly_type_name : AnomalyType → Text
anomaly_type_name broadcast_storm = ascii "broadcast_storm"
anomaly_type_name mac_flap = ascii "mac_flap"
anomaly_type_name unknown_unicast_flood = ascii "unknown_unicast_flood"
anomaly_type_name udp_flood = ascii "udp_flood"
anomaly_type_name port_scan = ascii "port_scan"
anomaly_type_name hot_talker = ascii "hot_talker"
anomaly_type_name malformed_frame = ascii "malformed_frame"

-- `to_string(PolicyAction)` and `to_string(TopologyNodeType)`.
abbrev pub action_name : PolicyAction → Text
action_name allow = ascii "allow"
action_name drop = ascii "drop"
action_name mirror = ascii "mirror"
action_name rate_limit = ascii "rate_limit"
action_name quarantine = ascii "quarantine"
action_name alert_only = ascii "alert_only"

abbrev pub node_type_name : TopologyNodeType → Text
node_type_name host = ascii "host"
node_type_name switch = ascii "switch"

-- The elements of an array, with a comma before each but the first.
unfoldable pub separated : {A : Type 0} → (A → Text) → List A → Text
separated print [] = []
separated print (x ∷ []) = print x
separated print (x ∷ y ∷ others) = print x ++ (b',' ∷ separated print (y ∷ others))

unfoldable pub anomaly_json : AnomalyEvent → Text → Text
anomaly_json a rest =
    ascii "{\"type\":"
    ++ (json_string (anomaly_type_name a.type)
        ++ (ascii ",\"source_mac\":"
            ++ (json_string (mac_to_string a.source_mac)
                ++ (ascii ",\"source_ipv4\":"
                    ++ (decimal a.source_ipv4
                        ++ (ascii ",\"ingress_port\":"
                            ++ (decimal a.ingress_port
                                ++ (ascii ",\"observed_packets\":"
                                    ++ (decimal a.observed_packets
                                        ++ (ascii ",\"observed_bytes\":"
                                            ++ (decimal a.observed_bytes
                                                ++ (ascii ",\"observed_distinct_destinations\":"
                                                    ++ (decimal a.observed_distinct_destinations
                                                        ++ (ascii ",\"threshold\":"
                                                            ++ (decimal a.threshold
                                                            ++ (ascii ",\"window_duration_ns\":"
                                                            ++ (decimal a.window_duration_ns
                                                            ++ (b'}' ∷ rest))))))))))))))))))

-- Up to the revision, with which every event begins.
unfoldable pub stamped : EventStamp → Text → Text
stamped e rest =
    ascii "{\"api_version\":"
    ++ (decimal e.api_version
        ++ (ascii ",\"event_sequence\":"
            ++ (decimal e.event_sequence
                ++ (ascii ",\"topology_revision\":" ++ (decimal e.topology_revision ++ rest)))))

unfoldable pub switch_metrics_to_json : SwitchMetricsEvent → Text
unfolding stamped
switch_metrics_to_json e =
    let m = e.metrics in
    stamped e.stamp (
      ascii ",\"event\":\"switch_metrics\",\"metrics\":{\"received_packets\":"
      ++ (decimal m.received_packets
          ++ (ascii ",\"received_bytes\":"
              ++ (decimal m.received_bytes
                  ++ (ascii ",\"forwarded_packets\":"
                      ++ (decimal m.forwarded_packets
                          ++ (ascii ",\"forwarded_bytes\":"
                              ++ (decimal m.forwarded_bytes
                                  ++ (ascii ",\"broadcast_packets\":"
                                      ++ (decimal m.broadcast_packets
                                          ++ (ascii ",\"unknown_unicast_packets\":"
                                              ++ (decimal m.unknown_unicast_packets
                                                  ++ (ascii ",\"dropped_packets\":"
                                                      ++ (decimal m.dropped_packets
                                                          ++ (ascii ",\"malformed_packets\":"
                                                            ++ (decimal m.malformed_packets
                                                            ++ (ascii ",\"learned_macs\":"
                                                            ++ (decimal m.learned_macs
                                                            ++ ascii "}}"))))))))))))))))))

unfoldable pub fault_state_to_json : FaultStateEvent → Text
unfolding stamped configuration_members
fault_state_to_json e = stamped e.stamp (
    ascii ",\"event\":\"fault_state_changed\",\"active\":"
    ++ (bool_text e.active
        ++ (ascii ",\"first_endpoint\":"
            ++ (json_string e.first_endpoint
                ++ ((if is_empty e.second_endpoint
                      then []
                      else ascii ",\"second_endpoint\":" ++ json_string e.second_endpoint)
                    ++ (if e.active
                        then ascii ",\"configuration\":{"
                          ++ configuration_members e.configuration (ascii "}}")
                        else ascii "}"))))))

unfoldable pub node_json : TopologyNode → Text
node_json n =
    ascii "{\"id\":"
    ++ (json_string n.id
        ++ (ascii ",\"type\":" ++ (json_string (node_type_name n.type) ++ ascii "}")))

unfoldable pub link_json : TopologyLink → Text
link_json l =
    ascii "{\"from\":"
    ++ (json_string l.from
        ++ (ascii ",\"to\":"
            ++ (json_string l.to
                ++ (ascii ",\"latency_ms\":" ++ (signed_decimal l.latency ++ ascii "}")))))

unfoldable pub topology_state_to_json : TopologyStateEvent → Text
unfolding stamped separated node_json link_json
topology_state_to_json e = stamped e.stamp (
    ascii ",\"event\":\"topology_loaded\",\"name\":"
    ++ (json_string e.name
        ++ (ascii ",\"nodes\":["
            ++ (separated node_json e.nodes
                ++ (ascii "],\"links\":[" ++ (separated link_json e.links ++ ascii "]}"))))))

unfoldable pub anomaly_detected_to_json : AnomalyDetectedEvent → Text
unfolding stamped anomaly_json
anomaly_detected_to_json e =
    stamped e.stamp
      (ascii ",\"event\":\"anomaly_detected\",\"anomaly\":" ++ anomaly_json e.anomaly (ascii "}"))

unfoldable pub policy_action_to_json : PolicyActionEvent → Text
unfolding stamped anomaly_json
policy_action_to_json e =
    let d = e.decision in
    stamped e.stamp (
      ascii ",\"event\":\"policy_action\",\"rule_name\":"
      ++ (json_string d.rule_name
          ++ (ascii ",\"action\":"
              ++ (json_string (action_name d.action)
                  ++ (ascii ",\"hit_count\":"
                      ++ (decimal d.hit_count
                          ++ (ascii ",\"rate_limit_packets_per_second\":"
                              ++ (decimal d.rate_limit_packets_per_second
                                  ++ (ascii ",\"anomaly\":"
                                      ++ anomaly_json d.anomaly (ascii "}"))))))))))

unfoldable pub binding_json : Text × Text → Text
binding_json b =
    ascii "{\"port_id\":"
    ++ (json_string b.0 ++ (ascii ",\"endpoint\":" ++ (json_string b.1 ++ ascii "}")))

unfoldable pub supervision_state_to_json : SupervisionStateEvent → Text
unfolding stamped separated binding_json
supervision_state_to_json e = stamped e.stamp (
    ascii ",\"event\":\"supervision_state\",\"analysed_frames\":"
    ++ (decimal e.analysed_frames
        ++ (ascii ",\"blocked_frames\":"
            ++ (decimal e.blocked_frames
                ++ (ascii ",\"bindings\":["
                    ++ (separated binding_json e.bindings ++ ascii "]}"))))))

unfoldable pub benchmark_progress_to_json : BenchmarkProgressEvent → Text
unfolding stamped
benchmark_progress_to_json e = stamped e.stamp (
    ascii ",\"event\":\"benchmark_progress\",\"operation_id\":"
    ++ (json_string e.operation_id
        ++ (ascii ",\"completed_packets\":"
            ++ (decimal e.completed_packets
                ++ (ascii ",\"total_packets\":" ++ (decimal e.total_packets ++ ascii "}"))))))

module _ {Real : Type 0} (json_number : Real → Text) where
  unfoldable pub benchmark_result_to_json : BenchmarkResultEvent (BenchmarkResult Real) → Text
  unfolding stamped
  benchmark_result_to_json e =
      let b = e.result in
      stamped e.stamp (
        ascii ",\"event\":\"benchmark_result\",\"operation_id\":"
        ++ (json_string e.operation_id
            ++ (ascii ",\"completed\":"
                ++ (bool_text e.completed
                    ++ (ascii ",\"result\":{\"backend\":"
                        ++ (json_string b.backend
                            ++ (ascii ",\"scenario\":"
                                ++ (json_string b.scenario
                                    ++ (ascii ",\"seed\":"
                                        ++ (decimal b.seed
                                            ++ (ascii ",\"frame_size\":"
                                                ++ (decimal b.frame_size
                                                    ++ (ascii ",\"batch_size\":"
                                                        ++ (decimal b.batch_size
                                                            ++ (ascii ",\"total_packets\":"
                                                            ++ (decimal b.total_packets
                                                            ++ (ascii ",\"completed_packets\":"
                                                            ++ (decimal b.completed_packets
                                                            ++ (ascii ",\"received_packets\":"
                                                            ++ (decimal b.received_packets
                                                            ++ (ascii ",\"received_bytes\":"
                                                            ++ (decimal b.received_bytes
                                                            ++ (ascii ",\"malformed_packets\":"
                                                            ++ (decimal b.malformed_packets
                                                            ++ (ascii ",\"broadcast_packets\":"
                                                            ++ (decimal b.broadcast_packets
                                                            ++ (ascii
                                                            ",\"unknown_unicast_packets\":"
                                                            ++ (decimal b.unknown_unicast_packets
                                                            ++ (ascii ",\"known_unicast_packets\":"
                                                            ++ (decimal b.known_unicast_packets
                                                            ++ (ascii ",\"elapsed_ns\":"
                                                            ++ (decimal b.elapsed_ns
                                                            ++ (ascii ",\"packets_per_second\":"
                                                            ++ (json_number b.packets_per_second
                                                            ++ (ascii
                                                            ",\"goodput_bits_per_second\":"
                                                            ++ (json_number
                                                            b.goodput_bits_per_second
                                                            ++ (ascii ",\"loss_percentage\":"
                                                            ++ (json_number b.loss_percentage
                                                            ++ (ascii
                                                            ",\"batch_analysis_latency_p50_ns\":"
                                                            ++ (decimal
                                                            b.batch_analysis_latency_p50_ns
                                                            ++ (ascii
                                                            ",\"batch_analysis_latency_p95_ns\":"
                                                            ++ (decimal
                                                            b.batch_analysis_latency_p95_ns
                                                            ++ (ascii
                                                            ",\"batch_analysis_latency_p99_ns\":"
                                                            ++ (decimal
                                                            b.batch_analysis_latency_p99_ns
                                                            ++ (ascii
                                                            ",\"timing\":{\"host_to_device_ns\":"
                                                            ++ (decimal b.timing.host_to_device_ns
                                                            ++ (ascii ",\"kernel_ns\":"
                                                            ++ (decimal b.timing.kernel_ns
                                                            ++ (ascii ",\"device_to_host_ns\":"
                                                            ++ (decimal b.timing.device_to_host_ns
                                                            ++ ascii "}}}"))))))))))))))))))))))))))
                                                            ))))))))))))))))))))))))
