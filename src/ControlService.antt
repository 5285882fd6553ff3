-- ===== src/ControlService.antt =====
-- include/wirelab/control_service.hpp and src/control_service.cpp: what the switch answers to a
-- request, and the events that it numbers. The topology controller, to which the service refers, is
-- part of its state. The counters of the switch, the supervisor's snapshot, the reader of topology
-- files and the benchmark runs are arguments.
pub mod Dispatch
pub mod Analysis
pub mod Numbering
pub mod Answers
use packet_switch.Benchmark.{BenchmarkError, BenchmarkConfig}
use packet_switch.ControlProtocol.Events.{
  EventStamp, FaultStateEvent, TopologyStateEvent, SwitchMetricsEvent, SupervisionStateEvent,
  BenchmarkProgressEvent, BenchmarkResultEvent,
}
use packet_switch.SwitchSupervisor.{SupervisionSnapshot}
use packet_switch.ControlProtocol.{ControlReply, control_api_version, empty_reply}
use packet_switch.TopologyController.{
  TopologyControllerError, TopologyController, no_topology, unknown_port, unknown_link,
  invalid_fault_configuration,
}
use packet_switch.Topology.{
  TopologyValidationError, TopologyConfiguration, missing_name, missing_nodes, missing_node_id,
  duplicate_node_id, missing_switch, multiple_switches, unknown_link_endpoint, self_link,
  duplicate_link, invalid_link_shape, negative_latency,
}
use packet_switch.SwitchMetrics.{SwitchMetrics}
use packet_switch.Prelude.Texts.{Text, ascii}
use packet_switch.Prelude.{Option, Expected, ℕ, List, Bool, none, ◌+◌, true, some, ◌%◌, [], ◌^◌}

-- What the service uses of `BenchmarkRun`. `create` has the factories of the service in it.
pub record BenchmarkRuns (Run R : Type 0) : Type 0 where
  pub create : BenchmarkConfig → Expected Run BenchmarkError
  pub advance : Run → ℕ → Run × ℕ
  pub finished : Run → Bool
  pub completed_packets : Run → ℕ
  pub total_packets : Run → ℕ
  pub result : Run → R
  pub elapsed_ns : R → ℕ

-- What is outside the service at a command.
pub record Surroundings : Type 0 where
  pub metrics : SwitchMetrics
  pub supervision_source : Option SupervisionSnapshot
  pub read_yaml : Text → Expected TopologyConfiguration Text

pub record ControlService (Run : Type 0) : Type 0 where
  pub topology_revision : ℕ
  pub topology_controller : Option TopologyController
  pub benchmark_run : Option Run
  pub benchmark_operation_id : Text
  pub benchmark_deadline_ns : ℕ
  pub next_benchmark_id : ℕ
  pub next_event_sequence : ℕ

pub record ControlDispatch (R : Type 0) : Type 0 where
  pub reply : ControlReply
  pub metrics_event : Option SwitchMetricsEvent
  pub fault_events : List FaultStateEvent
  pub topology_event : Option TopologyStateEvent
  pub supervision_event : Option SupervisionStateEvent
  pub benchmark_progress_event : Option BenchmarkProgressEvent
  pub benchmark_result_event : Option (BenchmarkResultEvent R)

-- `x++` on a `uint64_t`.
abbrev pub next : ℕ → ℕ
next n = (n + 1) % 2 ^ 64

abbrev pub topology_error_name : TopologyValidationError → Text
topology_error_name missing_name = ascii "topology name is required"
topology_error_name missing_nodes = ascii "topology requires at least one node"
topology_error_name missing_node_id = ascii "topology node id is required"
topology_error_name duplicate_node_id = ascii "topology node ids must be unique"
topology_error_name missing_switch = ascii "topology requires exactly one switch"
topology_error_name multiple_switches = ascii "topology requires exactly one switch"
topology_error_name unknown_link_endpoint = ascii "topology link endpoint does not exist"
topology_error_name self_link = ascii "topology link cannot connect a node to itself"
topology_error_name duplicate_link = ascii "topology links must be unique"
topology_error_name invalid_link_shape = ascii "topology links must connect the switch to a host"
topology_error_name negative_latency = ascii "topology link latency cannot be negative"

abbrev pub controller_error_name : TopologyControllerError → Text
controller_error_name no_topology = ascii "no topology is loaded"
controller_error_name unknown_port = ascii "unknown topology port"
controller_error_name unknown_link = ascii "unknown topology link"
controller_error_name invalid_fault_configuration = ascii "invalid fault configuration"

abbrev pub controller_revision : Option TopologyController → ℕ → ℕ
controller_revision none revision = revision
controller_revision (some c) revision = c.topology_revision

-- A dispatch with a reply and no events.
abbrev pub answer : {R : Type 0} → ControlReply → ControlDispatch R
answer reply = record {
  reply = reply;
  metrics_event = none;
  fault_events = [];
  topology_event = none;
  supervision_event = none;
  benchmark_progress_event = none;
  benchmark_result_event = none;
}

module _ {Run : Type 0} where
  unfoldable pub current_topology_revision : ControlService Run → ℕ
  current_topology_revision s = controller_revision s.topology_controller s.topology_revision

  -- The next number, and the service that has given it away.
  abbrev pub stamp : ControlService Run → EventStamp
  stamp s = record {
    api_version = control_api_version;
    event_sequence = s.next_event_sequence;
    topology_revision = current_topology_revision s;
  }

  abbrev pub numbered : ControlService Run → ControlService Run
  numbered s = record s { next_event_sequence = next s.next_event_sequence }

  abbrev pub accepted_reply : ControlService Run → Text → Text → ControlReply
  accepted_reply s request_id operation_id = record empty_reply {
    request_id = request_id;
    accepted = true;
    topology_revision = current_topology_revision s;
    operation_id = operation_id;
  }

  unfoldable pub reject : {R : Type 0} → ControlService Run → Text → Text → ControlDispatch R
  unfolding current_topology_revision
  reject s request_id error = answer (record empty_reply {
    request_id = request_id;
    topology_revision = current_topology_revision s;
    error = error;
  })

  unfoldable pub supervision_event :
      ControlService Run → SupervisionSnapshot → ControlService Run × SupervisionStateEvent
  unfolding current_topology_revision
  supervision_event s snapshot = (
    numbered s,
    record {
      stamp = stamp s;
      analysed_frames = snapshot.analysed_frames;
      blocked_frames = snapshot.blocked_frames;
      bindings = snapshot.bindings;
    },
  )
