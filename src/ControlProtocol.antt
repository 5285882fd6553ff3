-- ===== src/ControlProtocol.antt =====
-- include/wirelab/control_protocol.hpp and src/control_protocol.cpp: the requests, replies and
-- events of the control protocol, their names, and the validation of a request.
pub mod Requests
pub mod Replies
pub mod Printing
pub mod Events
pub mod ReplyTrip
pub mod ParameterTrip
pub mod RequestTrip
use packet_switch.Json.{ControlParseError, malformed_json, invalid_field, missing_required_field}
use packet_switch.FaultEngine.{FaultConfiguration, no_fault}
use packet_switch.Prelude.Texts.{Text, ascii, is_empty}
use packet_switch.Prelude.{
  Expected, [], Bool, ℕ, not, false, if◌then◌else◌, true, ◌==◌, ◌&&◌, unexpected, ltb, ok, leb,
}

abbrev pub control_api_version : ℕ
control_api_version = 1

pub data AnalyzerBackend : Type 0 where
  cpu cuda : AnalyzerBackend

pub data ControlCommand : Type 0 where
  load_topology get_switch_state get_active_faults get_supervision_state : ControlCommand
  start_benchmark stop_run set_port_fault clear_port_fault : ControlCommand
  set_link_fault clear_link_fault : ControlCommand

pub data ControlValidationError : Type 0 where
  unsupported_api_version missing_request_id invalid_benchmark_configuration :
      ControlValidationError

pub record BenchmarkParameters : Type 0 where
  pub scenario : Text
  pub backend : AnalyzerBackend
  pub generator : Text
  pub packet_count : ℕ
  pub frame_size : ℕ
  pub batch_size : ℕ
  pub duration_seconds : ℕ
  pub seed : ℕ

pub record FaultParameters : Type 0 where
  pub port_id : Text
  pub first_endpoint : Text
  pub second_endpoint : Text
  pub configuration : FaultConfiguration

-- `topology_path` is the one field of `TopologyParameters`.
pub record ControlRequest : Type 0 where
  pub api_version : ℕ
  pub request_id : Text
  pub command : ControlCommand
  pub topology_revision : ℕ
  pub benchmark : BenchmarkParameters
  pub topology_path : Text
  pub fault : FaultParameters

pub record ControlReply : Type 0 where
  pub api_version : ℕ
  pub request_id : Text
  pub accepted : Bool
  pub topology_revision : ℕ
  pub operation_id : Text
  pub error : Text

-- The initial values of the fields.
abbrev pub no_benchmark : BenchmarkParameters
no_benchmark = record {
  scenario = [];
  backend = cpu;
  generator = ascii "cpu";
  packet_count = 0;
  frame_size = 64;
  batch_size = 1;
  duration_seconds = 0;
  seed = 1;
}

abbrev pub no_fault_target : FaultParameters
no_fault_target = record {
  port_id = [];
  first_endpoint = [];
  second_endpoint = [];
  configuration = no_fault;
}

abbrev pub empty_request : ControlRequest
empty_request = record {
  api_version = control_api_version;
  request_id = [];
  command = get_switch_state;
  topology_revision = 0;
  benchmark = no_benchmark;
  topology_path = [];
  fault = no_fault_target;
}

abbrev pub empty_reply : ControlReply
empty_reply = record {
  api_version = control_api_version;
  request_id = [];
  accepted = false;
  topology_revision = 0;
  operation_id = [];
  error = [];
}

abbrev pub backend_name : AnalyzerBackend → Text
backend_name cpu = ascii "cpu"
backend_name cuda = ascii "cuda"

abbrev pub command_name : ControlCommand → Text
command_name load_topology = ascii "load_topology"
command_name get_switch_state = ascii "get_switch_state"
command_name get_active_faults = ascii "get_active_faults"
command_name get_supervision_state = ascii "get_supervision_state"
command_name start_benchmark = ascii "start_benchmark"
command_name stop_run = ascii "stop_run"
command_name set_port_fault = ascii "set_port_fault"
command_name clear_port_fault = ascii "clear_port_fault"
command_name set_link_fault = ascii "set_link_fault"
command_name clear_link_fault = ascii "clear_link_fault"

abbrev pub validation_error_name : ControlValidationError → Text
validation_error_name unsupported_api_version = ascii "unsupported API version"
validation_error_name missing_request_id = ascii "request_id is required"
validation_error_name invalid_benchmark_configuration = ascii "invalid benchmark configuration"

abbrev pub parse_error_name : ControlParseError → Text
parse_error_name malformed_json = ascii "malformed JSON"
parse_error_name invalid_field = ascii "invalid control request field"
parse_error_name missing_required_field = ascii "missing required control request field"

unfoldable pub is_valid_benchmark : BenchmarkParameters → Bool
is_valid_benchmark b =
    not (is_empty b.scenario)
    && ltb 0 b.batch_size
    && leb b.batch_size 8192
    && ltb 0 b.duration_seconds
    && ltb 0 b.packet_count
    && leb 14 b.frame_size
    && leb b.frame_size 9000

abbrev pub is_start_benchmark : ControlCommand → Bool
is_start_benchmark start_benchmark = true
is_start_benchmark _ = false

unfoldable pub validate : ControlRequest → Expected (Unit {0}) ControlValidationError
unfolding is_valid_benchmark
validate r =
    if not (r.api_version == control_api_version)
    then unexpected unsupported_api_version
    else if is_empty r.request_id
    then unexpected missing_request_id
    else if is_start_benchmark r.command && not (is_valid_benchmark r.benchmark)
    then unexpected invalid_benchmark_configuration
    else ok tt
