-- ===== src/ControlProtocol/Requests/Shape.antt =====
-- Which parameters a command takes, and the result of `ControlRequestParser::parse`.
use packet_switch.ControlProtocol.Requests.{ParameterFields, RequestScan, request_members}
use packet_switch.ControlProtocol.{
  ControlRequest, ControlCommand, load_topology, start_benchmark, set_port_fault, clear_port_fault,
  set_link_fault, clear_link_fault, get_switch_state, get_active_faults, get_supervision_state,
  stop_run,
}
use packet_switch.Json.{
  skip_whitespace, ControlParseError, malformed_json, missing_required_field, invalid_field,
}
use packet_switch.Prelude.{
  Bool, true, Expected, ◌||◌, ◌&&◌, not, false, if◌then◌else◌, ok, unexpected,
}
use packet_switch.Prelude.Texts.{Text, is_empty}

abbrev has_benchmark : ParameterFields → Bool
has_benchmark p =
    p.scenario || p.backend || p.generator || p.batch_size || p.duration_seconds || p.seed
    || p.packet_count || p.frame_size

abbrev has_fault : ParameterFields → Bool
has_fault p =
    p.latency || p.jitter || p.loss || p.duplication || p.bandwidth || p.blackhole || p.isolated

abbrev all_of_benchmark : ParameterFields → Bool
all_of_benchmark p = p.scenario && p.backend && p.batch_size && p.duration_seconds && p.seed

abbrev all_of_fault : ParameterFields → Bool
all_of_fault p =
    p.latency && p.jitter && p.loss && p.duplication && p.bandwidth && p.blackhole && p.isolated

unfoldable pub parameters_valid_for : ControlCommand → ParameterFields → Bool
parameters_valid_for load_topology p =
    p.topology_path
    && not (has_benchmark p)
    && not p.port_id
    && not p.first_endpoint
    && not p.second_endpoint
    && not (has_fault p)
parameters_valid_for start_benchmark p =
    all_of_benchmark p
    && not p.topology_path
    && not p.port_id
    && not p.first_endpoint
    && not p.second_endpoint
    && not (has_fault p)
parameters_valid_for set_port_fault p =
    p.port_id
    && not p.topology_path
    && all_of_fault p
    && not p.first_endpoint
    && not p.second_endpoint
    && not (has_benchmark p)
parameters_valid_for clear_port_fault p =
    p.port_id
    && not p.topology_path
    && not p.first_endpoint
    && not p.second_endpoint
    && not (has_benchmark p)
    && not (has_fault p)
parameters_valid_for set_link_fault p =
    p.first_endpoint
    && p.second_endpoint
    && not p.topology_path
    && all_of_fault p
    && not p.port_id
    && not (has_benchmark p)
parameters_valid_for clear_link_fault p =
    p.first_endpoint
    && p.second_endpoint
    && not p.topology_path
    && not p.port_id
    && not (has_benchmark p)
    && not (has_fault p)
parameters_valid_for get_switch_state p = false
parameters_valid_for get_active_faults p = false
parameters_valid_for get_supervision_state p = false
parameters_valid_for stop_run p = false

unfoldable pub parameters_missing_required_for : ControlCommand → ParameterFields → Bool
parameters_missing_required_for load_topology p =
    not (has_benchmark p)
    && not (has_fault p)
    && not p.port_id
    && not p.first_endpoint
    && not p.second_endpoint
parameters_missing_required_for start_benchmark p =
    not p.topology_path
    && not p.port_id
    && not p.first_endpoint
    && not p.second_endpoint
    && not (has_fault p)
parameters_missing_required_for set_port_fault p =
    p.port_id
    && not p.topology_path
    && not p.first_endpoint
    && not p.second_endpoint
    && not (has_benchmark p)
parameters_missing_required_for clear_port_fault p =
    not p.topology_path
    && not (has_benchmark p)
    && not (has_fault p)
    && not p.first_endpoint
    && not p.second_endpoint
parameters_missing_required_for set_link_fault p =
    not p.topology_path && not p.port_id && not (has_benchmark p)
parameters_missing_required_for clear_link_fault p =
    not p.topology_path && not p.port_id && not (has_benchmark p) && not (has_fault p)
parameters_missing_required_for get_switch_state p = false
parameters_missing_required_for get_active_faults p = false
parameters_missing_required_for get_supervision_state p = false
parameters_missing_required_for stop_run p = false

abbrev pub requires_parameters : ControlCommand → Bool
requires_parameters load_topology = true
requires_parameters start_benchmark = true
requires_parameters set_port_fault = true
requires_parameters clear_port_fault = true
requires_parameters set_link_fault = true
requires_parameters clear_link_fault = true
requires_parameters _ = false

-- What `parse` requires once the closing brace is read.
unfoldable pub finish_request : RequestScan → Text → Expected ControlRequest ControlParseError
unfolding skip_whitespace parameters_valid_for parameters_missing_required_for
finish_request s rest =
    if not (is_empty (skip_whitespace rest))
    then unexpected malformed_json
    else if not s.has_api_version
        || not s.has_request_id
        || not s.has_command
        || not s.has_topology_revision
    then unexpected missing_required_field
    else if not s.has_parameters && requires_parameters s.request.command
    then unexpected missing_required_field
    else if s.has_parameters && not (parameters_valid_for s.request.command s.parameters)
    then unexpected (
        if parameters_missing_required_for s.request.command s.parameters
        then missing_required_field
        else invalid_field)
    else ok s.request

unfoldable pub control_request_from_json : Text → Expected ControlRequest ControlParseError
unfolding request_members finish_request
control_request_from_json t = elim (request_members t) [
  | ok (s, rest) ↦ finish_request s rest
  | unexpected e ↦ unexpected e
]
