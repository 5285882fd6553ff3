-- ===== src/ControlProtocol/RequestTrip.antt =====
-- Printed requests in the parser of requests.
use packet_switch.Json.Strings.{json_string}
use packet_switch.ControlProtocol.{
  ControlRequest, empty_request, ControlCommand, load_topology, start_benchmark, command_name,
  set_port_fault, clear_port_fault, set_link_fault, clear_link_fault, get_switch_state,
  get_active_faults, get_supervision_state, stop_run,
}
use packet_switch.Prelude.{◌<◌, ◌^◌, ◌++◌}
use packet_switch.Prelude.Texts.{Text, ascii}
use packet_switch.ControlProtocol.ParameterTrip.{
  with_configuration, in_milliseconds, IsBenchmark, IsConfiguration,
}
use packet_switch.Prelude.Decimal.{decimal}

-- The members that stand before the parameters.
abbrev base : ControlRequest → ControlRequest
base r = record empty_request {
  api_version = r.api_version;
  request_id = r.request_id;
  command = r.command;
  topology_revision = r.topology_revision;
}

-- The values that the members hold are in the range of their types.
pub record IsTransmittable (r : ControlRequest) : Type 0 where
  pub version_range : r.api_version < 2 ^ 32
  pub revision_range : r.topology_revision < 2 ^ 64
  pub benchmark_ranges : IsBenchmark r.benchmark
  pub configuration_ranges : IsConfiguration r.fault.configuration

abbrev up_to_revision : ControlRequest → Text → Text
up_to_revision r tail =
    ascii "\"api_version\":"
    ++ (decimal r.api_version
        ++ (ascii ",\"request_id\":"
            ++ (json_string r.request_id
                ++ (ascii ",\"command\":"
                    ++ (json_string (command_name r.command)
                        ++ (ascii ",\"topology_revision\":"
                            ++ (decimal r.topology_revision ++ tail)))))))

abbrev at_port : ControlRequest → Text → ControlRequest
at_port r port = record r { fault = record r.fault { port_id = port } }

abbrev at_link : ControlRequest → Text → Text → ControlRequest
at_link r first second = record r {
  fault = record r.fault { first_endpoint = first; second_endpoint = second };
}

-- What a request carries: the parameters of its command, durations in whole milliseconds, and the
-- initial values of all other fields.
unfoldable pub carried : ControlCommand → ControlRequest → ControlRequest
carried load_topology r = record (base r) { topology_path = r.topology_path }
carried start_benchmark r = record (base r) { benchmark = r.benchmark }
carried set_port_fault r =
    with_configuration (at_port (base r) r.fault.port_id) (in_milliseconds r.fault.configuration)
carried clear_port_fault r = at_port (base r) r.fault.port_id
carried set_link_fault r =
    with_configuration (at_link (base r) r.fault.first_endpoint r.fault.second_endpoint)
      (in_milliseconds r.fault.configuration)
carried clear_link_fault r = at_link (base r) r.fault.first_endpoint r.fault.second_endpoint
carried get_switch_state r = base r
carried get_active_faults r = base r
carried get_supervision_state r = base r
carried stop_run r = base r

abbrev with_command : ControlCommand → ControlRequest → ControlRequest
with_command c r = record r { command = c }
