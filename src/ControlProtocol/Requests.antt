-- ===== src/ControlProtocol/Requests.antt =====
-- The class `ControlRequestParser` of src/control_protocol.cpp: the members of a request and of its
-- parameters.
pub mod Shape
pub mod Shrinking
use packet_switch.Json.{
  Scanner, ◌>>=◌, ◌>>◌, pure, reject, follow, malformed_json, invalid_field, missing_required_field,
  read_string, accept, consume, read_uint, read_members, read_bool,
}
use packet_switch.ControlProtocol.{
  ControlRequest, ControlCommand, AnalyzerBackend, empty_request, BenchmarkParameters,
  FaultParameters, load_topology, cpu, get_switch_state, cuda, get_active_faults,
  get_supervision_state, start_benchmark, stop_run, set_port_fault, clear_port_fault,
  set_link_fault, clear_link_fault,
}
use packet_switch.Prelude.Int.{ℤ, to_i64}
use packet_switch.FaultEngine.{FaultConfiguration}
use packet_switch.Prelude.{
  false, Bool, Option, ℕ, some, if◌then◌else◌, ◌*◌, none, ◌^◌, ◌-◌, ◌%◌, ◌&&◌, ok, not, ltb,
  unexpected, true,
}
use packet_switch.Prelude.Texts.{text_discrete, Text, text_eq, ascii}

-- `ParameterFields`: which parameters were read.
pub record ParameterFields : Type 0 where
  pub topology_path : Bool
  pub scenario : Bool
  pub backend : Bool
  pub generator : Bool
  pub batch_size : Bool
  pub duration_seconds : Bool
  pub seed : Bool
  pub packet_count : Bool
  pub frame_size : Bool
  pub port_id : Bool
  pub first_endpoint : Bool
  pub second_endpoint : Bool
  pub latency : Bool
  pub jitter : Bool
  pub loss : Bool
  pub duplication : Bool
  pub bandwidth : Bool
  pub blackhole : Bool
  pub isolated : Bool

abbrev pub no_parameters : ParameterFields
no_parameters = record {
  topology_path = false;
  scenario = false;
  backend = false;
  generator = false;
  batch_size = false;
  duration_seconds = false;
  seed = false;
  packet_count = false;
  frame_size = false;
  port_id = false;
  first_endpoint = false;
  second_endpoint = false;
  latency = false;
  jitter = false;
  loss = false;
  duplication = false;
  bandwidth = false;
  blackhole = false;
  isolated = false;
}

pub record RequestScan : Type 0 where
  pub request : ControlRequest
  pub parameters : ParameterFields
  pub has_api_version : Bool
  pub has_request_id : Bool
  pub has_command : Bool
  pub has_topology_revision : Bool
  pub has_parameters : Bool

abbrev pub no_members : RequestScan
no_members = record {
  request = empty_request;
  parameters = no_parameters;
  has_api_version = false;
  has_request_id = false;
  has_command = false;
  has_topology_revision = false;
  has_parameters = false;
}

abbrev set_benchmark : RequestScan → BenchmarkParameters → ParameterFields → RequestScan
set_benchmark s b fields = record s {
  request = record s.request { benchmark = b };
  parameters = fields;
}

abbrev set_fault : RequestScan → FaultParameters → ParameterFields → RequestScan
set_fault s f fields = record s { request = record s.request { fault = f }; parameters = fields }

abbrev set_configuration : RequestScan → FaultConfiguration → ParameterFields → RequestScan
set_configuration s c fields = set_fault s (record s.request.fault { configuration = c }) fields

unfoldable pub command_named : Text → Option ControlCommand
unfolding text_discrete
command_named value =
    if text_eq value (ascii "load_topology")
    then some load_topology
    else if text_eq value (ascii "get_switch_state")
    then some get_switch_state
    else if text_eq value (ascii "get_active_faults")
    then some get_active_faults
    else if text_eq value (ascii "get_supervision_state")
    then some get_supervision_state
    else if text_eq value (ascii "start_benchmark")
    then some start_benchmark
    else if text_eq value (ascii "stop_run")
    then some stop_run
    else if text_eq value (ascii "set_port_fault")
    then some set_port_fault
    else if text_eq value (ascii "clear_port_fault")
    then some clear_port_fault
    else if text_eq value (ascii "set_link_fault")
    then some set_link_fault
    else if text_eq value (ascii "clear_link_fault")
    then some clear_link_fault
    else none

unfoldable pub backend_named : Text → Option AnalyzerBackend
unfolding text_discrete
backend_named value =
    if text_eq value (ascii "cpu")
    then some cpu
    else if text_eq value (ascii "cuda")
    then some cuda
    else none

-- A name that stands for nothing is an invalid field.
abbrev pub known : {A : Type 0} → Option A → Scanner A
known none = reject invalid_field
known (some a) = pure a

unfoldable pub read_command : Scanner ControlCommand
unfolding follow command_named
read_command = do value ← read_string; known (command_named value)

unfoldable pub read_backend : Scanner AnalyzerBackend
unfolding follow backend_named
read_backend = do value ← read_string; known (backend_named value)

-- The source multiplies in a signed type of 64 bits. C++ does not define what is outside it; here
-- it wraps around.
unfoldable pub to_nanoseconds : ℕ → ℤ
to_nanoseconds n = to_i64 (n * 1000000 % 2 ^ 64)

unfoldable pub read_milliseconds : Scanner ℤ
unfolding to_nanoseconds
read_milliseconds t = elim (read_uint (2 ^ 64 - 1) t) [
  | ok (n, rest) ↦
      if ltb (2 ^ 63 - 1) n then unexpected invalid_field else ok (to_nanoseconds n, rest)
  | unexpected _ ↦ unexpected invalid_field
]

unfoldable pub parameter_member : Text → RequestScan → Scanner RequestScan
unfolding text_discrete
parameter_member key s =
    if text_eq key (ascii "topology_path") && not s.parameters.topology_path
    then (do
      v ← read_string
      pure (record s {
        request = record s.request { topology_path = v };
        parameters = (record s.parameters { topology_path = true });
      }))
    else if text_eq key (ascii "scenario") && not s.parameters.scenario
    then (do
      v ← read_string
      pure (
          set_benchmark s (record s.request.benchmark { scenario = v })
            (record s.parameters { scenario = true })))
    else if text_eq key (ascii "backend") && not s.parameters.backend
    then (do
      v ← read_backend
      pure (
          set_benchmark s (record s.request.benchmark { backend = v })
            (record s.parameters { backend = true })))
    else if text_eq key (ascii "generator") && not s.parameters.generator
    then (do
      v ← read_string
      pure (
          set_benchmark s (record s.request.benchmark { generator = v })
            (record s.parameters { generator = true })))
    else if text_eq key (ascii "batch_size") && not s.parameters.batch_size
    then (do
      v ← read_uint (2 ^ 32 - 1)
      pure (
          set_benchmark s (record s.request.benchmark { batch_size = v })
            (record s.parameters { batch_size = true })))
    else if text_eq key (ascii "duration_seconds") && not s.parameters.duration_seconds
    then (do
      v ← read_uint (2 ^ 32 - 1)
      pure (
          set_benchmark s (record s.request.benchmark { duration_seconds = v })
            (record s.parameters { duration_seconds = true })))
    else if text_eq key (ascii "seed") && not s.parameters.seed
    then (do
      v ← read_uint (2 ^ 64 - 1)
      pure (
          set_benchmark s (record s.request.benchmark { seed = v })
            (record s.parameters { seed = true })))
    else if text_eq key (ascii "packets") && not s.parameters.packet_count
    then (do
      v ← read_uint (2 ^ 64 - 1)
      pure (
          set_benchmark s (record s.request.benchmark { packet_count = v })
            (record s.parameters { packet_count = true })))
    else if text_eq key (ascii "frame_size") && not s.parameters.frame_size
    then (do
      v ← read_uint (2 ^ 32 - 1)
      pure (
          set_benchmark s (record s.request.benchmark { frame_size = v })
            (record s.parameters { frame_size = true })))
    else if text_eq key (ascii "port_id") && not s.parameters.port_id
    then (do
      v ← read_string
      pure (
          set_fault s (record s.request.fault { port_id = v })
            (record s.parameters { port_id = true })))
    else if text_eq key (ascii "first_endpoint") && not s.parameters.first_endpoint
    then (do
      v ← read_string
      pure (
          set_fault s (record s.request.fault { first_endpoint = v })
            (record s.parameters { first_endpoint = true })))
    else if text_eq key (ascii "second_endpoint") && not s.parameters.second_endpoint
    then (do
      v ← read_string
      pure (
          set_fault s (record s.request.fault { second_endpoint = v })
            (record s.parameters { second_endpoint = true })))
    else if text_eq key (ascii "latency_ms") && not s.parameters.latency
    then (do
      v ← read_milliseconds
      pure (
          set_configuration s (record s.request.fault.configuration { latency = v })
            (record s.parameters { latency = true })))
    else if text_eq key (ascii "jitter_ms") && not s.parameters.jitter
    then (do
      v ← read_milliseconds
      pure (
          set_configuration s (record s.request.fault.configuration { jitter = v })
            (record s.parameters { jitter = true })))
    else if text_eq key (ascii "loss_basis_points") && not s.parameters.loss
    then (do
      v ← read_uint (2 ^ 32 - 1)
      pure (
          set_configuration s (record s.request.fault.configuration { loss_basis_points = v })
            (record s.parameters { loss = true })))
    else if text_eq key (ascii "duplication_basis_points") && not s.parameters.duplication
    then (do
      v ← read_uint (2 ^ 32 - 1)
      pure (
          set_configuration s
            (record s.request.fault.configuration { duplication_basis_points = v })
            (record s.parameters { duplication = true })))
    else if text_eq key (ascii "bandwidth_bits_per_second") && not s.parameters.bandwidth
    then (do
      v ← read_uint (2 ^ 64 - 1)
      pure (
          set_configuration s
            (record s.request.fault.configuration { bandwidth_bits_per_second = v })
            (record s.parameters { bandwidth = true })))
    else if text_eq key (ascii "blackhole") && not s.parameters.blackhole
    then (do
      v ← read_bool
      pure (
          set_configuration s (record s.request.fault.configuration { blackhole = v })
            (record s.parameters { blackhole = true })))
    else if text_eq key (ascii "isolated") && not s.parameters.isolated
    then (do
      v ← read_bool
      pure (
          set_configuration s (record s.request.fault.configuration { isolated = v })
            (record s.parameters { isolated = true })))
    else reject invalid_field

unfoldable pub read_parameters : RequestScan → Scanner RequestScan
unfolding follow accept consume parameter_member
read_parameters s = do
  consume b'{'
  empty ← accept b'}'
  if empty then pure s else read_members parameter_member s

unfoldable pub request_member : Text → RequestScan → Scanner RequestScan
unfolding text_discrete
request_member key s =
    if text_eq key (ascii "api_version") && not s.has_api_version
    then (do
      n ← read_uint (2 ^ 32 - 1)
      pure (record s { request = record s.request { api_version = n }; has_api_version = true }))
    else if text_eq key (ascii "request_id") && not s.has_request_id
    then (do
      id ← read_string
      pure (record s { request = record s.request { request_id = id }; has_request_id = true }))
    else if text_eq key (ascii "command") && not s.has_command
    then (do
      c ← read_command
      pure (record s { request = record s.request { command = c }; has_command = true }))
    else if text_eq key (ascii "topology_revision") && not s.has_topology_revision
    then (do
      n ← read_uint (2 ^ 64 - 1)
      pure (record s {
        request = record s.request { topology_revision = n };
        has_topology_revision = true;
      }))
    else if text_eq key (ascii "parameters") && not s.has_parameters
    then (do s' ← read_parameters s; pure (record s' { has_parameters = true }))
    else reject invalid_field

unfoldable pub request_members : Scanner RequestScan
unfolding follow request_member consume accept
request_members = do
  consume b'{'
  empty ← accept b'}'
  if empty then reject missing_required_field else read_members request_member no_members
