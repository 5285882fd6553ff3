-- ===== src/ControlService/Dispatch.antt =====
-- `dispatch`, `start_benchmark`, `stop_run` and `advance_benchmark` of src/control_service.cpp.
use packet_switch.TopologyController
use packet_switch.Benchmark.{
  BenchmarkConfig, default_traffic, traffic_scenario_from_string, benchmark_error_name,
}
use packet_switch.ControlProtocol.{
  set_port_fault, set_link_fault, clear_port_fault, clear_link_fault, ControlRequest,
  ControlCommand, validate, validation_error_name, backend_name, parse_error_name, get_switch_state,
  get_supervision_state, load_topology, start_benchmark, stop_run, get_active_faults,
}
use packet_switch.ControlService.{
  ControlService, ControlDispatch, BenchmarkRuns, Surroundings, stamp, numbered, answer, reject,
  supervision_event, accepted_reply, controller_error_name, current_topology_revision, next,
  topology_error_name,
}
use packet_switch.TrafficShape.{TrafficScenario}
use packet_switch.ControlProtocol.Events.{
  BenchmarkProgressEvent, BenchmarkResultEvent, FaultStateEvent,
}
use packet_switch.ControlProtocol.Requests.Shape.{control_request_from_json}
use packet_switch.TopologyController.{
  TopologyController, active_faults, TopologyFault, TopologyControllerError, load,
}
use packet_switch.Prelude.Texts.{Text, ascii}
use packet_switch.Prelude.{
  ℕ, Option, List, some, Bool, unexpected, Expected, [], false, if◌then◌else◌, not, ◌++◌, ok, ◌==◌,
  true, none, ◌&&◌, ◌∷◌, leb, ◌||◌, ◌*◌, ◌%◌, ◌^◌,
}
use packet_switch.FaultEngine.{FaultConfiguration}
use packet_switch.SwitchSupervisor.{SupervisionSnapshot}
use packet_switch.Topology.{Topology, create}
use packet_switch.Prelude.Decimal.{decimal}

abbrev pub Answered : Type 0 → Type 0 → Type 0
Answered Run R = ControlService Run × ControlDispatch R

module _ {Run : Type 0} where
  -- The events of `get_active_faults`, each with a number of its own.
  unfoldable pub fault_events_from :
      ControlService Run → List TopologyFault → ControlService Run × List FaultStateEvent
  fault_events_from s [] = (s, [])
  fault_events_from s (f ∷ fs) =
      let rest = fault_events_from (numbered s) fs in
      (
        rest.0,
        record {
          stamp = stamp s;
          first_endpoint = f.first_endpoint;
          second_endpoint = f.second_endpoint;
          configuration = f.configuration;
          active = true;
        }
            ∷ rest.1,
      )

  abbrev pub with_controller : ControlService Run → TopologyController → ControlService Run
  with_controller s c = record s { topology_controller = some c }

module _ {Run R : Type 0} where
  unfoldable pub get_state : Surroundings → ControlService Run → Text → Answered Run R
  get_state w s id = (
    numbered s,
    record (answer (accepted_reply s id (ascii "switch-state-" ++ decimal s.next_event_sequence))) {
      metrics_event = some (record { stamp = stamp s; metrics = w.metrics });
    },
  )

  unfoldable pub get_supervision :
      Option SupervisionSnapshot → ControlService Run → Text → Answered Run R
  unfolding supervision_event reject
  get_supervision none s id = (s, reject s id (ascii "supervision state is unavailable"))
  get_supervision (some snapshot) s id = (
    (supervision_event s snapshot).0,
    record (answer
        (accepted_reply s id (ascii "supervision-state-" ++ decimal s.next_event_sequence))) {
          supervision_event = some (supervision_event s snapshot).1;
        },
  )

  -- Once the file is read and its topology created.
  unfoldable pub load_created :
      TopologyController → ControlService Run → Text → Topology → Answered Run R
  load_created c s id topology =
      let loaded = record s { topology_controller = some (load c topology) } in
      (
        numbered loaded,
        record (answer (
            accepted_reply loaded id (ascii "topology-loaded-" ++ decimal s.next_event_sequence))) {
              topology_event = some (record {
                stamp = stamp loaded;
                name = topology.configuration.name;
                nodes = topology.configuration.nodes;
                links = topology.configuration.links;
              });
            },
      )

  unfoldable pub load_file :
      Surroundings
      → Option TopologyController
      → ControlService Run
      → ControlRequest
      → Answered Run R
  unfolding load_created reject
  load_file w none s r = (s, reject s r.request_id (ascii "topology loading is unavailable"))
  load_file w (some c) s r = elim (w.read_yaml r.topology_path) [
    | unexpected e ↦ (s, reject s r.request_id e)
    | ok configuration ↦ elim (create configuration) [
      | unexpected e ↦ (s, reject s r.request_id (topology_error_name e))
      | ok topology ↦ load_created c s r.request_id topology
    ]
  ]

  unfoldable pub list_faults : TopologyController → ControlService Run → Text → Answered Run R
  unfolding fault_events_from reject
  list_faults c s id = elim (active_faults c) [
    | unexpected e ↦ (s, reject s id (controller_error_name e))
    | ok faults ↦ (
      (fault_events_from s faults).0,
      record (answer
          (accepted_reply s id (ascii "active-faults-" ++ decimal s.next_event_sequence))) {
            fault_events = (fault_events_from s faults).1;
          },
    )
  ]

  -- The event and the reply of a fault that was set or cleared.
  unfoldable pub fault_changed :
      ControlService Run → Text → Bool → Text → Text → FaultConfiguration → Answered Run R
  fault_changed s id active first second configuration = (
    numbered s,
    record (answer (
        accepted_reply s id (
          (if active then ascii "fault-set-" else ascii "fault-cleared-")
          ++ decimal s.next_event_sequence))) {
            fault_events =
                record {
                  stamp = stamp s;
                  first_endpoint = first;
                  second_endpoint = second;
                  configuration = configuration;
                  active = active;
                }
                ∷ [];
          },
  )

  -- What `set_port_fault` or `set_link_fault` of the controller leaves behind.
  unfoldable pub fault_set :
      ControlService Run
      → ControlRequest
      → Text
      → Text
      → TopologyController × Expected (Unit {0}) TopologyControllerError
      → Answered Run R
  unfolding fault_changed reject
  fault_set s r first second (c, ok _) =
      fault_changed (with_controller s c) r.request_id true first second r.fault.configuration
  fault_set s r first second (c, unexpected e) =
      (with_controller s c, reject (with_controller s c) r.request_id (controller_error_name e))

  unfoldable pub fault_cleared :
      ControlService Run → ControlRequest → Text → Text → TopologyController × Bool → Answered Run R
  unfolding fault_changed reject
  fault_cleared s r first second (c, true) =
      fault_changed (with_controller s c) r.request_id false first second r.fault.configuration
  fault_cleared s r first second (c, false) = (
    with_controller s c,
    reject (with_controller s c) r.request_id (ascii "fault target has no active configuration"),
  )

  unfoldable pub control_faults :
      ControlCommand
      → Option TopologyController
      → ControlService Run
      → ControlRequest
      → Answered Run R
  unfolding list_faults fault_set fault_cleared reject
  control_faults command none s r =
      (s, reject s r.request_id (ascii "topology fault control is unavailable"))
  control_faults get_active_faults (some c) s r = list_faults c s r.request_id
  control_faults set_port_fault (some c) s r =
      fault_set s r r.fault.port_id []
        (TopologyController.set_port_fault c r.fault.port_id r.fault.configuration)
  control_faults set_link_fault (some c) s r =
      fault_set s r r.fault.first_endpoint r.fault.second_endpoint (
        TopologyController.set_link_fault c r.fault.first_endpoint r.fault.second_endpoint
          r.fault.configuration)
  control_faults clear_port_fault (some c) s r =
      fault_cleared s r r.fault.port_id [] (TopologyController.clear_port_fault c r.fault.port_id)
  control_faults clear_link_fault (some c) s r =
      fault_cleared s r r.fault.first_endpoint r.fault.second_endpoint
        (TopologyController.clear_link_fault c r.fault.first_endpoint r.fault.second_endpoint)
  control_faults _ (some c) s r = (s, reject s r.request_id (ascii "command is not implemented"))

  module _ (runs : BenchmarkRuns Run R) where
    unfoldable pub progress_event : ControlService Run → Run → BenchmarkProgressEvent
    progress_event s run = record {
      stamp = stamp s;
      operation_id = s.benchmark_operation_id;
      completed_packets = runs.completed_packets run;
      total_packets = runs.total_packets run;
    }

    unfoldable pub result_event : ControlService Run → Run → Bool → BenchmarkResultEvent R
    result_event s run completed = record {
      stamp = stamp s;
      operation_id = s.benchmark_operation_id;
      completed = completed;
      result = runs.result run;
    }

    abbrev pub benchmark_config : ControlRequest → TrafficScenario → BenchmarkConfig
    benchmark_config r scenario = record {
      traffic = record default_traffic {
        scenario = scenario;
        seed = r.benchmark.seed;
        frame_size = r.benchmark.frame_size;
      };
      packet_count = r.benchmark.packet_count;
      batch_size = r.benchmark.batch_size;
      backend = backend_name r.benchmark.backend;
      generator = r.benchmark.generator;
    }

    -- The service that runs a benchmark.
    abbrev pub started : ControlService Run → ControlRequest → Run → ControlService Run
    started s r run = record s {
      benchmark_run = some run;
      benchmark_operation_id = ascii "benchmark-" ++ decimal s.next_benchmark_id;
      next_benchmark_id = next s.next_benchmark_id;
      benchmark_deadline_ns = r.benchmark.duration_seconds * 1000000000 % 2 ^ 64;
    }

    unfoldable pub start_run : Option Run → ControlService Run → ControlRequest → Answered Run R
    unfolding progress_event reject traffic_scenario_from_string
    start_run (some _) s r = (s, reject s r.request_id (ascii "a benchmark run is already active"))
    start_run none s r = elim (traffic_scenario_from_string r.benchmark.scenario) [
      | unexpected e ↦ (s, reject s r.request_id (benchmark_error_name e))
      | ok scenario ↦ elim (runs.create (benchmark_config r scenario)) [
        | unexpected e ↦ (s, reject s r.request_id (benchmark_error_name e))
        | ok run ↦
            let s' = started s r run in
            (
              numbered s',
              record (answer (accepted_reply s' r.request_id s'.benchmark_operation_id)) {
                benchmark_progress_event = some (progress_event s' run);
              },
            )
      ]
    ]

    unfoldable pub stop : Option Run → ControlService Run → Text → Answered Run R
    unfolding result_event reject
    stop none s id = (s, reject s id (ascii "no run is active"))
    stop (some run) s id = (
      record (numbered s) { benchmark_run = none },
      record (answer (accepted_reply s id s.benchmark_operation_id)) {
        benchmark_result_event = some (result_event s run false);
      },
    )

    -- `dispatch` once the request is valid and its revision current.
    unfoldable pub execute :
        Surroundings → ControlCommand → ControlService Run → ControlRequest → Answered Run R
    unfolding get_state get_supervision load_file start_run stop control_faults
    execute w get_switch_state s r = get_state w s r.request_id
    execute w get_supervision_state s r = get_supervision w.supervision_source s r.request_id
    execute w load_topology s r = load_file w s.topology_controller s r
    execute w start_benchmark s r = start_run s.benchmark_run s r
    execute w stop_run s r = stop s.benchmark_run s r.request_id
    execute w command s r = control_faults command s.topology_controller s r

    unfoldable pub handle : Surroundings → ControlService Run → ControlRequest → Answered Run R
    unfolding execute validate reject
    handle w s r = elim (validate r) [
      | unexpected e ↦ (s, reject s r.request_id (validation_error_name e))
      | ok _ ↦
          if not (r.topology_revision == current_topology_revision s)
          then (s, reject s r.request_id (ascii "stale topology revision"))
          else execute w r.command s r
    ]

    unfoldable pub dispatch : Surroundings → ControlService Run → Text → Answered Run R
    unfolding handle control_request_from_json reject
    dispatch w s json = elim (control_request_from_json json) [
      | unexpected e ↦ (s, reject s [] (parse_error_name e))
      | ok r ↦ handle w s r
    ]

    -- `BenchmarkEventDispatch`: the progress and the result.
    abbrev pub BenchmarkEvents : Type 0
    BenchmarkEvents = Option BenchmarkProgressEvent × Option (BenchmarkResultEvent R)

    -- Whether a run has done its packets or used up its time.
    abbrev pub is_over : ControlService Run → Run → Bool
    is_over s run =
        runs.finished run
        || (not (s.benchmark_deadline_ns == 0)
            && leb s.benchmark_deadline_ns (runs.elapsed_ns (runs.result run)))

    -- The events of a slice that moved the run or found it finished.
    unfoldable pub slice_events : ControlService Run → Run → ControlService Run × BenchmarkEvents
    unfolding progress_event result_event
    slice_events s run =
        let s' = record s { benchmark_run = some run } in
        if is_over s run
        then (
          record (numbered (numbered s')) { benchmark_run = none },
          (some (progress_event s' run), some (result_event (numbered s') run true)),
        )
        else (numbered s', (some (progress_event s' run), none))

    -- A slice that completed no packet of a run that is not finished.
    abbrev pub is_idle : Run × ℕ → Bool
    is_idle (run, advanced) = advanced == 0 && not (runs.finished run)

    unfoldable pub advance_run :
        Option Run → ControlService Run → ℕ → ControlService Run × BenchmarkEvents
    unfolding slice_events
    advance_run none s max_packets = (s, (none, none))
    advance_run (some run) s max_packets =
        let slice = runs.advance run max_packets in
        if is_idle slice
        then (record s { benchmark_run = some slice.0 }, (none, none))
        else slice_events s slice.0

    unfoldable pub advance_benchmark : ControlService Run → ℕ → ControlService Run × BenchmarkEvents
    unfolding advance_run
    advance_benchmark s max_packets = advance_run s.benchmark_run s max_packets
