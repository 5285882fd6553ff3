-- ===== src/ControlService/Answers.antt =====
-- The answer of `dispatch`: its reply, its events, and the service that it leaves behind.
use packet_switch.ControlProtocol.{
  validate, set_port_fault, set_link_fault, clear_port_fault, clear_link_fault, ControlCommand,
  ControlRequest, control_api_version, ControlReply, empty_reply, get_switch_state,
  get_supervision_state, load_topology, start_benchmark, stop_run, get_active_faults,
}
use packet_switch.Topology.{create}
use packet_switch.ControlService.Dispatch.{
  get_supervision, list_faults, get_state, fault_changed, load_file, Answered, control_faults,
  fault_cleared, with_controller, fault_set, stop, handle, start_run, execute, dispatch,
  benchmark_config,
}
use packet_switch.ControlService.{
  ControlService, reject, current_topology_revision, Surroundings, accepted_reply, BenchmarkRuns,
}
use packet_switch.TopologyController.{TopologyController, active_faults, TopologyControllerError}
use packet_switch.Prelude.Texts.{Text, ascii}
use packet_switch.Prelude.{
  Option, Bool, Expected-cases, ◌≡◌, ap, some, inr, sym, inl, true, [], false≢true, ◌∙◌, false,
  none, refl, ℕ, Expected, ◌++◌, ok, unexpected, Bool-cases, ◌==◌, arith, ◌⊎◌,
}
use packet_switch.FaultEngine.{FaultConfiguration}
use packet_switch.SwitchSupervisor.{SupervisionSnapshot}
use packet_switch.ControlService.Numbering.{AreNumbered, stamps, fault_events_from-AreNumbered}
use packet_switch.TopologyController.Refusals.{
  set_port_fault_refused, set_link_fault_refused, clear_port_fault_refused,
  clear_link_fault_refused,
}
use packet_switch.Json.{ControlParseError}
use packet_switch.ControlProtocol.Requests.Shape.{control_request_from_json}
use packet_switch.Benchmark.{traffic_scenario_from_string}
use packet_switch.Prelude.Decimal.{decimal}

abbrev with_revision : Text → Text → ℕ → ControlReply
with_revision id operation_id revision = record empty_reply {
  request_id = id;
  accepted = true;
  topology_revision = revision;
  operation_id = operation_id;
}

-- The id of a request that can be read.
abbrev pub request_id_of : Expected ControlRequest ControlParseError → Text
request_id_of (ok r) = r.request_id
request_id_of (unexpected _) = []

module _ {Run : Type 0} where
  -- The controller put in place of what the service refers to already.
  same_controller :
      (s : ControlService Run) (c c' : TopologyController)
      → s.topology_controller ≡ some c
      → c' ≡ c
      → with_controller s c' ≡ s
  same_controller s c c' e same =
      ap (λ (o : Option TopologyController). record s { topology_controller = o })
        (ap some same ∙ sym e)

module _ {Run R : Type 0} where
  -- An answer to a request: the current version, the id of the request, the revision of the service
  -- that is left, and numbered events; what is accepted has no error, and a refusal has no event
  -- and no effect.
  pub record IsAnswer (s : ControlService Run) (id : Text) (a : Answered Run R) : Type 0 where
    pub version : a.1.reply.api_version ≡ control_api_version
    pub request : a.1.reply.request_id ≡ id
    pub revision : a.1.reply.topology_revision ≡ current_topology_revision a.0
    pub numbers :
        AreNumbered
          (current_topology_revision a.0)
          s.next_event_sequence
          (stamps a.1)
          a.0.next_event_sequence
    pub outcome :
        ((a.1.reply.accepted ≡ true) × (a.1.reply.error ≡ []))
        ⊎ ((a.1.reply.accepted ≡ false) × (a.0 ≡ s) × (stamps a.1 ≡ []))

  pub refused :
      (s s' : ControlService Run) (id error : Text)
      → s' ≡ s
      → IsAnswer s id (s', reject s' id error)
  unfolding reject
  refused s s' id error e = record {
    version = refl;
    request = refl;
    revision = refl;
    numbers = ap (λ (t : ControlService Run). t.next_event_sequence) (sym e);
    outcome = inr (refl, e, refl);
  }

  -- What is accepted, from the two facts that differ.
  granted :
      (s : ControlService Run) (id : Text) (a : Answered Run R) (operation_id : Text)
      → a.1.reply ≡ accepted_reply a.0 id operation_id
      → AreNumbered
          (current_topology_revision a.0)
          s.next_event_sequence
          (stamps a.1)
          a.0.next_event_sequence
      → IsAnswer s id a
  granted s id a operation_id e n = record {
    version = ap (λ (r : ControlReply). r.api_version) e;
    request = ap (λ (r : ControlReply). r.request_id) e;
    revision = ap (λ (r : ControlReply). r.topology_revision) e;
    numbers = n;
    outcome = inl (ap (λ (r : ControlReply). r.accepted) e, ap (λ (r : ControlReply). r.error) e);
  }

  get_state-IsAnswer :
      (w : Surroundings) (s : ControlService Run) (id : Text) → IsAnswer s id (get_state w s id)
  unfolding get_state current_topology_revision
  get_state-IsAnswer w s id = granted s id _ _ refl (refl, refl)

  get_supervision-IsAnswer :
      (o : Option SupervisionSnapshot) (s : ControlService Run) (id : Text)
      → IsAnswer s id (get_supervision o s id)
  unfolding get_supervision current_topology_revision
  get_supervision-IsAnswer none s id = refused s s id _ refl
  get_supervision-IsAnswer (some _) s id = granted s id _ _ refl (refl, refl)

  load_file-IsAnswer :
      (w : Surroundings) (o : Option TopologyController) (s : ControlService Run)
      (r : ControlRequest)
      → IsAnswer s r.request_id (load_file w o s r)
  unfolding load_file current_topology_revision
  load_file-IsAnswer w none s r = refused s s r.request_id _ refl
  load_file-IsAnswer w (some c) s r = elim (Expected-cases (w.read_yaml r.topology_path)) [
    | inr (x, e) ↦ rw (e, load_file) (refused s s r.request_id _ refl)
    | inl (configuration, e) ↦ elim (Expected-cases (create configuration)) [
      | inr (x, f) ↦ rw (e, load_file) (rw (f, load_file) (refused s s r.request_id _ refl))
      | inl (topology, f) ↦
          rw (e, load_file) (rw (f, load_file) (granted s r.request_id _ _ refl (refl, refl)))
    ]
  ]

  list_faults-IsAnswer :
      (c : TopologyController) (s : ControlService Run) (id : Text)
      → IsAnswer s id (list_faults c s id)
  unfolding list_faults
  list_faults-IsAnswer c s id = elim (Expected-cases (active_faults c)) [
    | inr (x, e) ↦ rw (e, list_faults) (refused s s id _ refl)
    | inl (faults, e) ↦
        let (numbers, same) = fault_events_from-AreNumbered s faults in
        let operation_id = ascii "active-faults-" ++ decimal s.next_event_sequence in
        rw (e, list_faults)
          (granted s id _ operation_id (ap (with_revision id operation_id) (sym same))
            (rw (sym same) at numbers))
  ]

  fault_changed-IsAnswer :
      (s : ControlService Run) (c : TopologyController) (id : Text) (active : Bool)
      (first second : Text) (f : FaultConfiguration)
      → IsAnswer s id (fault_changed (with_controller s c) id active first second f)
  unfolding fault_changed current_topology_revision
  fault_changed-IsAnswer s c id active first second f = granted s id _ _ refl (refl, refl)

  fault_set-IsAnswer :
      (s : ControlService Run) (r : ControlRequest) (first second : Text) (c : TopologyController)
      (result : TopologyController × Expected (Unit {0}) TopologyControllerError)
      → s.topology_controller ≡ some c
      → ((x : TopologyControllerError) → result.1 ≡ unexpected x → result.0 ≡ c)
      → IsAnswer s r.request_id (fault_set s r first second result)
  unfolding fault_set
  fault_set-IsAnswer s r first second c (c', ok _) e kept =
      fault_changed-IsAnswer s c' r.request_id true first second r.fault.configuration
  fault_set-IsAnswer s r first second c (c', unexpected x) e kept =
      refused s (with_controller s c') r.request_id _ (same_controller s c c' e (kept x refl))

  fault_cleared-IsAnswer :
      (s : ControlService Run) (r : ControlRequest) (first second : Text) (c : TopologyController)
      (result : TopologyController × Bool)
      → s.topology_controller ≡ some c
      → (result.1 ≡ false → result.0 ≡ c)
      → IsAnswer s r.request_id (fault_cleared s r first second result)
  unfolding fault_cleared
  fault_cleared-IsAnswer s r first second c (c', true) e kept =
      fault_changed-IsAnswer s c' r.request_id false first second r.fault.configuration
  fault_cleared-IsAnswer s r first second c (c', false) e kept =
      refused s (with_controller s c') r.request_id _ (same_controller s c c' e (kept refl))

  control_faults-IsAnswer :
      (command : ControlCommand) (o : Option TopologyController) (s : ControlService Run)
      (r : ControlRequest)
      → s.topology_controller ≡ o
      → IsAnswer s r.request_id (control_faults command o s r)
  unfolding control_faults
  control_faults-IsAnswer command none s r e = refused s s r.request_id _ refl
  control_faults-IsAnswer get_active_faults (some c) s r e = list_faults-IsAnswer c s r.request_id
  control_faults-IsAnswer set_port_fault (some c) s r e =
      fault_set-IsAnswer s r _ _ c _ e
        (λ x. set_port_fault_refused c r.fault.port_id r.fault.configuration {x = x})
  control_faults-IsAnswer set_link_fault (some c) s r e = fault_set-IsAnswer s r _ _ c _ e (λ x.
      set_link_fault_refused c r.fault.first_endpoint r.fault.second_endpoint r.fault.configuration
        {x = x})
  control_faults-IsAnswer clear_port_fault (some c) s r e =
      fault_cleared-IsAnswer s r _ _ c _ e (clear_port_fault_refused c r.fault.port_id)
  control_faults-IsAnswer clear_link_fault (some c) s r e =
      fault_cleared-IsAnswer s r _ _ c _ e
        (clear_link_fault_refused c r.fault.first_endpoint r.fault.second_endpoint)
  control_faults-IsAnswer _ (some c) s r e = refused s s r.request_id _ refl

  module _ (runs : BenchmarkRuns Run R) where
    start_run-IsAnswer :
        (o : Option Run) (s : ControlService Run) (r : ControlRequest)
        → IsAnswer s r.request_id (start_run runs o s r)
    unfolding start_run current_topology_revision
    start_run-IsAnswer (some _) s r = refused s s r.request_id _ refl
    start_run-IsAnswer none s r =
        elim (Expected-cases (traffic_scenario_from_string r.benchmark.scenario)) [
          | inr (x, e) ↦ rw (e, start_run) (refused s s r.request_id _ refl)
          | inl (scenario, e) ↦
              elim (Expected-cases (runs.create (benchmark_config runs r scenario))) [
                | inr (x, f) ↦
                    rw (e, start_run) (rw (f, start_run) (refused s s r.request_id _ refl))
                | inl (run, f) ↦
                    rw (e, start_run)
                      (rw (f, start_run) (granted s r.request_id _ _ refl (refl, refl)))
              ]
        ]

    stop-IsAnswer :
        (o : Option Run) (s : ControlService Run) (id : Text) → IsAnswer s id (stop runs o s id)
    unfolding stop current_topology_revision
    stop-IsAnswer none s id = refused s s id _ refl
    stop-IsAnswer (some run) s id = granted s id _ _ refl (refl, refl)

    execute-IsAnswer :
        (w : Surroundings) (command : ControlCommand) (s : ControlService Run) (r : ControlRequest)
        → IsAnswer s r.request_id (execute runs w command s r)
    unfolding execute
    execute-IsAnswer w get_switch_state s r = get_state-IsAnswer w s r.request_id
    execute-IsAnswer w get_supervision_state s r =
        get_supervision-IsAnswer w.supervision_source s r.request_id
    execute-IsAnswer w load_topology s r = load_file-IsAnswer w s.topology_controller s r
    execute-IsAnswer w start_benchmark s r = start_run-IsAnswer s.benchmark_run s r
    execute-IsAnswer w stop_run s r = stop-IsAnswer s.benchmark_run s r.request_id
    execute-IsAnswer w command s r = control_faults-IsAnswer command s.topology_controller s r refl

    handle-IsAnswer :
        (w : Surroundings) (s : ControlService Run) (r : ControlRequest)
        → IsAnswer s r.request_id (handle runs w s r)
    unfolding handle
    handle-IsAnswer w s r = elim (Expected-cases (validate r)) [
      | inr (x, e) ↦ rw (e, handle) (refused s s r.request_id _ refl)
      | inl (u, e) ↦ elim (Bool-cases (r.topology_revision == current_topology_revision s)) [
        | inl current ↦ rw (e, handle) (rw (current, handle) (execute-IsAnswer w r.command s r))
        | inr stale ↦ rw (e, handle) (rw (stale, handle) (refused s s r.request_id _ refl))
      ]
    ]

    -- Every text is answered: the reply has the current version, the id of the request, or none
    -- where it cannot be read, and the revision of the service that is left; the events have
    -- that revision and numbers that follow one another; a refusal changes nothing and has no
    -- event, and what is accepted has no error.
    pub dispatch-IsAnswer :
        (w : Surroundings) (s : ControlService Run) (json : Text)
        → IsAnswer s (request_id_of (control_request_from_json json)) (dispatch runs w s json)
    unfolding dispatch
    dispatch-IsAnswer w s json = elim (Expected-cases (control_request_from_json json)) [
      | inr (x, e) ↦ rw (e, dispatch) (refused s s [] _ refl)
      | inl (r, e) ↦ rw (e, dispatch) (handle-IsAnswer w s r)
    ]

    handle_accepted :
        (w : Surroundings) (s : ControlService Run) (r : ControlRequest)
        → (handle runs w s r).1.reply.accepted ≡ true
        → (validate r ≡ ok tt) × (r.topology_revision ≡ current_topology_revision s)
    unfolding handle reject
    handle_accepted w s r h = elim (Expected-cases (validate r)) [
      | inr (x, e) ↦ absurd (false≢true (rw (e, handle) at h))
      | inl (u, e) ↦ elim (Bool-cases (r.topology_revision == current_topology_revision s)) [
        | inl current ↦ (e, ground arith)
        | inr stale ↦ absurd (false≢true (rw (e, handle, stale) at h))
      ]
    ]

    -- A command is accepted only if its text can be read, the request is valid, and its revision is
    -- the one of the service.
    pub dispatch_accepted :
        (w : Surroundings) (s : ControlService Run) (json : Text)
        → (dispatch runs w s json).1.reply.accepted ≡ true
        → (r : ControlRequest) × (control_request_from_json json ≡ ok r)
          × (validate r ≡ ok tt)
          × (r.topology_revision ≡ current_topology_revision s)
    unfolding dispatch reject
    dispatch_accepted w s json h = elim (Expected-cases (control_request_from_json json)) [
      | inr (x, e) ↦ absurd (false≢true (rw (e, dispatch) at h))
      | inl (r, e) ↦
          let (valid_request, current) = handle_accepted w s r (rw (e, dispatch) at h) in
          (r, e, valid_request, current)
    ]
