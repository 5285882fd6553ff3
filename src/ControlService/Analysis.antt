-- ===== src/ControlService/Analysis.antt =====
-- `analysis_events` of src/control_service.cpp: the events of one outcome of the pipeline.
pub mod Counting
use packet_switch.ControlService.{ControlService, stamp, numbered}
use packet_switch.PolicyEnforcer.{
  applied, extended, released, skipped, unknown_port, rejected, EnforcementAction,
  EnforcementOutcome,
}
use packet_switch.TopologyController.{TopologyController, port_fault}
use packet_switch.AnalysisPipeline.{AnalysisOutcome}
use packet_switch.ControlProtocol.Events.{
  EventStamp, FaultStateEvent, PolicyActionEvent, AnomalyDetectedEvent,
}
use packet_switch.Prelude.{
  Option, List, Bool, not, true, select, ◌∷◌, map, false, [], is_some, some, value_or, ◌++◌, none,
}
use packet_switch.Prelude.Texts.{is_empty}
use packet_switch.FaultEngine.{no_fault}

pub record AnalysisEventDispatch : Type 0 where
  pub anomaly_events : List AnomalyDetectedEvent
  pub policy_events : List PolicyActionEvent
  pub fault_events : List FaultStateEvent
  pub enforcement_actions : List EnforcementAction

-- The actions whose ports are published, and whether as active.
abbrev pub Publication : Type 0
Publication = EnforcementAction × Bool

abbrev is_enforced : EnforcementOutcome → Bool
is_enforced applied = true
is_enforced extended = true
is_enforced _ = false

abbrev has_port : Publication → Bool
has_port (action, active) = not (is_empty action.port_id)

unfoldable pub publications : TopologyController → AnalysisOutcome → List Publication
publications c outcome = select has_port (
    map (λ (a : EnforcementAction). (a, is_some (port_fault c a.port_id))) outcome.released_actions
    ++ map (λ (a : EnforcementAction). (a, true))
        (select (λ (a : EnforcementAction). is_enforced a.outcome) outcome.enforced_actions))

unfoldable pub published : TopologyController → EventStamp → Publication → FaultStateEvent
published c stamp (action, active) = record {
  stamp = stamp;
  first_endpoint = action.port_id;
  second_endpoint = [];
  configuration = value_or (port_fault c action.port_id) no_fault;
  active = active;
}

module _ {Run : Type 0} where
  -- An event for each element, with a number of its own.
  unfoldable pub number_all :
      {A E : Type 0}
      → (EventStamp → A → E)
      → ControlService Run
      → List A
      → ControlService Run × List E
  number_all event s [] = (s, [])
  number_all event s (x ∷ xs) =
      let rest = number_all event (numbered s) xs in (rest.0, event (stamp s) x ∷ rest.1)

  abbrev pub with_anomalies :
      ControlService Run → AnalysisOutcome → ControlService Run × List AnomalyDetectedEvent
  with_anomalies s outcome =
      number_all (λ e a. record { stamp = e; anomaly = a }) s outcome.anomalies

  abbrev pub with_decisions :
      ControlService Run → AnalysisOutcome → ControlService Run × List PolicyActionEvent
  with_decisions s outcome =
      number_all (λ e d. record { stamp = e; decision = d }) (with_anomalies s outcome).0
        outcome.decisions

  -- The faults are reported only where the service has a controller.
  unfoldable pub report_faults :
      Option TopologyController
      → ControlService Run
      → AnalysisOutcome
      → ControlService Run × List FaultStateEvent × List EnforcementAction
  unfolding number_all publications published
  report_faults none s outcome = (s, [], [])
  report_faults (some c) s outcome =
      let events = number_all (published c) s (publications c outcome) in
      (events.0, events.1, outcome.released_actions ++ outcome.enforced_actions)

  unfoldable pub analysis_events :
      ControlService Run → AnalysisOutcome → ControlService Run × AnalysisEventDispatch
  unfolding report_faults number_all
  analysis_events s outcome =
      let reported = report_faults s.topology_controller (with_decisions s outcome).0 outcome in
      (
        reported.0,
        record {
          anomaly_events = (with_anomalies s outcome).1;
          policy_events = (with_decisions s outcome).1;
          fault_events = reported.1;
          enforcement_actions = reported.2;
        },
      )
