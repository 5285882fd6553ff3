-- ===== src/ControlService/Numbering.antt =====
-- The numbers that the service gives to its events.
use packet_switch.ControlProtocol.{control_api_version}
use packet_switch.ControlService.Dispatch.{fault_events_from}
use packet_switch.ControlService.{
  ControlDispatch, ControlService, current_topology_revision, next, numbered,
}
use packet_switch.Prelude.{Option, ℕ, List, [], ◌≡◌, ◌∷◌, map, some, ◌++◌, none, refl}
use packet_switch.TopologyController.{TopologyFault}
use packet_switch.ControlProtocol.Events.{
  EventStamp, SwitchMetricsEvent, FaultStateEvent, TopologyStateEvent, SupervisionStateEvent,
  BenchmarkProgressEvent, BenchmarkResultEvent,
}

abbrev pub option_list : {A B : Type 0} → (A → B) → Option A → List B
option_list f none = []
option_list f (some a) = f a ∷ []

-- The stamps of the events of a dispatch, as they are numbered.
abbrev pub stamps : {R : Type 0} → ControlDispatch R → List EventStamp
stamps d =
    option_list (λ (e : SwitchMetricsEvent). e.stamp) d.metrics_event
    ++ (map (λ (e : FaultStateEvent). e.stamp) d.fault_events
        ++ (option_list (λ (e : TopologyStateEvent). e.stamp) d.topology_event
            ++ (option_list (λ (e : SupervisionStateEvent). e.stamp) d.supervision_event
                ++ (option_list (λ (e : BenchmarkProgressEvent). e.stamp) d.benchmark_progress_event
                    ++ option_list (λ (e : BenchmarkResultEvent _). e.stamp)
                        d.benchmark_result_event))))

-- Stamps that have the current version, one revision, and the numbers that follow one another from
-- the first to the last, which is not given away.
abbrev pub AreNumbered : ℕ → ℕ → List EventStamp → ℕ → Type 0
AreNumbered revision first [] last = first ≡ last
AreNumbered revision first (e ∷ es) last =
    (e ≡ record {
      api_version = control_api_version;
      event_sequence = first;
      topology_revision = revision;
    })
    × AreNumbered revision (next first) es last

module _ {Run : Type 0} where
  pub fault_events_from-AreNumbered :
      (s : ControlService Run) (fs : List TopologyFault)
      → AreNumbered
          (current_topology_revision s)
          s.next_event_sequence
          (map (λ (e : FaultStateEvent). e.stamp) (fault_events_from s fs).1 ++ [])
          (fault_events_from s fs).0.next_event_sequence
        × (current_topology_revision (fault_events_from s fs).0 ≡ current_topology_revision s)
  unfolding fault_events_from current_topology_revision
  fault_events_from-AreNumbered s [] = (refl, refl)
  fault_events_from-AreNumbered s (f ∷ fs) =
      let (others, same) = fault_events_from-AreNumbered (numbered s) fs in ((refl, others), same)
