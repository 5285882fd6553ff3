-- ===== src/ControlService/Analysis/Counting.antt =====
-- The numbers of the events of an outcome and of a slice of a benchmark, and what the fault events
-- report.
use packet_switch.ControlService.{
  ControlService, stamp, numbered, current_topology_revision, next, BenchmarkRuns,
}
use packet_switch.ControlService.Analysis.{
  number_all, analysis_events, report_faults, AnalysisEventDispatch, Publication, published,
  publications, with_anomalies, with_decisions,
}
use packet_switch.Prelude.{
  ℕ, List, Option, ◌≡◌, map, ◌++◌, ◌∷◌, some, [], refl, none, ◌∙◌, ap, is_some, true, ◌&&◌, not,
  false, sym, Bool-cases, inl, inr, ◌⊎◌,
}
use packet_switch.AnalysisPipeline.{AnalysisOutcome}
use packet_switch.TopologyController.{TopologyController}
use packet_switch.ControlService.Numbering.{AreNumbered, option_list}
use packet_switch.ControlProtocol.Events.{
  EventStamp, FaultStateEvent, AnomalyDetectedEvent, PolicyActionEvent, BenchmarkProgressEvent,
  BenchmarkResultEvent,
}
use packet_switch.PolicyEngine.{PolicyDecision}
use packet_switch.Anomaly.{AnomalyEvent}
use packet_switch.ControlService.Dispatch.{
  slice_events, advance_run, advance_benchmark, is_over, is_idle,
}

pub append-AreNumbered :
    (revision first middle last : ℕ) (xs ys : List EventStamp)
    → AreNumbered revision first xs middle
    → AreNumbered revision middle ys last
    → AreNumbered revision first (xs ++ ys) last
append-AreNumbered revision first middle last [] ys e h = rw e h
append-AreNumbered revision first middle last (x ∷ xs) ys (here, rest) h =
    (here, append-AreNumbered revision (next first) middle last xs ys rest h)

-- The stamps of the events of an outcome, as they are numbered.
abbrev pub analysis_stamps : AnalysisEventDispatch → List EventStamp
analysis_stamps d =
    map (λ (e : AnomalyDetectedEvent). e.stamp) d.anomaly_events
    ++ (map (λ (e : PolicyActionEvent). e.stamp) d.policy_events
        ++ map (λ (e : FaultStateEvent). e.stamp) d.fault_events)

abbrev anomaly_event : EventStamp → AnomalyEvent → AnomalyDetectedEvent
anomaly_event e a = record { stamp = e; anomaly = a }

abbrev decision_event : EventStamp → PolicyDecision → PolicyActionEvent
decision_event e d = record { stamp = e; decision = d }

module _ {Run : Type 0} where
  -- `number_all` changes nothing of the service but its next number.
  pub number_all-revision :
      {A E : Type 0} (event : EventStamp → A → E) (s : ControlService Run) (xs : List A)
      → current_topology_revision (number_all event s xs).0 ≡ current_topology_revision s
  unfolding number_all current_topology_revision
  number_all-revision event s [] = refl
  number_all-revision event s (x ∷ xs) = number_all-revision event (numbered s) xs

  number_all-AreNumbered :
      {A E : Type 0} (event : EventStamp → A → E) (stamp_of : E → EventStamp)
      (s : ControlService Run) (xs : List A)
      → ((e : EventStamp) (x : A) → stamp_of (event e x) ≡ e)
      → AreNumbered
          (current_topology_revision s)
          s.next_event_sequence
          (map stamp_of (number_all event s xs).1)
          (number_all event s xs).0.next_event_sequence
  unfolding number_all current_topology_revision
  number_all-AreNumbered event stamp_of s [] same = refl
  number_all-AreNumbered event stamp_of s (x ∷ xs) same =
      (same (stamp s) x, number_all-AreNumbered event stamp_of (numbered s) xs same)

  report_faults-AreNumbered :
      (o : Option TopologyController) (s : ControlService Run) (outcome : AnalysisOutcome)
      → AreNumbered
          (current_topology_revision s)
          s.next_event_sequence
          (map (λ (e : FaultStateEvent). e.stamp) (report_faults o s outcome).1)
          (report_faults o s outcome).0.next_event_sequence
  unfolding report_faults
  report_faults-AreNumbered none s outcome = refl
  report_faults-AreNumbered (some c) s outcome =
      number_all-AreNumbered (published c) (λ (e : FaultStateEvent). e.stamp) s
        (publications c outcome) (stamp_published c)
    where
      stamp_published :
          (c : TopologyController) (e : EventStamp) (p : Publication) → (published c e p).stamp ≡ e
      stamp_published c e (a, b) = refl

  -- The events of an outcome have the revision of the service and numbers that follow one another:
  -- the anomalies, then the decisions, then the faults.
  pub analysis_events-AreNumbered :
      (s : ControlService Run) (outcome : AnalysisOutcome)
      → AreNumbered
          (current_topology_revision s)
          s.next_event_sequence
          (analysis_stamps (analysis_events s outcome).1)
          (analysis_events s outcome).0.next_event_sequence
  unfolding analysis_events
  analysis_events-AreNumbered s outcome =
      let s₁ = (with_anomalies s outcome).0 in
      let s₂ = (with_decisions s outcome).0 in
      let same₁ = number_all-revision anomaly_event s outcome.anomalies in
      let same₂ = number_all-revision decision_event s₁ outcome.decisions ∙ same₁ in
      let first =
        number_all-AreNumbered anomaly_event (λ (e : AnomalyDetectedEvent). e.stamp) s
          outcome.anomalies (λ e a. refl) in
      let second =
        number_all-AreNumbered decision_event (λ (e : PolicyActionEvent). e.stamp) s₁
          outcome.decisions (λ e d. refl) in
      let third = report_faults-AreNumbered s.topology_controller s₂ outcome in
      append-AreNumbered _ _ _ _ _ _ first
        (append-AreNumbered _ _ _ _ _ _ (rw same₁ at second) (rw same₂ at third))

module _ {Run R : Type 0} (runs : BenchmarkRuns Run R) where
  -- The stamps of the events of a slice.
  abbrev pub slice_stamps :
      Option BenchmarkProgressEvent × Option (BenchmarkResultEvent R) → List EventStamp
  slice_stamps (progress, result) =
      option_list (λ (e : BenchmarkProgressEvent). e.stamp) progress
      ++ option_list (λ (e : BenchmarkResultEvent R). e.stamp) result

  -- What a slice of a benchmark leaves: numbered events, and a result just if the run is over.
  pub record IsSlice (s : ControlService Run)
      (a : ControlService Run × (Option BenchmarkProgressEvent × Option (BenchmarkResultEvent R)))
      : Type 0 where
    pub numbers :
        AreNumbered
          (current_topology_revision s)
          s.next_event_sequence
          (slice_stamps a.1)
          a.0.next_event_sequence
    pub reported : is_some a.1.1 ≡ (is_some s.benchmark_run && not (is_some a.0.benchmark_run))
    pub active : (is_some s.benchmark_run ≡ true) ⊎ (a.0 ≡ s)

  slice_events-IsSlice :
      (s : ControlService Run) (run : Run)
      → is_some s.benchmark_run ≡ true
      → IsSlice s (slice_events runs s run)
  unfolding slice_events current_topology_revision
  slice_events-IsSlice s run active = elim (Bool-cases (is_over runs s run)) [
    | inl over ↦
        rw (over, slice_events)
          (record {
            numbers = (refl, (refl, refl));
            reported = sym (ap (λ b. b && true) active);
            active = inl active;
          })
    | inr more ↦
        rw (more, slice_events)
          (record {
            numbers = (refl, refl);
            reported = sym (ap (λ b. b && false) active);
            active = inl active;
          })
  ]

  advance_run-IsSlice :
      (o : Option Run) (s : ControlService Run) (max_packets : ℕ)
      → s.benchmark_run ≡ o
      → IsSlice s (advance_run runs o s max_packets)
  unfolding advance_run current_topology_revision
  advance_run-IsSlice none s max_packets e = record {
    numbers = refl;
    reported = ap (λ o. is_some o && not (is_some o)) (sym e);
    active = inr refl;
  }
  advance_run-IsSlice (some run) s max_packets e =
      let active : is_some s.benchmark_run ≡ true = ap (λ (o : Option Run). is_some o) e in
      elim (Bool-cases (is_idle runs (runs.advance run max_packets))) [
        | inl idle ↦
            rw (idle, advance_run)
              (record {
                numbers = refl;
                reported = sym (ap (λ b. b && false) active);
                active = inl active;
              })
        | inr moved ↦
            rw (moved, advance_run) (slice_events-IsSlice s (runs.advance run max_packets).0 active)
      ]

  -- A slice numbers its events; it reports a result just if it ends the run that was active; and
  -- without an active run it changes nothing.
  pub advance_benchmark-IsSlice :
      (s : ControlService Run) (max_packets : ℕ) → IsSlice s (advance_benchmark runs s max_packets)
  unfolding advance_benchmark
  advance_benchmark-IsSlice s max_packets = advance_run-IsSlice s.benchmark_run s max_packets refl
