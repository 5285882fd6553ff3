-- ===== src/AnalysisPipeline.antt =====
-- src/analysis_pipeline.cpp and include/wirelab/analysis_pipeline.hpp: detection, policy and
-- enforcement over one batch after another. The topology controller that the source refers to is an
-- argument of a method that changes it; `attached` says whether there is one.
pub mod Enforcement
use packet_switch.Prelude.{
  ◌≡◌, false, List, true, ℕ, Bool, Option, if◌then◌else◌, max, [], none, some,
}
use packet_switch.AnomalyDetector
use packet_switch.PolicyEngine
use packet_switch.PolicyEnforcer
use packet_switch.AnomalyDetector.{AnomalyDetector}
use packet_switch.TopologyController.{TopologyController}
use packet_switch.PolicyEnforcer.{forget, PolicyEnforcer, release_expired, EnforcementAction, apply}
use packet_switch.PolicyEngine.{PolicyEngine, PolicyDecision}
use packet_switch.Anomaly.{AnomalyEvent}
use packet_switch.Packet.{PacketAnalysis}
use packet_switch.Prelude.Texts.{Text}
use packet_switch.Prelude.Int.{ℤ}

pub record AnalysisOutcome : Type 0 where
  pub anomalies : List AnomalyEvent
  pub decisions : List PolicyDecision
  pub released_actions : List EnforcementAction
  pub enforced_actions : List EnforcementAction
  pub timestamp_ns : ℕ

pub record AnalysisPipeline : Type 0 where
  pub detector : AnomalyDetector
  pub policies : PolicyEngine
  pub enforcer : PolicyEnforcer
  pub attached : Bool
  pub last_timestamp_ns : ℕ

-- The stages after detection.
unfoldable pub respond :
    AnalysisPipeline
    → TopologyController
    → List AnomalyEvent
    → ℤ
    → AnalysisPipeline × TopologyController × AnalysisOutcome
respond p c anomalies now =
    let decided = PolicyEngine.evaluate p.policies anomalies in
    let expired = release_expired p.enforcer c now in
    let enforced = apply expired.0 expired.1 now decided.1 in
    if p.attached
    then (
      record p { policies = decided.0; enforcer = enforced.0 },
      enforced.1,
      record {
        anomalies = anomalies;
        decisions = decided.1;
        released_actions = expired.2;
        enforced_actions = enforced.2;
        timestamp_ns = p.last_timestamp_ns;
      },
    )
    else (
      record p { policies = decided.0 },
      c,
      record {
        anomalies = anomalies;
        decisions = decided.1;
        released_actions = [];
        enforced_actions = [];
        timestamp_ns = p.last_timestamp_ns;
      },
    )

-- `none` is the detector's exception; the clock has moved by then.
unfoldable pub evaluate :
    AnalysisPipeline
    → TopologyController
    → List PacketAnalysis
    → ℕ
    → ℤ
    → AnalysisPipeline × TopologyController × Option AnalysisOutcome
evaluate p c packets timestamp_ns now =
    let clock = max p.last_timestamp_ns timestamp_ns in
    let found = AnomalyDetector.evaluate p.detector packets clock in
    elim found.1 [
      | none ↦ (record p { last_timestamp_ns = clock }, c, none)
      | some anomalies ↦
          let out =
            respond (record p { detector = found.0; last_timestamp_ns = clock }) c anomalies now in
          (out.0, out.1, some out.2)
    ]

unfoldable pub attach : AnalysisPipeline → AnalysisPipeline
attach p = record p { attached = true }

unfoldable pub detach : AnalysisPipeline → AnalysisPipeline
detach p = record p { attached = false }

unfoldable pub release :
    AnalysisPipeline → TopologyController → Text → AnalysisPipeline × TopologyController × Bool
release p c port =
    let out = PolicyEnforcer.release p.enforcer port c in
    if p.attached then (record p { enforcer = out.0 }, out.1, out.2) else (p, c, false)

unfoldable pub reset : AnalysisPipeline → AnalysisPipeline
reset p = record p {
  detector = AnomalyDetector.reset p.detector;
  policies = PolicyEngine.reset p.policies;
  enforcer = forget p.enforcer;
  last_timestamp_ns = 0;
}
