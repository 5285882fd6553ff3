-- ===== src/AnalysisPipeline/Enforcement.antt =====
-- The pipeline over batches: its clock, and the leases.
use packet_switch.Prelude.{
  ◌≡◌, refl, List, ◌≤◌, ℕ, Bool-cases, is_some, true, inl, max, inr, subst, sym, arith, subst₂,
  Option-cases, ◌∷◌, [],
}
use packet_switch.AnomalyDetector
use packet_switch.AnalysisPipeline.{evaluate, respond, AnalysisPipeline}
use packet_switch.TopologyController.{TopologyController}
use packet_switch.AnomalyDetector.Window.{IsWindow, evaluate-IsWindow}
use packet_switch.Packet.{PacketAnalysis}
use packet_switch.Anomaly.{AnomalyEvent}
use packet_switch.PolicyEnforcer.Invariant.{IsEnforcing}
use packet_switch.Prelude.Int.{ℤ}
use packet_switch.PolicyEnforcer.Releasing.{release_expired_lem}
use packet_switch.PolicyEnforcer.Enforcing.{apply-Applies}

-- The detector's window is in order and its clock not ahead of the pipeline's, and the leases are what
-- the ports do.
pub record IsPipeline (p : AnalysisPipeline) (c : TopologyController) : Type 0 where
  pub window : IsWindow p.detector
  pub clock : p.detector.last_timestamp_ns ≤ p.last_timestamp_ns
  pub enforcing : IsEnforcing p.enforcer c

respond-IsEnforcing :
    (p : AnalysisPipeline) (c : TopologyController) (anomalies : List AnomalyEvent) (now : ℤ)
    → IsEnforcing p.enforcer c
    → IsEnforcing (respond p c anomalies now).0.enforcer (respond p c anomalies now).1
      × ((respond p c anomalies now).0.detector ≡ p.detector)
      × ((respond p c anomalies now).0.last_timestamp_ns ≡ p.last_timestamp_ns)
unfolding respond
respond-IsEnforcing p c anomalies now v = elim (Bool-cases p.attached) [
  | inl on ↦
      let (expired, _, _) = release_expired_lem p.enforcer c now v in
      rw (on, respond) ((apply-Applies _ _ _ now expired).enforcing, refl, refl)
  | inr off ↦ rw (off, respond) (v, refl, refl)
]

-- What is left once the detector has answered.
detected-IsPipeline :
    (p : AnalysisPipeline) (c : TopologyController) (anomalies : List AnomalyEvent) (now : ℤ)
    → IsPipeline p c
    → IsPipeline (respond p c anomalies now).0 (respond p c anomalies now).1
detected-IsPipeline p c anomalies now v =
    let (enforcing, detector, clock) = respond-IsEnforcing p c anomalies now v.enforcing in
    record {
      window = subst IsWindow (sym detector) v.window;
      clock = subst₂ (λ d t. d.last_timestamp_ns ≤ t) (sym detector) (sym clock) v.clock;
      enforcing = enforcing;
    }

-- If the detector's window is in order, its clock not ahead of the pipeline's and the leases are
-- what the ports do, then a batch never makes the detector throw, whatever its time, the clock
-- does not go back, and all this holds again.
pub evaluate-IsPipeline :
    (p : AnalysisPipeline) (c : TopologyController) (packets : List PacketAnalysis) (time : ℕ)
    (now : ℤ)
    → IsPipeline p c
    → IsPipeline (evaluate p c packets time now).0 (evaluate p c packets time now).1
      × (is_some (evaluate p c packets time now).2 ≡ true)
      × ((evaluate p c packets time now).0.last_timestamp_ns ≡ max p.last_timestamp_ns time)
unfolding evaluate
evaluate-IsPipeline p c packets time now v =
    let latest = max p.last_timestamp_ns time in
    let out = AnomalyDetector.evaluate p.detector packets latest in
    elim (evaluate-IsWindow p.detector packets latest v.window) [
      | inl (_, back, _) ↦ absurd (omega (arith, back, v.clock))
      | inr (_, window, answered, last, _) ↦ elim (Option-cases out.1) [
        | inl refused ↦ absurd (ground (arith, answered))
        | inr (anomalies, found) ↦
            let next : AnalysisPipeline = record p {
              detector = out.0;
              last_timestamp_ns = latest;
            } in
            let (_, _, clock) = respond-IsEnforcing next c anomalies now v.enforcing in
            rw (found, evaluate)
              (
                detected-IsPipeline next c anomalies now (record {
                  window = window;
                  clock = omega (arith, last);
                  enforcing = v.enforcing;
                }),
                refl,
                clock,
              )
      ]
    ]

pub record Batch : Type 0 where
  pub packets : List PacketAnalysis
  pub timestamp_ns : ℕ
  pub now : ℤ

-- Over any history of batches.
unfoldable pub evaluate_all :
    AnalysisPipeline → TopologyController → List Batch → AnalysisPipeline × TopologyController
evaluate_all p c [] = (p, c)
evaluate_all p c (b ∷ batches) =
    let out = evaluate p c b.packets b.timestamp_ns b.now in evaluate_all out.0 out.1 batches

-- If the detector's window is in order, its clock not ahead of the pipeline's and the leases are
-- what the ports do, then this is so after any history of batches, at whatever times.
pub evaluate_all-IsPipeline :
    (batches : List Batch) (p : AnalysisPipeline) (c : TopologyController)
    → IsPipeline p c
    → IsPipeline (evaluate_all p c batches).0 (evaluate_all p c batches).1
unfolding evaluate_all
evaluate_all-IsPipeline [] p c v = v
evaluate_all-IsPipeline (b ∷ batches) p c v =
    evaluate_all-IsPipeline batches _ _ (evaluate-IsPipeline p c b.packets b.timestamp_ns b.now v).0
