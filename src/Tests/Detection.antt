-- ===== src/Tests/Detection.antt =====
-- Detection and the pipeline at concrete inputs.
use packet_switch.Prelude.{
  ◌≡◌, List, ◌∷◌, [], ℕ, true, value_or, ◌<◌, none, ◌⊎◌, ◌&&◌, arith, ltb, false, ◌%◌, is_some,
  refl, ◌^◌, select, ◌++◌, map,
}
use packet_switch.AnomalyDetector
use packet_switch.AnomalyDetector.Window.{evaluate-IsWindow, IsWindow, is_recent}
use packet_switch.Tests.{detector, stormy, pipeline, lab, leasing, star_topology}
use packet_switch.AnalysisPipeline.Enforcement.{
  Batch, IsPipeline, evaluate_all, evaluate_all-IsPipeline,
}
use packet_switch.Prelude.Int.{pos}
use packet_switch.Anomaly.{AnomalyEvent, broadcast_storm}
use packet_switch.Prelude.Sorting.{IsIn}
use packet_switch.AnomalyDetector.{active_of, cutoff_at, stamp}
use packet_switch.AnomalyDetector.Storms.{IsStorm, broadcasts_of, evaluate-storms}
use packet_switch.Frame.{MacAddress}
use packet_switch.PolicyEnforcer.Invariant.{load-IsEnforcing}

evaluate-IsWindow_example :
    let d = detector in
    let ps = stormy ∷ stormy ∷ [] in
    let time : ℕ = 500 in
    (((d.has_timestamp ≡ true)
        × (time < d.last_timestamp_ns)
        × (AnomalyDetector.evaluate d ps time ≡ (d, none)))
      ⊎ (((d.has_timestamp && ltb time d.last_timestamp_ns) ≡ false)
          × IsWindow (AnomalyDetector.evaluate d ps time).0
          × (is_some (AnomalyDetector.evaluate d ps time).1 ≡ true)
          × ((AnomalyDetector.evaluate d ps time).0.last_timestamp_ns ≡ time)
          × ((AnomalyDetector.evaluate d ps time).0.observations
              ≡ select
                  (is_recent (cutoff_at d.config time))
                  (d.observations ++ map (stamp time) ps))))
evaluate-IsWindow_example =
    evaluate-IsWindow detector (stormy ∷ stormy ∷ []) 500
      (record { rising = omega arith; unstarted = λ h. refl })

evaluate-storms_example :
    let d = detector in
    let ps = stormy ∷ stormy ∷ [] in
    let time : ℕ = 500 in
    let events = value_or (AnomalyDetector.evaluate detector (stormy ∷ stormy ∷ []) 500).1 [] in
    let window = (AnomalyDetector.evaluate d ps time).0.observations in
    ((e : AnomalyEvent)
      → IsIn e events
      → e.type ≡ broadcast_storm
      → (¬ IsIn (active_of e) d.active_anomalies) × IsStorm d.config window e)
    × ((mac : MacAddress)
        → 0 < d.config.broadcast_packets_threshold
        → d.config.broadcast_packets_threshold < broadcasts_of mac window % 2 ^ 64
        → (e : AnomalyEvent) × (e.type ≡ broadcast_storm)
          × (e.source_mac ≡ mac)
          × (IsIn e events ⊎ IsIn (active_of e) d.active_anomalies))
unfolding AnomalyDetector.evaluate
evaluate-storms_example =
    evaluate-storms detector (stormy ∷ stormy ∷ []) 500
      (value_or (AnomalyDetector.evaluate detector (stormy ∷ stormy ∷ []) 500).1 []) refl

evaluate_all-IsPipeline_example :
    let batches : List Batch =
      (record { packets = stormy ∷ stormy ∷ []; timestamp_ns = 500; now = pos 500 }
        ∷ record { packets = stormy ∷ []; timestamp_ns = 400; now = pos 600 }
        ∷ []) in
    let p = pipeline in
    let c = lab in IsPipeline (evaluate_all p c batches).0 (evaluate_all p c batches).1
evaluate_all-IsPipeline_example =
    evaluate_all-IsPipeline
      (record { packets = stormy ∷ stormy ∷ []; timestamp_ns = 500; now = pos 500 }
        ∷ record { packets = stormy ∷ []; timestamp_ns = 400; now = pos 600 }
        ∷ [])
      pipeline lab
      (record {
        window = record { rising = omega arith; unstarted = λ h. refl };
        clock = omega arith;
        enforcing = (load-IsEnforcing leasing 7 star_topology);
      })
