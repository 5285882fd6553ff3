-- ===== src/Tests/Faults.antt =====
-- The fault engine at concrete inputs.
use packet_switch.Prelude.{◌≡◌, ℕ, ◌||◌, true, false, ◌<◌, ◌⊎◌, arith}
use packet_switch.Prelude.Int.{◌+ℤ◌, pos}
use packet_switch.FaultEngine.{transmission_time, evaluate_state, drop_frame}
use packet_switch.Tests.{lossy_state}
use packet_switch.FaultEngine.Decisions.{Passes, evaluate_state_lem}

evaluate_state_lem_example :
    let s = lossy_state in
    let n : ℕ = 64 in
    let arrival = pos 1000 in
    let c = s.configuration in
    let s' = (evaluate_state s n arrival).0 in
    let d = (evaluate_state s n arrival).1 in
    (s'.configuration ≡ c)
    × (((c.blackhole || c.isolated) ≡ true → (d ≡ drop_frame) × (s' ≡ s)))
    × ((c.blackhole || c.isolated) ≡ false
        → ((d ≡ drop_frame) × (0 < c.loss_basis_points))
          ⊎ (Passes s.configuration s.next_transmit_time n arrival s' d
              × (c.loss_basis_points < 10000)
              × (c.duplication_basis_points ≡ 10000 → d.delivery_count ≡ 2)
              × (c.duplication_basis_points ≡ 0 → d.delivery_count ≡ 1)))
unfolding transmission_time ◌+ℤ◌
evaluate_state_lem_example =
    evaluate_state_lem lossy_state 64 (pos 1000)
      (record {
        latency = omega arith;
        jitter = omega arith;
        loss = omega arith;
        duplication = omega arith;
      })
      (record {
        arrived = omega arith;
        started = omega arith;
        due = omega arith;
        free = omega arith;
      })
