-- ===== src/Tests/Supervision.antt =====
-- The supervisor at concrete inputs.
use packet_switch.Prelude.{◌≡◌, length, ◌<◌, arith, ◌+◌, refl, ◌%◌, ◌^◌}
use packet_switch.SwitchSupervisor
use packet_switch.AnalysisPipeline.{attach}
use packet_switch.SwitchSupervisor.{inspect, cpu_analyzer, gate}
use packet_switch.FaultEngine
use packet_switch.TopologyController
use packet_switch.Prelude.Maps.{find, assign}
use packet_switch.FaultEngine.{set_fault, validate, fault_for}
use packet_switch.TopologyController.{
  port_id_at, port_ids, set_port_fault, load, is_port, port_fault_target, port_fault,
}
use packet_switch.Prelude.Texts.{text_discrete}
use packet_switch.Prelude.Decimal.{decimal}
use packet_switch.Tests.{
  serving, gate_calls, counting, idle_supervisor, supervisor, supervised, frame_ab, endpoint_a,
  leasing, star_topology, isolating,
}
use packet_switch.SwitchSupervisor.Supervised.{IsSupervised, call_all-IsSupervised}
use packet_switch.Frame.{serialize}
use packet_switch.SwitchSupervisor.Accounts.{
  call_all, limit, noted_frames, inspections, call_all-noted, cpu_analyzer-IsCounting,
}
use packet_switch.Prelude.Int.{pos}
use packet_switch.VSwitch.{process_frame}
use packet_switch.PolicyEnforcer.Invariant.{load-IsEnforcing}
use packet_switch.SwitchMetrics.{fetch_add}
use packet_switch.Aggregator.{add_u64}
use packet_switch.SwitchSupervisor.Containment.{noted, process_frame-contained}

call_all-noted_example :
    let server = serving in
    let analyzers = cpu_analyzer in
    let calls = gate_calls in
    let s = supervisor in
    (length (call_all server analyzers s calls).batch < limit s)
    × (noted_frames (call_all server analyzers s calls)
        ≡ (s.analysed_frames + length s.batch + inspections calls) % 2 ^ 64)
unfolding SwitchSupervisor.init
call_all-noted_example =
    call_all-noted serving cpu_analyzer cpu_analyzer-IsCounting gate_calls supervisor (omega arith)

call_all-IsSupervised_example :
    let server = serving in
    let analyzers = cpu_analyzer in
    let calls = gate_calls in
    let s = idle_supervisor in IsSupervised (call_all server analyzers s calls)
unfolding SwitchSupervisor.init attach
call_all-IsSupervised_example =
    call_all-IsSupervised serving cpu_analyzer gate_calls idle_supervisor (
      refl,
      (record {
        window = record { rising = omega arith; unstarted = λ h. refl };
        clock = omega arith;
        enforcing = (load-IsEnforcing leasing 7 star_topology);
      }),
    )

process_frame-contained_example :
    let server = serving in
    let analyzers = cpu_analyzer in
    let net = counting in
    let s = supervised in
    let g = supervisor in
    let frame_data = serialize frame_ab in
    let sender = endpoint_a in
    let now = pos 5000000 in
    (let after = process_frame net (gate server analyzers) s frame_data sender now in
      (after.mac_table ≡ s.mac_table)
      × (after.pending ≡ s.pending)
      × (after.socket ≡ s.socket)
      × (after.metrics.dropped_packets ≡ fetch_add s.metrics.dropped_packets 1)
      × (after.metrics.received_packets ≡ fetch_add s.metrics.received_packets 1))
    × ((inspect server analyzers g frame_data sender now).0.blocked_frames
        ≡ add_u64 (noted server analyzers g frame_data sender now).blocked_frames 1)
unfolding SwitchSupervisor.init SwitchSupervisor.bind find port_id_at port_ids set_port_fault load
    is_port text_discrete set_fault validate port_fault_target port_fault
    SwitchSupervisor.note_frame fault_for assign FaultEngine.init TopologyController.init decimal
process_frame-contained_example =
    process_frame-contained serving cpu_analyzer counting supervised supervisor (serialize frame_ab)
      endpoint_a (pos 5000000) isolating refl refl refl refl
