-- ===== src/SwitchSupervisor/Containment.antt =====
-- What a fault on a port does to the frames of the sender that is bound to it.
use packet_switch.FaultEngine
use packet_switch.Prelude.{
  refl, ℕ, ◌||◌, ◌≡◌, true, some, ok, Option-cases, inl, inr, Bool-cases, arith, ap, ◌∙◌, subst,
  false, length,
}
use packet_switch.FaultEngine.{
  FaultConfiguration, evaluate_state, fault_for, FaultState, FaultEngine, drop_frame,
}
use packet_switch.TopologyController.{
  evaluate_port, port_fault, TopologyController, is_port, port_fault_target,
}
use packet_switch.Prelude.Texts.{Text, text_discrete, is_empty}
use packet_switch.Prelude.Int.{ℤ}
use packet_switch.Prelude.Maps.{find}
use packet_switch.SwitchSupervisor.{
  ControlServer, PacketAnalyzer, SwitchSupervisor, inspect, decide, bind, note_frame, gate,
}
use packet_switch.VSwitch.{UdpSocket, VSwitch, process_frame}
use packet_switch.FaultEngine.Decisions.{evaluate_lem}
use packet_switch.MacTable.{Endpoint}
use packet_switch.Aggregator.{add_u64}
use packet_switch.SwitchMetrics.{fetch_add}
use packet_switch.VSwitch.Learning.{process_frame-blocked}

-- A fault that lets no frame pass.
abbrev pub IsContaining : FaultConfiguration → Type 0
IsContaining c = (c.blackhole || c.isolated) ≡ true

evaluate_state-blocked :
    (s : FaultState) (n : ℕ) (arrival : ℤ)
    → IsContaining s.configuration
    → (evaluate_state s n arrival).1 ≡ drop_frame
unfolding evaluate_state
evaluate_state-blocked s n arrival contained = rw contained refl

evaluate-blocked :
    (e : FaultEngine) (target : Text) (c : FaultConfiguration) (n : ℕ) (arrival : ℤ)
    → fault_for e target ≡ some c
    → IsContaining c
    → (FaultEngine.evaluate e target n arrival).1 ≡ drop_frame
unfolding fault_for
evaluate-blocked e target c n arrival fault contained = elim (evaluate_lem e target n arrival) [
  | inl (none_found, _) ↦ absurd (ground (arith, fault, none_found))
  | inr (s, found, decided, _) ↦
      decided ∙ evaluate_state-blocked s n arrival (subst IsContaining (same s found) contained)
]
  where
    same : (s : FaultState) → find text_discrete target e.states ≡ some s → c ≡ s.configuration
    same s found = ground (arith, fault, found)

evaluate_port-blocked :
    (c : TopologyController) (port : Text) (fault : FaultConfiguration) (n : ℕ) (arrival : ℤ)
    → port_fault c port ≡ some fault
    → IsContaining fault
    → (evaluate_port c port n arrival).1 ≡ ok drop_frame
unfolding evaluate_port port_fault
evaluate_port-blocked c port fault n arrival found contained = elim (Option-cases c.topology) [
  | inl unloaded ↦ absurd (ground (arith, found, unloaded))
  | inr (t, loaded) ↦ elim (Bool-cases (is_port t port)) [
    | inl known ↦
        let at_engine : fault_for c.fault_engine (port_fault_target port) ≡ some fault =
          ground (arith, found, loaded, known) in
        rw (loaded, evaluate_port, known)
          (ap ok (
            evaluate-blocked c.fault_engine (port_fault_target port) fault n arrival at_engine
              contained))
    | inr unknown ↦ absurd (ground (arith, found, loaded, unknown))
  ]
]

module _ {C A : Type 0} (server : ControlServer C) (analyzers : PacketAnalyzer A) where
  -- The supervisor when it asks the controller about a frame.
  abbrev pub noted : SwitchSupervisor C A → Text → Endpoint → ℤ → SwitchSupervisor C A
  noted s frame_data sender arrival =
      let bound = bind server analyzers s sender in
      note_frame server analyzers bound.0 frame_data bound.1.ingress_port arrival

  abbrev pub port_of : SwitchSupervisor C A → Endpoint → Text
  port_of s sender = (bind server analyzers s sender).1.port_id

  inspect-contained :
      (s : SwitchSupervisor C A) (frame_data : Text) (sender : Endpoint) (arrival : ℤ)
      (fault : FaultConfiguration)
      → is_empty (port_of s sender) ≡ false
      → port_fault (noted s frame_data sender arrival).controller (port_of s sender) ≡ some fault
      → IsContaining fault
      → ((inspect server analyzers s frame_data sender arrival).1 ≡ drop_frame)
        × ((inspect server analyzers s frame_data sender arrival).0.blocked_frames
            ≡ add_u64 (noted s frame_data sender arrival).blocked_frames 1)
  unfolding inspect decide
  inspect-contained s frame_data sender arrival fault bound found contained =
      rw
        (
          bound,
          evaluate_port-blocked (noted s frame_data sender arrival).controller (port_of s sender)
              fault (length frame_data) arrival found contained,
        )
        (refl, refl)

  -- A frame whose sender is bound to a port that a fault contains when the frame is judged is not
  -- forwarded: the switch learns nothing of it, defers and sends nothing, and counts it as received
  -- and dropped; and the supervisor counts a frame that it judges so as blocked.
  pub process_frame-contained :
      {S : Type 0} (net : UdpSocket S) (s : VSwitch S (SwitchSupervisor C A))
      (g : SwitchSupervisor C A) (frame_data : Text) (sender : Endpoint) (now : ℤ)
      (fault : FaultConfiguration)
      → s.gate ≡ some g
      → is_empty (port_of g sender) ≡ false
      → port_fault (noted g frame_data sender now).controller (port_of g sender) ≡ some fault
      → IsContaining fault
      → (let after = process_frame net (gate server analyzers) s frame_data sender now in
          (after.mac_table ≡ s.mac_table)
          × (after.pending ≡ s.pending)
          × (after.socket ≡ s.socket)
          × (after.metrics.dropped_packets ≡ fetch_add s.metrics.dropped_packets 1)
          × (after.metrics.received_packets ≡ fetch_add s.metrics.received_packets 1))
        × ((inspect server analyzers g frame_data sender now).0.blocked_frames
            ≡ add_u64 (noted g frame_data sender now).blocked_frames 1)
  process_frame-contained net s g frame_data sender now fault at bound found contained =
      let judged = inspect-contained g frame_data sender now fault bound found contained in
      (
        process_frame-blocked net (gate server analyzers) s frame_data sender now
            (inr (rw (at, judged.0) refl)),
        judged.1,
      )
