-- ===== src/SwitchSupervisor/Supervised.antt =====
-- The pipeline and the controller under a supervisor of src/switch_supervisor.cpp.
use packet_switch.Prelude.{
  refl, subst, ℕ, List, Option, [], ◌∷◌, some, Bool-cases, not, map, none, ◌≡◌, ◌&&◌, sym, ltb, ◌∙◌,
  length, inl, inr, Bool, Option-cases, Expected-cases, if◌then◌else◌, ◌++◌, leb, true, false,
}
use packet_switch.PolicyEnforcer.{PolicyEnforcer}
use packet_switch.AnalysisPipeline.{AnalysisPipeline, AnalysisOutcome}
use packet_switch.SwitchSupervisor.{
  SwitchSupervisor, ControlServer, PacketAnalyzer, poll, flush, tick, report, view_of, is_due,
  decide, inspect, note_frame, bind, BatchedFrame, endpoint_to_string,
}
use packet_switch.TopologyController.{TopologyController, port_fault, evaluate_port}
use packet_switch.AnalysisPipeline.Enforcement.{IsPipeline, evaluate-IsPipeline}
use packet_switch.Prelude.Texts.{Text, is_empty, text_discrete}
use packet_switch.TopologyController.PortFaults.{KeepsLinks}
use packet_switch.Prelude.Int.{ℤ, to_u64}
use packet_switch.TopologyController.Evaluation.{evaluate_port_keeps}
use packet_switch.PolicyEnforcer.Invariant.{IsEnforcing, Holds-keep}
use packet_switch.SwitchSupervisor.Accounts.{call_all, GateCall, call, inspecting, ticking}
use packet_switch.MacTable.{Endpoint}
use packet_switch.VSwitch.{is_blocked}
use packet_switch.Prelude.Maps.{find}

IsEnforcing-keep :
    (e : PolicyEnforcer) (c c' : TopologyController)
    → KeepsLinks c c'
    → ((q : Text) → port_fault c' q ≡ port_fault c q)
    → IsEnforcing e c
    → IsEnforcing e c'
IsEnforcing-keep e c c' keeps same v = record {
  faults = λ p f found. v.faults p f (sym (same p) ∙ found);
  distinct = v.distinct;
  leased = λ p l found. Holds-keep keeps (same p) (v.leased p l found);
}

evaluate_port-IsPipeline :
    (p : AnalysisPipeline) (c : TopologyController) (port : Text) (n : ℕ) (arrival : ℤ)
    → IsPipeline p c
    → IsPipeline p (evaluate_port c port n arrival).0
evaluate_port-IsPipeline p c port n arrival v =
    let (keeps, same) = evaluate_port_keeps c port n arrival in
    record {
      window = v.window;
      clock = v.clock;
      enforcing = IsEnforcing-keep p.enforcer c _ keeps same v.enforcing;
    }

-- No control server is attached, whose commands may set the faults of ports that have a lease; and the
-- pipeline and the controller are in order.
abbrev pub IsSupervised : {C A : Type 0} → SwitchSupervisor C A → Type 0
IsSupervised s = (s.control ≡ none) × IsPipeline s.pipeline s.controller

module _ {C A : Type 0} (server : ControlServer C) (analyzers : PacketAnalyzer A) where
  poll-none :
      (s : SwitchSupervisor C A) (control : Option C)
      → control ≡ none
      → poll server analyzers s control ≡ s
  poll-none s none h = refl
  poll-none s (some control) h = cc

  report-none :
      (s : SwitchSupervisor C A) (control : Option C) (outcome : Option AnalysisOutcome)
      → control ≡ none
      → report server analyzers s control outcome ≡ s
  report-none s none outcome h = refl
  report-none s (some control) outcome h = cc

  flush-IsSupervised :
      (s : SwitchSupervisor C A) (now : ℤ)
      → IsSupervised s
      → IsSupervised (flush server analyzers s now)
  unfolding flush
  flush-IsSupervised s now v =
      let analysis = analyzers.analyze s.analyzer (map view_of s.batch) in
      let kept =
        evaluate-IsPipeline s.pipeline s.controller analysis.1.packets (to_u64 now) now v.1 in
      subst (λ t. IsSupervised t) (sym (report-none _ s.control _ v.0)) (v.0, kept.0)

  tick-IsSupervised :
      (s : SwitchSupervisor C A) (now : ℤ)
      → IsSupervised s
      → IsSupervised (tick server analyzers s now)
  unfolding tick
  tick-IsSupervised s now v =
      let polled = poll server analyzers s s.control in
      let w = subst (λ t. IsSupervised t) (sym (poll-none s s.control v.0)) v in
      elim (Bool-cases (
        not (is_due server analyzers polled now)
        && ltb (length polled.batch) polled.config.max_batch_frames)) [
          | inl quiet ↦ rw (quiet, tick) w
          | inr due ↦ rw (due, tick) (flush-IsSupervised polled now w)
        ]

  note_frame-IsSupervised :
      (s : SwitchSupervisor C A) (frame_data : Text) (port : ℕ) (arrival : ℤ)
      → IsSupervised s
      → IsSupervised (note_frame server analyzers s frame_data port arrival)
  unfolding note_frame
  note_frame-IsSupervised s frame_data port arrival v =
      let frame : BatchedFrame = record { bytes = frame_data; ingress_port = port } in
      recorded
        (if ltb (length s.batch) s.config.max_batch_frames
          then record s { batch = s.batch ++ frame ∷ [] }
          else s)
        (room (ltb (length s.batch) s.config.max_batch_frames) frame)
    where
      room :
          (t : Bool) (frame : BatchedFrame)
          → IsSupervised (if t then record s { batch = s.batch ++ frame ∷ [] } else s)
      room true frame = v
      room false frame = v

      recorded :
          (noted : SwitchSupervisor C A)
          → IsSupervised noted
          → IsSupervised (
              if leb noted.config.max_batch_frames (length noted.batch)
              then tick server analyzers noted arrival
              else noted)
      recorded noted w =
          elim (Bool-cases (leb noted.config.max_batch_frames (length noted.batch))) [
            | inl full ↦ rw full (tick-IsSupervised noted arrival w)
            | inr space ↦ rw space w
          ]

  bind-IsSupervised :
      (s : SwitchSupervisor C A) (sender : Endpoint)
      → IsSupervised s
      → IsSupervised (bind server analyzers s sender).0
  unfolding bind
  bind-IsSupervised s sender v =
      elim (Option-cases (find text_discrete (endpoint_to_string sender) s.bindings)) [
        | inl new ↦ rw (new, bind) v
        | inr (b, found) ↦ rw (found, bind) v
      ]

  decide-IsSupervised :
      (s : SwitchSupervisor C A) (port : Text) (size : ℕ) (arrival : ℤ)
      → IsSupervised s
      → IsSupervised (decide server analyzers s port size arrival).0
  unfolding decide
  decide-IsSupervised s port size arrival v =
      let w : (s.control ≡ none)
          × IsPipeline s.pipeline (evaluate_port s.controller port size arrival).0 =
        (v.0, evaluate_port-IsPipeline s.pipeline s.controller port size arrival v.1) in
      elim (Bool-cases (is_empty port)) [
        | inl unbound ↦ rw (unbound, decide) v
        | inr bound ↦ elim (Expected-cases (evaluate_port s.controller port size arrival).1) [
          | inr (error, failed) ↦ rw (bound, failed, decide) w
          | inl (decision, judged) ↦ elim (Bool-cases (is_blocked decision)) [
            | inl blocked ↦ rw (bound, judged, blocked, decide) w
            | inr passed ↦ rw (bound, judged, passed, decide) w
          ]
        ]
      ]

  call-IsSupervised :
      (s : SwitchSupervisor C A) (c : GateCall)
      → IsSupervised s
      → IsSupervised (call server analyzers s c)
  unfolding inspect
  call-IsSupervised s (inspecting frame_data sender arrival) v =
      let bound = bind server analyzers s sender in
      decide-IsSupervised
        (note_frame server analyzers bound.0 frame_data bound.1.ingress_port arrival)
        bound.1.port_id (length frame_data) arrival
        (note_frame-IsSupervised bound.0 frame_data bound.1.ingress_port arrival
          (bind-IsSupervised s sender v))
  call-IsSupervised s (ticking now) v = tick-IsSupervised s now v

  -- If no control server is attached, the detector's window is in order, its clock not ahead of the
  -- pipeline's and the leases are what the ports do, then all this is so after any calls of the
  -- switch, whatever frames arrive and whatever the analyzer finds in them.
  pub call_all-IsSupervised :
      (calls : List GateCall) (s : SwitchSupervisor C A)
      → IsSupervised s
      → IsSupervised (call_all server analyzers s calls)
  unfolding call_all
  call_all-IsSupervised [] s v = v
  call_all-IsSupervised (c ∷ calls) s v =
      call_all-IsSupervised calls (call server analyzers s c) (call-IsSupervised s c v)
