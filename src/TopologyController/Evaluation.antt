-- ===== src/TopologyController/Evaluation.antt =====
-- What `evaluate_port` of src/topology_controller.cpp leaves of the configured faults.
use packet_switch.Prelude.{
  refl, sym, ℕ, Option, ◌≡◌, Bool-cases, inl, ◌||◌, ap, inr, ltb, arith, Option-cases, subst, none,
  some, if◌then◌else◌, not,
}
use packet_switch.FaultEngine
use packet_switch.TopologyController.{
  evaluate_port, port_fault, TopologyController, is_port, port_fault_target, link_fault_target,
}
use packet_switch.FaultEngine.{evaluate_state, fault_for, FaultEngine, FaultState, bounded_random}
use packet_switch.Prelude.Texts.{Text}
use packet_switch.Prelude.Int.{ℤ}
use packet_switch.TopologyController.PortFaults.{KeepsLinks}
use packet_switch.FaultEngine.Decisions.{evaluate_lem, pass_frame_keeps}
use packet_switch.Topology.{Topology}

evaluate_state_keeps :
    (s : FaultState) (n : ℕ) (arrival : ℤ)
    → (evaluate_state s n arrival).0.configuration ≡ s.configuration
unfolding evaluate_state
evaluate_state_keeps s n arrival =
    let lost = bounded_random s.random_state 9999 in
    elim (Bool-cases (s.configuration.blackhole || s.configuration.isolated)) [
      | inl e ↦ rw e refl
      | inr e ↦ elim (Bool-cases (ltb lost.0 s.configuration.loss_basis_points)) [
        | inl f ↦ rw (e, f) refl
        | inr f ↦ rw (e, f) (pass_frame_keeps (record s { random_state = lost.1 }) n arrival)
      ]
    ]

-- Evaluating a frame changes no configured fault.
evaluate_keeps :
    (e : FaultEngine) (target : Text) (n : ℕ) (arrival : ℤ) (j : Text)
    → fault_for (FaultEngine.evaluate e target n arrival).0 j ≡ fault_for e j
unfolding fault_for
evaluate_keeps e target n arrival j = elim (evaluate_lem e target n arrival) [
  | inl (_, same) ↦ ap (λ out. fault_for out.0 j) same
  | inr (s, found, _, stored) ↦ ground (arith, stored j, evaluate_state_keeps s n arrival, found)
]

port_fault_same :
    (c : TopologyController) (e : FaultEngine)
    → ((j : Text) → fault_for e j ≡ fault_for c.fault_engine j)
    → (q : Text) → port_fault (record c { fault_engine = e }) q ≡ port_fault c q
unfolding port_fault
port_fault_same c e same q = elim (Option-cases c.topology) [
  | inl unloaded ↦ rw (unloaded, port_fault) refl
  | inr (t, loaded) ↦ rw (loaded, port_fault, same (port_fault_target q)) refl
]

-- Whatever topology there is.
evaluated_keeps :
    (c : TopologyController) (port : Text) (n : ℕ) (arrival : ℤ) (o : Option Topology)
    → let out = FaultEngine.evaluate c.fault_engine (port_fault_target port) n arrival in
      let after : TopologyController = elim o [
        | none ↦ c
        | some t ↦ if not (is_port t port) then c else record c { fault_engine = out.0 }
      ] in
      KeepsLinks c after × ((q : Text) → port_fault after q ≡ port_fault c q)
evaluated_keeps c port n arrival none =
    (record { topology = refl; fault_seed = refl; revision = refl; links = λ a b. refl }, λ q. refl)
evaluated_keeps c port n arrival (some t) = elim (Bool-cases (is_port t port)) [
  | inr unknown ↦ rw unknown (
    record { topology = refl; fault_seed = refl; revision = refl; links = λ a b. refl },
    λ q. refl,
  )
  | inl known ↦
      let keeps = evaluate_keeps c.fault_engine (port_fault_target port) n arrival in
      rw known (
        record {
          topology = refl;
          fault_seed = refl;
          revision = refl;
          links = λ a b. keeps (link_fault_target a b);
        },
        port_fault_same c _ keeps,
      )
]

evaluate_port_after :
    (c : TopologyController) (port : Text) (n : ℕ) (arrival : ℤ) (o : Option Topology)
    → c.topology ≡ o
    → let out = FaultEngine.evaluate c.fault_engine (port_fault_target port) n arrival in
      (evaluate_port c port n arrival).0 ≡ elim o [
        | none ↦ c
        | some t ↦ if not (is_port t port) then c else record c { fault_engine = out.0 }
      ]
unfolding evaluate_port
evaluate_port_after c port n arrival none loaded = ground (arith, loaded)
evaluate_port_after c port n arrival (some t) loaded = ground (arith, loaded)

pub evaluate_port_keeps :
    (c : TopologyController) (port : Text) (n : ℕ) (arrival : ℤ)
    → KeepsLinks c (evaluate_port c port n arrival).0
      × ((q : Text) → port_fault (evaluate_port c port n arrival).0 q ≡ port_fault c q)
evaluate_port_keeps c port n arrival =
    subst (λ d. KeepsLinks c d × ((q : Text) → port_fault d q ≡ port_fault c q))
      (sym (evaluate_port_after c port n arrival c.topology refl))
      (evaluated_keeps c port n arrival c.topology)
