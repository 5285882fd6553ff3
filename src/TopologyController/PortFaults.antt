-- ===== src/TopologyController/PortFaults.antt =====
-- Setting and clearing the fault of a port: src/topology_controller.cpp.
use packet_switch.Prelude.{
  ◌≡◌, refl, ◌≢◌, ◌⊎◌, inl, inr, ite, true, is_some, none, some, [], ok, arith, Bool-cases,
  Option-cases, ◌∙◌,
}
use packet_switch.Prelude.Texts.{Text, text_discrete}
use packet_switch.Topology.{Topology}
use packet_switch.FaultEngine.{FaultEngine, FaultConfiguration, fault_for, has_fault}
use packet_switch.FaultEngine.Faults.{IsConfiguration, set_fault_lem, clear_fault_lem}
use packet_switch.TopologyController.{
  TopologyController, is_port, port_fault, port_fault_target, link_fault_target, set_port_fault,
  clear_port_fault,
}
use packet_switch.TopologyController.Targets.{port_fault_target_injective, link_fault_target_lem}

-- The port is one of the loaded topology.
abbrev pub IsPort : TopologyController → Text → Type 0
IsPort c p = (t : Topology) × (c.topology ≡ some t) × (is_port t p ≡ true)

target-ne-nil : (p : Text) → port_fault_target p ≢ []
unfolding port_fault_target
target-ne-nil p h = cc

-- All but the fault engine is as before, and no fault of a link has changed.
pub record KeepsLinks (c c' : TopologyController) : Type 0 where
  pub topology : c'.topology ≡ c.topology
  pub fault_seed : c'.fault_seed ≡ c.fault_seed
  pub revision : c'.topology_revision ≡ c.topology_revision
  pub links :
      (a b : Text)
      → fault_for c'.fault_engine (link_fault_target a b)
        ≡ fault_for c.fault_engine (link_fault_target a b)

pub KeepsLinks-refl : (c : TopologyController) → KeepsLinks c c
KeepsLinks-refl c = record {
  topology = refl;
  fault_seed = refl;
  revision = refl;
  links = λ a b. refl;
}

pub KeepsLinks-trans :
    {c c' c'' : TopologyController} → KeepsLinks c c' → KeepsLinks c' c'' → KeepsLinks c c''
KeepsLinks-trans h k = record {
  topology = k.topology ∙ h.topology;
  fault_seed = k.fault_seed ∙ h.fault_seed;
  revision = k.revision ∙ h.revision;
  links = λ a b. k.links a b ∙ h.links a b;
}

pub keeps_same : (c c' : TopologyController) → c' ≡ c → KeepsLinks c c'
keeps_same c c' e = rw e (KeepsLinks-refl c)

-- Setting a fault on a port succeeds exactly for a port of the loaded topology and a configuration
-- in range; then the port reports it, every other port reports what it did before, and no link
-- changes. Otherwise it fails and changes nothing.
pub set_port_fault_lem :
    (c : TopologyController) (p : Text) (f : FaultConfiguration)
    → (IsPort c p
        × IsConfiguration f
        × ((set_port_fault c p f).1 ≡ ok tt)
        × ((q : Text)
            → port_fault (set_port_fault c p f).0 q
              ≡ ite (text_discrete p q) (some f) (port_fault c q))
        × KeepsLinks c (set_port_fault c p f).0)
      ⊎ ((¬ (IsPort c p × IsConfiguration f))
          × ((set_port_fault c p f).1 ≢ ok tt)
          × ((set_port_fault c p f).0 ≡ c))
unfolding set_port_fault port_fault
set_port_fault_lem c p f = elim (Option-cases c.topology) [
  | inl e ↦ inr (λ h. ground arith, ground arith, ground arith)
  | inr (t, e) ↦ elim (Bool-cases (is_port t p)) [
    | inl port ↦ elim (set_fault_lem c.fault_engine (port_fault_target p) f) [
      | inl (_, valid, done, reads) ↦ inl (
        (t, e, port),
        valid,
        ground arith,
        λ q. ground (arith, reads (port_fault_target q), port_fault_target_injective p q),
        record {
          topology = ground arith;
          fault_seed = ground arith;
          revision = ground arith;
          links = λ a b.
              ground (arith, reads (link_fault_target a b), (link_fault_target_lem p p a b).1);
        },
      )
      | inr (invalid, same, failed) ↦
          inr (λ h. invalid (target-ne-nil p, h.1), ground arith, ground arith)
    ]
    | inr other ↦ inr (λ h. ground arith, ground arith, ground arith)
  ]
]

reports : (e : FaultEngine) (target : Text) → has_fault e target ≡ is_some (fault_for e target)
unfolding has_fault fault_for
reports e target = ground arith

-- Clearing a port's fault reports whether a port of the loaded topology had one; then that port
-- reports none, every other port what it did before, and no link changes.
pub clear_port_fault_lem :
    (c : TopologyController) (p : Text)
    → ((clear_port_fault c p).1 ≡ is_some (port_fault c p))
      × ((q : Text)
          → port_fault (clear_port_fault c p).0 q ≡ ite (text_discrete p q) none (port_fault c q))
      × KeepsLinks c (clear_port_fault c p).0
unfolding clear_port_fault port_fault
clear_port_fault_lem c p = elim (Option-cases c.topology) [
  | inl e ↦ (ground arith, λ q. ground arith, keeps_same c _ (ground arith))
  | inr (t, e) ↦ elim (Bool-cases (is_port t p)) [
    | inl port ↦
        let (had, reads) = clear_fault_lem c.fault_engine (port_fault_target p) in
        (
          ground (arith, reports c.fault_engine (port_fault_target p)),
          λ q. ground (arith, reads (port_fault_target q), port_fault_target_injective p q),
          record {
            topology = ground arith;
            fault_seed = ground arith;
            revision = ground arith;
            links = λ a b.
                ground (arith, reads (link_fault_target a b), (link_fault_target_lem p p a b).1);
          },
        )
    | inr other ↦ (ground arith, λ q. ground arith, keeps_same c _ (ground arith))
  ]
]
