-- ===== src/PolicyEnforcer/Invariant.antt =====
-- What ties the leases of src/policy_enforcer.cpp to the faults of the topology controller.
use packet_switch.Prelude.{
  ◌≡◌, arith, ℕ, Option, some, ◌≢◌, ◌∙◌, false, Option-cases, inl, Bool-cases, inr, none, refl, ite,
  if_pos, sym, subst, subst₂, if_neg, Expected-cases, [],
}
use packet_switch.PolicyEnforcer.{
  PolicyEnforcer, EnforcementKind, base_lease, enforce, Lease, overlay, EnforcementAction, nothing,
  effective_kind, rate_limit, enforced_fault, blackhole, isolate, supersedes, new_lease,
  PolicyEnforcerConfig,
}
use packet_switch.FaultEngine
use packet_switch.TopologyController.{init, TopologyController, port_fault, set_port_fault, load}
use packet_switch.FaultEngine.{FaultConfiguration, no_fault, fault_for}
use packet_switch.FaultEngine.Faults.{IsConfiguration}
use packet_switch.Prelude.Maps.{
  Distinct, find, assign-Distinct, assign, ite-some_split, find-assign,
}
use packet_switch.Prelude.Texts.{Text, text_discrete}
use packet_switch.Prelude.Int.{ℤ}
use packet_switch.TopologyController.PortFaults.{KeepsLinks, IsPort, set_port_fault_lem}
use packet_switch.Topology.{Topology}

-- Every fault of a port has a configuration in range.
abbrev pub FaultsFit : TopologyController → Type 0
FaultsFit c = (p : Text) (f : FaultConfiguration) → port_fault c p ≡ some f → IsConfiguration f

-- A lease on a port of the topology enforces something, can be undone, and is what the port does.
pub record Holds (c : TopologyController) (p : Text) (l : Lease) : Type 0 where
  pub named : l.action.port_id ≡ p
  pub active : l.action.kind ≢ nothing
  pub restorable : IsConfiguration l.restore
  pub unrestored : l.had_restore ≡ false → l.restore ≡ no_fault
  pub port : IsPort c p
  pub enforced : port_fault c p ≡ some (enforced_fault l)

pub record IsEnforcing (e : PolicyEnforcer) (c : TopologyController) : Type 0 where
  pub faults : FaultsFit c
  pub distinct : Distinct text_discrete e.leases
  pub leased : (p : Text) (l : Lease) → find text_discrete p e.leases ≡ some l → Holds c p l

pub overlay-IsConfiguration :
    (base : FaultConfiguration) (kind : EnforcementKind) (bits : ℕ)
    → IsConfiguration base
    → IsConfiguration (overlay base kind bits)
overlay-IsConfiguration base nothing bits v = v
overlay-IsConfiguration base rate_limit bits v = assumption
overlay-IsConfiguration base blackhole bits v = assumption
overlay-IsConfiguration base isolate bits v = assumption

pub no_fault-IsConfiguration : IsConfiguration no_fault
no_fault-IsConfiguration = omega arith

-- A lease on a port that did not change still holds.
pub Holds-keep :
    {c c' : TopologyController} {p : Text} {l : Lease}
    → KeepsLinks c c'
    → port_fault c' p ≡ port_fault c p
    → Holds c p l
    → Holds c' p l
Holds-keep keeps same h = record {
  named = h.named;
  active = h.active;
  restorable = h.restorable;
  unrestored = h.unrestored;
  port = (h.port.0, keeps.topology ∙ h.port.1, h.port.2);
  enforced = same ∙ h.enforced;
}

-- A lease stored together with its fault keeps the invariant.
module _ (e : PolicyEnforcer) (c c' : TopologyController) (v : IsEnforcing e c) (p : Text)
    (keeps : KeepsLinks c c') where
  pub stored-IsEnforcing :
      (l : Lease)
      → ((q : Text)
          → port_fault c' q ≡ ite (text_discrete p q) (some (enforced_fault l)) (port_fault c q))
      → IsConfiguration (enforced_fault l)
      → Holds c' p l
      → IsEnforcing (record e { leases = assign text_discrete p l e.leases }) c'
  stored-IsEnforcing l reads fits here = record {
    faults = λ q g h. elim (ite-some_split (text_discrete p q) _ g _ (sym (reads q) ∙ h)) [
      | inl (_, same) ↦ subst IsConfiguration same fits
      | inr (_, old) ↦ v.faults q g old
    ];
    distinct = assign-Distinct text_discrete p l e.leases v.distinct;
    leased = λ q m h.
        elim (ite-some_split (text_discrete p q) l m _
          (sym (find-assign text_discrete q p l e.leases) ∙ h)) [
            | inl (at, same) ↦ subst₂ (Holds c') at same here
            | inr (other, old) ↦
                Holds-keep keeps (reads q ∙ if_neg (text_discrete p q) other _ _) (v.leased q m old)
          ];
  }

module _ (e : PolicyEnforcer) (c : TopologyController) (v : IsEnforcing e c) (p : Text) where
  -- The fault to restore, of a new lease and of a live one.
  base_lease-fits :
      (o : Option Lease) (r : EnforcementAction)
      → find text_discrete p e.leases ≡ o
      → IsConfiguration (base_lease o c p r).restore
        × ((base_lease o c p r).had_restore ≡ false → (base_lease o c p r).restore ≡ no_fault)
  unfolding base_lease
  base_lease-fits (some l) r h = ((v.leased p l h).restorable, (v.leased p l h).unrestored)
  base_lease-fits none r h = elim (Option-cases (port_fault c p)) [
    | inl miss ↦ rw miss (no_fault-IsConfiguration, λ _. refl)
    | inr (f, hit) ↦ rw hit (v.faults p f hit, λ no_restore. cc)
  ]

  effective_kind-active :
      (o : Option Lease) (kind : EnforcementKind)
      → find text_discrete p e.leases ≡ o
      → kind ≢ nothing
      → effective_kind o kind ≢ nothing
  effective_kind-active none kind h k = k
  effective_kind-active (some l) kind h k = elim (Bool-cases (supersedes (some l) kind)) [
    | inl over ↦ rw over k
    | inr under ↦ rw under ((v.leased p l h).active)
  ]

  pub enforce-IsEnforcing :
      (now : ℤ) (r : EnforcementAction)
      → r.kind ≢ nothing
      → r.port_id ≡ p
      → IsEnforcing (enforce e c now p r).enforcer (enforce e c now p r).controller
  unfolding enforce
  enforce-IsEnforcing now r active named =
      elim (set_port_fault_lem c p (enforced_fault (new_lease e c now p r))) [
        | inr (_, failed, same) ↦
            elim (Expected-cases (set_port_fault c p (enforced_fault (new_lease e c now p r))).1) [
              | inl (_, done) ↦ absurd (failed done)
              | inr (x, error) ↦ rw (error, enforce, same) v
            ]
        | inl (port, fits, done, reads, keeps) ↦
            let lease = new_lease e c now p r in
            let o = find text_discrete p e.leases in
            let fit = base_lease-fits o r refl in
            rw (done, enforce)
              (stored-IsEnforcing e c _ v p keeps lease reads fits (record {
                named = named;
                active = effective_kind-active o r.kind refl active;
                restorable = fit.0;
                unrestored = fit.1;
                port = (port.0, keeps.topology ∙ port.1, port.2);
                enforced = reads p ∙ if_pos (text_discrete p p) refl _ _;
              }))
      ]

-- An enforcer without leases and a controller that has just loaded a topology have the invariant
-- of the leases: every fault of a port has a configuration in range, no port is leased twice, and
-- each lease is what its port does.
pub load-IsEnforcing :
    (config : PolicyEnforcerConfig) (seed : ℕ) (t : Topology)
    → IsEnforcing (record { config = config; leases = [] }) (load (init seed) t)
unfolding port_fault load init FaultEngine.init find fault_for
load-IsEnforcing config seed t = record {
  faults = λ p f h. absurd (ground arith);
  distinct = tt;
  leased = λ p l h. absurd (ground arith);
}
