-- ===== src/TopologyController/Refusals.antt =====
-- The controller after a fault command that it refuses.
use packet_switch.TopologyController.{
  TopologyController, set_port_fault, set_link_fault, clear_port_fault, clear_link_fault,
  clear_target, TopologyControllerError, set_target, link_fault_target, port_fault_target,
}
use packet_switch.FaultEngine.{
  set_fault, clear_fault, FaultEngine, FaultConfiguration, FaultConfigurationError,
}
use packet_switch.Prelude.Texts.{Text, text_discrete}
use packet_switch.Prelude.{
  ◌≡◌, false, unexpected, arith, Option-cases, ap, Expected-cases, inl, inr, false≢true, sym,
}
use packet_switch.Prelude.Maps.{find, erase-none}

set_fault_refused :
    (e : FaultEngine) (target : Text) (c : FaultConfiguration) {x : FaultConfigurationError}
    → (set_fault e target c).1 ≡ unexpected x
    → (set_fault e target c).0 ≡ e
unfolding set_fault
set_fault_refused e target c h = ground arith

clear_fault_refused :
    (e : FaultEngine) (target : Text)
    → (clear_fault e target).1 ≡ false
    → (clear_fault e target).0 ≡ e
unfolding clear_fault
clear_fault_refused e target h = elim (Option-cases (find text_discrete target e.states)) [
  | inl absent ↦
      ap (λ states. record e { states = states }) (erase-none text_discrete target e.states absent)
  | inr (f, present) ↦ absurd (false≢true (sym (rw present at h)))
]

set_target_refused :
    (c : TopologyController) (target : Text) (f : FaultConfiguration) {x : TopologyControllerError}
    → (set_target c target f).1 ≡ unexpected x
    → (set_target c target f).0 ≡ c
set_target_refused c target f h = elim (Expected-cases (set_fault c.fault_engine target f).1) [
  | inl (u, e) ↦ ground arith
  | inr (y, e) ↦
      rw (e, set_target)
        (ap (λ engine. record c { fault_engine = engine })
          (set_fault_refused c.fault_engine target f e))
]

clear_target_refused :
    (c : TopologyController) (target : Text)
    → (clear_target c target).1 ≡ false
    → (clear_target c target).0 ≡ c
clear_target_refused c target h =
    ap (λ engine. record c { fault_engine = engine }) (clear_fault_refused c.fault_engine target h)

pub set_port_fault_refused :
    (c : TopologyController) (p : Text) (f : FaultConfiguration) {x : TopologyControllerError}
    → (set_port_fault c p f).1 ≡ unexpected x
    → (set_port_fault c p f).0 ≡ c
unfolding set_port_fault
set_port_fault_refused c p f {x} h =
    ground (arith, set_target_refused c (port_fault_target p) f {x = x})

pub set_link_fault_refused :
    (c : TopologyController) (p q : Text) (f : FaultConfiguration) {x : TopologyControllerError}
    → (set_link_fault c p q f).1 ≡ unexpected x
    → (set_link_fault c p q f).0 ≡ c
unfolding set_link_fault
set_link_fault_refused c p q f {x} h =
    ground (arith, set_target_refused c (link_fault_target p q) f {x = x})

pub clear_port_fault_refused :
    (c : TopologyController) (p : Text)
    → (clear_port_fault c p).1 ≡ false
    → (clear_port_fault c p).0 ≡ c
unfolding clear_port_fault
clear_port_fault_refused c p h = ground (arith, clear_target_refused c (port_fault_target p))

pub clear_link_fault_refused :
    (c : TopologyController) (p q : Text)
    → (clear_link_fault c p q).1 ≡ false
    → (clear_link_fault c p q).0 ≡ c
unfolding clear_link_fault
clear_link_fault_refused c p q h = ground (arith, clear_target_refused c (link_fault_target p q))
