-- ===== src/FaultEngine/Faults.antt =====
-- Configuring faults: what is accepted, what is read back, and the listing of all faults.
use packet_switch.Prelude.{
  ◌≤◌, ◌≡◌, refl, ◌≢◌, ◌↔◌, ◌⊎◌, inl, inr, ite, Option, none, some, List, [], ◌∷◌, map, ok, arith,
  Expected-cases,
}
use packet_switch.Prelude.Int.{pos, ◌≤ℤ◌}
use packet_switch.Prelude.Maps.{find, Distinct, find-assign, find-erase}
use packet_switch.Prelude.Sorting.{IsSorted, sort-IsSorted, IsIn, IsIn-sort}
use packet_switch.Prelude.Texts.{Text, text_discrete, text_lt_asym, not_text_lt_trans}
use packet_switch.FaultEngine.{
  FaultEngine, FaultConfiguration, FaultState, ActiveFault, validate, set_fault, clear_fault,
  fault_for, has_fault, active_faults, listed, fault_less, fresh_state,
}

pub record IsConfiguration (c : FaultConfiguration) : Type 0 where
  pub latency : pos 0 ≤ℤ c.latency
  pub jitter : pos 0 ≤ℤ c.jitter
  pub loss : c.loss_basis_points ≤ 10000
  pub duplication : c.duplication_basis_points ≤ 10000

-- A fault is accepted exactly for a named target and a configuration in range.
pub validate_iff :
    (target : Text) (c : FaultConfiguration)
    → (validate target c ≡ ok tt) ↔ ((target ≢ []) × IsConfiguration c)
unfolding validate
validate_iff [] c = (λ h. cc, λ h. absurd (h.0 refl))
validate_iff (x ∷ t) c = (λ h. (λ e. cc, ground arith), λ h. ground (arith, h.1))

-- Setting a fault on a named target with a configuration in range succeeds, is then read back at
-- that target, and changes no other target; anything else is refused and changes nothing.
pub set_fault_lem :
    (e : FaultEngine) (target : Text) (c : FaultConfiguration)
    → ((target ≢ [])
        × IsConfiguration c
        × ((set_fault e target c).1 ≡ ok tt)
        × ((j : Text)
            → fault_for (set_fault e target c).0 j
              ≡ ite (text_discrete target j) (some c) (fault_for e j)))
      ⊎ ((¬ ((target ≢ []) × IsConfiguration c))
          × ((set_fault e target c).0 ≡ e)
          × ((set_fault e target c).1 ≢ ok tt))
unfolding set_fault fault_for
set_fault_lem e target c = elim (Expected-cases (validate target c)) [
  | inl (_, h) ↦
      let (named, valid) = (validate_iff target c).0 h in
      inl (
        named,
        valid,
        ground arith,
        λ j.
            ground
              (arith, find-assign text_discrete j target (fresh_state e.seed target c) e.states),
      )
  | inr (_, h) ↦ inr (λ v. cc ((validate_iff target c).1 v), ground arith, ground arith)
]

-- Clearing reports whether the target had a fault, removes it, and changes no other target.
pub clear_fault_lem :
    (e : FaultEngine) (target : Text)
    → ((clear_fault e target).1 ≡ has_fault e target)
      × ((j : Text)
          → fault_for (clear_fault e target).0 j
            ≡ ite (text_discrete target j) none (fault_for e j))
unfolding clear_fault fault_for has_fault
clear_fault_lem e target = (refl, λ j. ground (arith, find-erase text_discrete j target e.states))

configured : List (Text × FaultState) → Text → Option FaultConfiguration
configured m t = elim (find text_discrete t m) [ none ↦ none | some s ↦ some s.configuration ]

IsIn-listed :
    (a : ActiveFault) (m : List (Text × FaultState))
    → Distinct text_discrete m
    → IsIn a (map listed m) ↔ (configured m a.target ≡ some a.configuration)
unfolding configured find
IsIn-listed a [] d = (λ h. absurd h, λ h. cc)
IsIn-listed a ((t, s) ∷ m) d = ground (arith, IsIn-listed a m d.1)

-- In an engine that holds no target twice, the listing is sorted by target, and holds exactly the
-- faults that `fault_for` reports.
pub active_faults_lem :
    (e : FaultEngine)
    → Distinct text_discrete e.states
    → IsSorted fault_less (active_faults e)
      × ((a : ActiveFault)
          → IsIn a (active_faults e) ↔ (fault_for e a.target ≡ some a.configuration))
unfolding active_faults fault_for configured
active_faults_lem e d = (
  sort-IsSorted fault_less (λ a b. text_lt_asym a.target b.target)
      (λ a b c. not_text_lt_trans a.target b.target c.target) (map listed e.states),
  λ a.
      let (to, from) = IsIn-sort fault_less a (map listed e.states) in
      let (read, find) = IsIn-listed a e.states d in (λ h. read (to h), λ h. from (find h)),
)
