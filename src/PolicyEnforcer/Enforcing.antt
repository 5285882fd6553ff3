-- ===== src/PolicyEnforcer/Enforcing.antt =====
-- Applying the decisions of a policy: src/policy_enforcer.cpp, `PolicyEnforcer::apply`.
use packet_switch.Prelude.{
  ◌≡◌, arith, ◌≤◌, Option, false, ◌∙◌, if◌then◌else◌, refl, none, some, Bool-cases, Option-cases,
  inl, inr, ◌≢◌, ◌⊎◌, leb, ite, subst₂, sym, Expected-cases, ap, if_pos, if_neg, subst, List, ◌&&◌,
  ◌∷◌, ◌==◌, [], false≢true,
}
use packet_switch.Prelude.Int.{ℤ, ltzb, ◌+ℤ◌}
use packet_switch.PolicyEnforcer.{
  base_lease, Lease, PolicyEnforcer, severity, EnforcementAction, new_lease, enforce,
  EnforcementKind, expiry, nothing, effective_kind, enforced_fault, apply_one, lease_for,
  is_nothing, kind_for, apply, is_rate_limit, rate_limit_bits, describe,
}
use packet_switch.TopologyController.{TopologyController, port_fault, set_port_fault, port_id_at}
use packet_switch.Prelude.Texts.{Text, text_discrete}
use packet_switch.PolicyEnforcer.Invariant.{IsEnforcing, enforce-IsEnforcing}
use packet_switch.Prelude.Maps.{find, assign, find-assign}
use packet_switch.FaultEngine.{FaultConfiguration}
use packet_switch.TopologyController.PortFaults.{
  KeepsLinks-trans, KeepsLinks-refl, KeepsLinks, set_port_fault_lem,
}
use packet_switch.PolicyEngine.{PolicyDecision}

-- The fault that a port has without its lease.
unfoldable pub before : PolicyEnforcer → TopologyController → Text → Option FaultConfiguration
before e c p = elim (find text_discrete p e.leases) [
  | none ↦ port_fault c p
  | some l ↦ if l.had_restore then some l.restore else none
]

-- The lease goes on: with a kind of action that is at least as severe, for at least as long, and with
-- the same fault to restore. A rate limit may change its rate.
pub record Continues (l m : Lease) : Type 0 where
  pub severity : severity l.action.kind ≤ severity m.action.kind
  pub expires : ltzb m.action.expires_at l.action.expires_at ≡ false
  pub restore : m.restore ≡ l.restore
  pub had_restore : m.had_restore ≡ l.had_restore

abbrev pub KeepsLeases : PolicyEnforcer → PolicyEnforcer → Type 0
KeepsLeases e e' =
    (p : Text) (l : Lease)
    → find text_discrete p e.leases ≡ some l
    → (m : Lease) × (find text_discrete p e'.leases ≡ some m) × Continues l m

abbrev pub KeepsBefore :
    PolicyEnforcer → TopologyController → PolicyEnforcer → TopologyController → Type 0
KeepsBefore e c e' c' = (p : Text) → before e' c' p ≡ before e c p

-- What applying decisions keeps of the leases, of the faults and of the topology.
pub record Applies (e : PolicyEnforcer) (c : TopologyController) (e' : PolicyEnforcer)
    (c' : TopologyController) : Type 0 where
  pub enforcing : IsEnforcing e' c'
  pub leases : KeepsLeases e e'
  pub before : KeepsBefore e c e' c'
  pub links : KeepsLinks c c'

ltzb_refl : (x : ℤ) → ltzb x x ≡ false
ltzb_refl x = ground arith

Continues-refl : (l : Lease) → Continues l l
Continues-refl l = record {
  severity = omega arith;
  expires = ltzb_refl l.action.expires_at;
  restore = refl;
  had_restore = refl;
}

Continues-trans : {l m n : Lease} → Continues l m → Continues m n → Continues l n
Continues-trans h k = record {
  severity = ground (arith, h.severity, k.severity);
  expires = ground (arith, h.expires, k.expires);
  restore = k.restore ∙ h.restore;
  had_restore = k.had_restore ∙ h.had_restore;
}

Applies-refl : (e : PolicyEnforcer) (c : TopologyController) → IsEnforcing e c → Applies e c e c
Applies-refl e c v = record {
  enforcing = v;
  leases = λ p l h. (l, h, Continues-refl l);
  before = λ p. refl;
  links = KeepsLinks-refl c;
}

Applies-trans :
    {e e' e'' : PolicyEnforcer} {c c' c'' : TopologyController}
    → Applies e c e' c'
    → Applies e' c' e'' c''
    → Applies e c e'' c''
Applies-trans h k = record {
  enforcing = k.enforcing;
  leases = λ p l found.
      let (m, hm, lm) = h.leases p l found in
      let (n, hn, mn) = k.leases p m hm in (n, hn, Continues-trans lm mn);
  before = λ p. k.before p ∙ h.before p;
  links = KeepsLinks-trans h.links k.links;
}

severity-effective_kind :
    (l : Lease) (kind : EnforcementKind)
    → severity l.action.kind ≤ severity (effective_kind (some l) kind)
severity-effective_kind l kind = elim (Bool-cases (leb (severity l.action.kind) (severity kind))) [
  | inl over ↦ ground arith
  | inr under ↦ ground arith
]

expiry-late : (l : Lease) (time : ℤ) → ltzb (expiry (some l) time) l.action.expires_at ≡ false
expiry-late l time = elim (Bool-cases (ltzb time l.action.expires_at)) [
  | inl early ↦ rw early (ltzb_refl l.action.expires_at)
  | inr late ↦ rw late late
]

-- A lease over a live one continues it.
new_lease-Continues :
    (e : PolicyEnforcer) (c : TopologyController) (now : ℤ) (p : Text) (r : EnforcementAction)
    (l : Lease)
    → find text_discrete p e.leases ≡ some l
    → Continues l (new_lease e c now p r)
unfolding base_lease
new_lease-Continues e c now p r l h = rw h (record {
  severity = severity-effective_kind l r.kind;
  expires = expiry-late l (now +ℤ lease_for e.config (effective_kind (some l) r.kind));
  restore = refl;
  had_restore = refl;
})

new_lease-before :
    (e : PolicyEnforcer) (c : TopologyController) (now : ℤ) (p : Text) (r : EnforcementAction)
    → (if (new_lease e c now p r).had_restore then some (new_lease e c now p r).restore else none)
      ≡ before e c p
unfolding base_lease before
new_lease-before e c now p r = elim (Option-cases (find text_discrete p e.leases)) [
  | inl miss ↦ elim (Option-cases (port_fault c p)) [
    | inl clear ↦ ground arith
    | inr (f, fault) ↦ ground arith
  ]
  | inr (l, h) ↦ ground arith
]

-- `enforce` changes nothing, or stores the lease together with its fault.
enforce-split :
    (e : PolicyEnforcer) (c : TopologyController) (p : Text) (now : ℤ) (r : EnforcementAction)
    → (((enforce e c now p r).enforcer ≡ e) × ((enforce e c now p r).controller ≡ c))
      ⊎ (((enforce e c now p r).enforcer.leases
            ≡ assign text_discrete p (new_lease e c now p r) e.leases)
          × ((q : Text)
              → port_fault (enforce e c now p r).controller q
                ≡ ite
                    (text_discrete p q)
                    (some (enforced_fault (new_lease e c now p r)))
                    (port_fault c q))
          × KeepsLinks c (enforce e c now p r).controller)
unfolding enforce
enforce-split e c p now r = elim (set_port_fault_lem c p (enforced_fault (new_lease e c now p r))) [
  | inr (_, failed, same) ↦
      elim (Expected-cases (set_port_fault c p (enforced_fault (new_lease e c now p r))).1) [
        | inl (_, done) ↦ absurd (failed done)
        | inr (x, error) ↦ inl (rw (error, enforce) refl, rw (error, enforce) same)
      ]
  | inl (port, fits, done, reads, keeps) ↦
      inr (rw (done, enforce) refl, rw (done, enforce) reads, rw (done, enforce) keeps)
]

-- A lease that is stored at `p` in place of one that it continues.
module _ (e e' : PolicyEnforcer) (c c' : TopologyController) (p : Text) (l : Lease)
    (at : e'.leases ≡ assign text_discrete p l e.leases) where
  stored-KeepsLeases :
      ((k : Lease) → find text_discrete p e.leases ≡ some k → Continues k l) → KeepsLeases e e'
  stored-KeepsLeases continues q k h =
      let found = ap (find text_discrete q) at ∙ find-assign text_discrete q p l e.leases in
      elim (text_discrete p q) [
        | yes same ↦ (
          l,
          found ∙ if_pos (text_discrete p q) same _ _,
          continues k (ap (λ x. find text_discrete x e.leases) same ∙ h),
        )
        | no other ↦ (k, found ∙ if_neg (text_discrete p q) other _ _ ∙ h, Continues-refl k)
      ]

  stored-KeepsBefore :
      ((q : Text)
        → port_fault c' q ≡ ite (text_discrete p q) (some (enforced_fault l)) (port_fault c q))
      → (if l.had_restore then some l.restore else none) ≡ before e c p
      → KeepsBefore e c e' c'
  unfolding before
  stored-KeepsBefore reads same q =
      ground (arith, reads q, at, find-assign text_discrete q p l e.leases)

is_nothing_iff : (kind : EnforcementKind) → is_nothing kind ≡ false → kind ≢ nothing
is_nothing_iff kind h same = false≢true (sym h ∙ ap is_nothing same)

-- A decision that names no port or enforces nothing changes nothing; any other is enforced on the
-- port.
apply_one-split :
    (e : PolicyEnforcer) (c : TopologyController) (now : ℤ) (d : PolicyDecision)
    → (((apply_one e c now d).enforcer ≡ e) × ((apply_one e c now d).controller ≡ c))
      ⊎ ((p : Text) × (r : EnforcementAction) × (r.kind ≢ nothing)
          × (r.port_id ≡ p)
          × (apply_one e c now d ≡ enforce e c now p r))
unfolding apply_one
apply_one-split e c now d = elim (Bool-cases (is_nothing (kind_for d.action))) [
  | inl idle ↦ inl (rw idle refl, rw idle refl)
  | inr busy ↦ elim (Option-cases (port_id_at c d.anomaly.ingress_port)) [
    | inl miss ↦ inl (rw (busy, miss) refl, rw (busy, miss) refl)
    | inr (p, hit) ↦
        let rate = is_rate_limit (kind_for d.action) in
        let bits = if rate then rate_limit_bits e.config d else 0 in
        let rate_at : Option Text → EnforcementAction =
          λ o. record (describe d o) { rate_limit_bits_per_second = bits } in
        elim (Bool-cases (rate && bits == 0)) [
          | inl zero_rate ↦ inl (rw (busy, hit, zero_rate) refl, rw (busy, hit, zero_rate) refl)
          | inr rated ↦ inr (
            p,
            rate_at (some p),
            is_nothing_iff _ busy,
            refl,
            rw (busy, hit, rated) (ap (λ o. enforce e c now p (rate_at o)) hit),
          )
        ]
  ]
]

module _ (e : PolicyEnforcer) (c : TopologyController) (v : IsEnforcing e c) where
  pub enforce-Applies :
      (p : Text) (now : ℤ) (r : EnforcementAction)
      → r.kind ≢ nothing
      → r.port_id ≡ p
      → Applies e c (enforce e c now p r).enforcer (enforce e c now p r).controller
  enforce-Applies p now r active named =
      let out = enforce e c now p r in
      elim (enforce-split e c p now r) [
        | inl (same_e, same_c) ↦ subst₂ (Applies e c) (sym same_e) (sym same_c) (Applies-refl e c v)
        | inr (at, reads, keeps) ↦ record {
          enforcing = enforce-IsEnforcing e c v p now r active named;
          leases =
              stored-KeepsLeases e out.enforcer c out.controller p _ at
                (new_lease-Continues e c now p r);
          before =
              stored-KeepsBefore e out.enforcer c out.controller p _ at reads
                (new_lease-before e c now p r);
          links = keeps;
        }
      ]

  pub apply_one-Applies :
      (now : ℤ) (d : PolicyDecision)
      → Applies e c (apply_one e c now d).enforcer (apply_one e c now d).controller
  apply_one-Applies now d = elim (apply_one-split e c now d) [
    | inl (same_e, same_c) ↦ subst₂ (Applies e c) (sym same_e) (sym same_c) (Applies-refl e c v)
    | inr (p, r, active, named, run) ↦
        subst (λ out. Applies e c out.enforcer out.controller) (sym run)
          (enforce-Applies p now r active named)
  ]

-- From a state with the invariant of the leases, applying decisions keeps it. It never ends or
-- shortens a live lease, never turns it into a less severe kind of action (a rate limit may get
-- another rate), and never changes the fault that the lease is to restore; the fault that a port has without its lease stays, and so does every fault of a link.
pub apply-Applies :
    (decisions : List PolicyDecision) (e : PolicyEnforcer) (c : TopologyController) (now : ℤ)
    → IsEnforcing e c
    → Applies e c (apply e c now decisions).0 (apply e c now decisions).1
unfolding apply
apply-Applies [] e c now v = Applies-refl e c v
apply-Applies (d ∷ decisions) e c now v =
    let first = apply_one-Applies e c v now d in
    Applies-trans first (apply-Applies decisions _ _ now first.enforcing)
