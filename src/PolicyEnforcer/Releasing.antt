-- ===== src/PolicyEnforcer/Releasing.antt =====
-- Giving leases back: by their expiry, and by name.
use packet_switch.Prelude.{
  ◌≡◌, Option, if◌then◌else◌, some, none, ite, Bool-cases, inr, inl, List, subst, ◌∷◌, if_pos,
  arith, sym, [], refl, select, not, Option-cases, map, ◌∙◌, ap, if_neg,
}
use packet_switch.PolicyEnforcer.{
  Lease, restore_port, expire_leases, release, release_expired, is_enforced, PolicyEnforcer,
  released, port_less, apply,
}
use packet_switch.TopologyController.{
  TopologyController, port_fault, clear_port_fault, set_port_fault,
}
use packet_switch.FaultEngine.{FaultConfiguration}
use packet_switch.Prelude.Texts.{Text, text_discrete}
use packet_switch.PolicyEnforcer.Invariant.{Holds, Holds-keep, IsEnforcing}
use packet_switch.TopologyController.PortFaults.{
  KeepsLinks, clear_port_fault_lem, set_port_fault_lem, IsPort, KeepsLinks-refl, KeepsLinks-trans,
}
use packet_switch.Prelude.Int.{ℤ, ltzb}
use packet_switch.Prelude.Maps.{find, Distinct, erase, find-erase, erase-Distinct, ite-none_split}
use packet_switch.FaultEngine.Faults.{IsConfiguration}
use packet_switch.PolicyEnforcer.Enforcing.{before, apply-Applies}
use packet_switch.Prelude.Sorting.{sort}
use packet_switch.PolicyEngine.{PolicyDecision}

-- The fault that a lease gives back.
abbrev pub given_back : Lease → Option FaultConfiguration
given_back l = if l.had_restore then some l.restore else none

-- Giving back a lease restores its port, and changes nothing else.
restore_port_lem :
    (c : TopologyController) (p : Text) (l : Lease)
    → Holds c p l
    → ((q : Text)
        → port_fault (restore_port l c) q ≡ ite (text_discrete p q) (given_back l) (port_fault c q))
      × KeepsLinks c (restore_port l c)
unfolding restore_port
restore_port_lem c p l h = elim (Bool-cases l.had_restore) [
  | inr bare ↦
      let (_, reads, keeps) = clear_port_fault_lem c l.action.port_id in
      (
        λ q. rw bare (
            subst
              (λ x.
                port_fault (clear_port_fault c l.action.port_id).0 q
                ≡ ite (text_discrete x q) none (port_fault c q))
              h.named (reads q)),
        rw bare keeps,
      )
  | inl had ↦ elim (set_port_fault_lem c l.action.port_id l.restore) [
    | inl (_, _, _, reads, keeps) ↦ (
      λ q. rw had (
          subst
            (λ x.
              port_fault (set_port_fault c l.action.port_id l.restore).0 q
              ≡ ite (text_discrete x q) (some l.restore) (port_fault c q))
            h.named (reads q)),
      rw had keeps,
    )
    | inr (failed, _, _) ↦ absurd (failed (subst (IsPort c) (sym h.named) h.port, h.restorable))
  ]
]

-- What an expiry at `now` leaves of the lease of a port.
abbrev pub live : ℤ → Option Lease → Option Lease
live now none = none
live now (some l) = if ltzb now l.action.expires_at then some l else none

-- What it leaves of the fault of a port.
abbrev pub fault_after : ℤ → Option FaultConfiguration → Option Lease → Option FaultConfiguration
fault_after now fault none = fault
fault_after now fault (some l) = if ltzb now l.action.expires_at then fault else given_back l

abbrev pub AreLeases : List (Text × Lease) → TopologyController → Type 0
AreLeases ls c = (p : Text) (l : Lease) → find text_discrete p ls ≡ some l → Holds c p l

pub record Expires (now : ℤ) (ls : List (Text × Lease)) (c : TopologyController)
    (out : List (Text × Lease)) (c' : TopologyController) : Type 0 where
  pub leases : (p : Text) → find text_discrete p out ≡ live now (find text_discrete p ls)
  pub faults :
      (p : Text) → port_fault c' p ≡ fault_after now (port_fault c p) (find text_discrete p ls)
  pub distinct : Distinct text_discrete out
  pub links : KeepsLinks c c'

-- The leases after the first, before and after the first is given back.
module _ (c : TopologyController) (p : Text) (l : Lease) (ls : List (Text × Lease))
    (apart : find text_discrete p ls ≡ none) (v : AreLeases ((p, l) ∷ ls) c) where
  rest-AreLeases : AreLeases ls c
  unfolding find
  rest-AreLeases q m h = v q m (ground arith)

  released-AreLeases : AreLeases ls (restore_port l c)
  unfolding find
  released-AreLeases q m h =
      let (reads, keeps) = restore_port_lem c p l (v p l (if_pos (text_discrete p p) refl _ _)) in
      Holds-keep keeps (ground (arith, reads q)) (rest-AreLeases q m h)

expire_leases-Expires :
    (now : ℤ) (ls : List (Text × Lease)) (c : TopologyController)
    → Distinct text_discrete ls
    → AreLeases ls c
    → Expires now ls c (expire_leases now ls c).0 (expire_leases now ls c).1
unfolding expire_leases find
expire_leases-Expires now [] c d v = record {
  leases = λ p. refl;
  faults = λ p. refl;
  distinct = tt;
  links = KeepsLinks-refl c;
}
expire_leases-Expires now ((p, l) ∷ ls) c d v =
    let here = v p l (if_pos (text_discrete p p) refl _ _) in
    elim (Bool-cases (ltzb now l.action.expires_at)) [
      | inl goes_on ↦
          let rest = expire_leases-Expires now ls c d.1 (rest-AreLeases c p l ls d.0 v) in
          record {
            leases = λ q. ground (arith, rest.leases q);
            faults = λ q. ground (arith, rest.faults q);
            distinct = ground (arith, rest.leases p, rest.distinct);
            links = rw (goes_on, expire_leases) (rest.links);
          }
      | inr over ↦
          let (reads, keeps) = restore_port_lem c p l here in
          let rest =
            expire_leases-Expires now ls (restore_port l c) d.1
              (released-AreLeases c p l ls d.0 v) in
          record {
            leases = λ q. ground (arith, rest.leases q);
            faults = λ q. ground (arith, rest.faults q, reads q);
            distinct = rw (over, expire_leases) (rest.distinct);
            links = rw (over, expire_leases) (KeepsLinks-trans keeps rest.links);
          }
    ]

-- The leases after an expiry, or a release by name, still hold.
AreLeases-after :
    (c c' : TopologyController) (ls ls' : List (Text × Lease))
    → KeepsLinks c c'
    → ((p : Text) (l : Lease)
        → find text_discrete p ls' ≡ some l
        → (find text_discrete p ls ≡ some l) × (port_fault c' p ≡ port_fault c p))
    → AreLeases ls c
    → AreLeases ls' c'
AreLeases-after c c' ls ls' keeps same v p l h =
    let (old, fault) = same p l h in Holds-keep keeps fault (v p l old)

live-same :
    (now : ℤ) (o : Option Lease) (fault : Option FaultConfiguration) (l : Lease)
    → live now o ≡ some l
    → (o ≡ some l) × (fault_after now fault o ≡ fault)
live-same now none fault l h = absurd (ground arith)
live-same now (some k) fault l h = elim (Bool-cases (ltzb now k.action.expires_at)) [
  | inl goes_on ↦ ground arith
  | inr over ↦ absurd (ground arith)
]

given_back-fits :
    (l : Lease) (f : FaultConfiguration)
    → IsConfiguration l.restore
    → given_back l ≡ some f
    → IsConfiguration f
given_back-fits l f v h = elim (Bool-cases l.had_restore) [
  | inl had ↦ ground arith
  | inr bare ↦ absurd (ground arith)
]

fault_after-fits :
    (now : ℤ) (o : Option Lease) (fault : Option FaultConfiguration) (f : FaultConfiguration)
    → ((l : Lease) → o ≡ some l → IsConfiguration l.restore)
    → (fault ≡ some f → IsConfiguration f)
    → fault_after now fault o ≡ some f
    → IsConfiguration f
fault_after-fits now none fault f given old h = old h
fault_after-fits now (some l) fault f given old h =
    elim (Bool-cases (ltzb now l.action.expires_at)) [
      | inl goes_on ↦ old (ground arith)
      | inr over ↦ given_back-fits l f (given l refl) (ground arith)
    ]

expire_leases-actions :
    (now : ℤ) (ls : List (Text × Lease)) (c : TopologyController)
    → (expire_leases now ls c).2
      ≡ map
          (λ (entry : Text × Lease). record entry.1.action { outcome = released })
          (select (λ entry. not (ltzb now entry.1.action.expires_at)) ls)
unfolding expire_leases
expire_leases-actions now [] c = refl
expire_leases-actions now ((p, l) ∷ ls) c = elim (Bool-cases (ltzb now l.action.expires_at)) [
  | inl goes_on ↦ rw (goes_on, expire_leases) (expire_leases-actions now ls c)
  | inr over ↦
      rw (over, expire_leases)
        (ap (λ as_before. record l.action { outcome = released } ∷ as_before)
          (expire_leases-actions now ls (restore_port l c)))
]

-- From a state with the invariant of the leases, an expiry at `now` keeps it. It gives back
-- exactly the leases that do not last beyond `now`: their ports get the faults from before, any
-- other lease and fault stays. The actions reported are those of the leases given back, sorted by
-- port.
pub release_expired_lem :
    (e : PolicyEnforcer) (c : TopologyController) (now : ℤ)
    → IsEnforcing e c
    → IsEnforcing (release_expired e c now).0 (release_expired e c now).1
      × Expires now e.leases c (release_expired e c now).0.leases (release_expired e c now).1
      × ((release_expired e c now).2
          ≡ sort port_less (
              map
                (λ (entry : Text × Lease). record entry.1.action { outcome = released })
                (select (λ entry. not (ltzb now entry.1.action.expires_at)) e.leases)))
unfolding release_expired
release_expired_lem e c now v =
    let done = expire_leases-Expires now e.leases c v.distinct v.leased in
    (
      record {
        faults = λ p f h.
            fault_after-fits now (find text_discrete p e.leases) (port_fault c p) f
              (λ l found. (v.leased p l found).restorable) (v.faults p f) (sym (done.faults p) ∙ h);
        distinct = done.distinct;
        leased =
            AreLeases-after c _ e.leases _ done.links
              (λ p l h.
                let (old, same) =
                  live-same now (find text_discrete p e.leases) (port_fault c p) l
                    (sym (done.leases p) ∙ h) in
                (old, done.faults p ∙ same))
              v.leased;
      },
      done,
      ap (sort port_less) (expire_leases-actions now e.leases c),
    )

pub release_lem :
    (e : PolicyEnforcer) (p : Text) (c : TopologyController)
    → IsEnforcing e c
    → IsEnforcing (release e p c).0 (release e p c).1
      × ((release e p c).2 ≡ is_enforced e p)
      × ((q : Text)
          → find text_discrete q (release e p c).0.leases
            ≡ ite (text_discrete p q) none (find text_discrete q e.leases))
      × ((q : Text)
          → port_fault (release e p c).1 q
            ≡ ite (text_discrete p q) (before e c q) (port_fault c q))
unfolding release is_enforced before
release_lem e p c v = elim (Option-cases (find text_discrete p e.leases)) [
  | inl miss ↦ (
    rw (miss, release) v,
    rw (miss, release, is_enforced) refl,
    λ q. ground arith,
    λ q. ground arith,
  )
  | inr (l, h) ↦
      let (reads, keeps) = restore_port_lem c p l (v.leased p l h) in
      let erased : (q : Text)
          → find text_discrete q (erase text_discrete p e.leases)
            ≡ ite (text_discrete p q) none (find text_discrete q e.leases) =
        λ q. find-erase text_discrete q p e.leases in
      (
        rw (h, release)
            (record {
              faults = λ q g k. elim (text_discrete p q) [
                | yes same ↦
                    given_back-fits l g (v.leased p l h).restorable
                      (sym (reads q ∙ if_pos (text_discrete p q) same _ _) ∙ k)
                | no other ↦ v.faults q g (sym (reads q ∙ if_neg (text_discrete p q) other _ _) ∙ k)
              ];
              distinct = erase-Distinct text_discrete p e.leases v.distinct;
              leased =
                  AreLeases-after c _ e.leases _ keeps
                    (λ q m k.
                      let (other, old) =
                        ite-none_split (text_discrete p q) m _ (sym (erased q) ∙ k) in
                      (old, reads q ∙ if_neg (text_discrete p q) other _ _))
                    v.leased;
            }),
        rw (h, release, is_enforced) refl,
        λ q. ground (arith, erased q),
        λ q. ground (arith, reads q),
      )
]

before-free :
    (e : PolicyEnforcer) (c : TopologyController) (p : Text)
    → find text_discrete p e.leases ≡ none
    → before e c p ≡ port_fault c p
unfolding before
before-free e c p free = ground arith

-- From a state with the invariant of the leases, releasing a port that had no lease before
-- decisions were applied brings back the fault that it had then, however often its lease was
-- renewed or made stronger.
pub release-apply :
    (e : PolicyEnforcer) (c : TopologyController) (now : ℤ) (decisions : List PolicyDecision)
    (p : Text)
    → IsEnforcing e c
    → find text_discrete p e.leases ≡ none
    → port_fault (release (apply e c now decisions).0 p (apply e c now decisions).1).1 p
      ≡ port_fault c p
release-apply e c now decisions p v free =
    let applied = apply-Applies decisions e c now v in
    let (_, _, _, faults) =
      release_lem (apply e c now decisions).0 p (apply e c now decisions).1 applied.enforcing in
    faults p ∙ if_pos (text_discrete p p) refl _ _ ∙ applied.before p ∙ before-free e c p free
