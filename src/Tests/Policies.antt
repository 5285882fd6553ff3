-- ===== src/Tests/Policies.antt =====
-- Rules, decisions and leases at concrete inputs.
use packet_switch.Prelude.{◌≡◌, ◌∷◌, [], map, ◌<◌, refl, arith, ◌^◌, ◌+◌, select, not, ◌%◌}
use packet_switch.PolicyEngine.Hits.{answer, expected_answer, answered, times, evaluate-answered}
use packet_switch.PolicyEngine.{evaluate, hit_count}
use packet_switch.Prelude.Maps.{find}
use packet_switch.PolicyEnforcer.{apply, release, release_expired, port_less, Lease, released}
use packet_switch.Tests.{
  policies, enforcer, lab, flood, decisions, limit_rule, leasing, star_topology,
}
use packet_switch.PolicyEngine.Rules.{removes, adds, evaluates, AreRules, run, run-AreRules}
use packet_switch.Prelude.Texts.{ascii, Text}
use packet_switch.Prelude.Int.{pos, ltzb}
use packet_switch.TopologyController.{port_fault}
use packet_switch.PolicyEnforcer.Enforcing.{Applies, apply-Applies}
use packet_switch.PolicyEnforcer.Invariant.{IsEnforcing, load-IsEnforcing}
use packet_switch.PolicyEnforcer.Releasing.{release-apply, Expires, release_expired_lem}
use packet_switch.Prelude.Sorting.{sort}

run-AreRules_example :
    let e = policies in
    let calls = removes (ascii "limit") ∷ adds limit_rule ∷ evaluates (flood ∷ []) ∷ [] in
    AreRules (run e calls).rules
run-AreRules_example =
    run-AreRules policies (removes (ascii "limit") ∷ adds limit_rule ∷ evaluates (flood ∷ []) ∷ [])
      (ground arith)

evaluate-answered_example :
    let e = policies in
    let events = flood ∷ flood ∷ [] in
    (map answer (evaluate e events).1 ≡ map expected_answer (answered e.rules events))
    × ((name : Text)
        → hit_count e name < 2 ^ 64
        → hit_count (evaluate e events).0 name
          ≡ (hit_count e name + times name (answered e.rules events)) % 2 ^ 64)
    × ((evaluate e events).0.rules ≡ e.rules)
evaluate-answered_example = evaluate-answered policies (flood ∷ flood ∷ [])

apply-Applies_example :
    let e = enforcer in
    let c = lab in
    let now = pos 100 in Applies e c (apply e c now decisions).0 (apply e c now decisions).1
apply-Applies_example =
    apply-Applies decisions enforcer lab (pos 100) (load-IsEnforcing leasing 7 star_topology)

release_expired_lem_example :
    let e = (apply enforcer lab (pos 100) decisions).0 in
    let c = (apply enforcer lab (pos 100) decisions).1 in
    let now = pos 115 in
    IsEnforcing (release_expired e c now).0 (release_expired e c now).1
    × Expires now e.leases c (release_expired e c now).0.leases (release_expired e c now).1
    × ((release_expired e c now).2
        ≡ sort port_less (
            map
              (λ (entry : Text × Lease). record entry.1.action { outcome = released })
              (select (λ entry. not (ltzb now entry.1.action.expires_at)) e.leases)))
release_expired_lem_example =
    release_expired_lem _ _ (pos 115)
      (apply-Applies decisions enforcer lab (pos 100)
        (load-IsEnforcing leasing 7 star_topology)).enforcing

release-apply_example :
    let e = enforcer in
    let c = lab in
    let now = pos 100 in
    let p = ascii "a" in
    port_fault (release (apply e c now decisions).0 p (apply e c now decisions).1).1 p
    ≡ port_fault c p
unfolding find
release-apply_example =
    release-apply enforcer lab (pos 100) decisions (ascii "a")
      (load-IsEnforcing leasing 7 star_topology) refl
