-- ===== src/PolicyEngine/Hits.antt =====
-- Evaluating anomalies: which decisions are taken, and how the hits are counted.
use packet_switch.Prelude.{
  ℕ, suc, ◌+◌, ◌%◌, ◌^◌, ◌<◌, ◌≡◌, refl, none, some, List, [], ◌∷◌, map, arith, Option-cases, inl,
  inr, if◌then◌else◌, find_if,
}
use packet_switch.Prelude.Maps.{assign, find-assign}
use packet_switch.Prelude.Texts.{Text, text_eq, text_discrete}
use packet_switch.Anomaly.{AnomalyEvent}
use packet_switch.PolicyEngine.{
  PolicyEngine, PolicyRule, PolicyDecision, PolicyAction, triggers, count_of, hit, decide_all,
  evaluate, hit_count,
}

-- The anomalies that some enabled rule of their type answers, each with the first such rule.
pub answered : List PolicyRule → List AnomalyEvent → List (PolicyRule × AnomalyEvent)
answered rules [] = []
answered rules (a ∷ events) = elim (find_if (triggers a) rules) [
  | none ↦ answered rules events
  | some rule ↦ (rule, a) ∷ answered rules events
]

-- How many of them a rule of the name answers.
pub times : Text → List (PolicyRule × AnomalyEvent) → ℕ
times name [] = 0
times name ((rule, a) ∷ rest) =
    if text_eq rule.name name then suc (times name rest) else times name rest

abbrev pub answer : PolicyDecision → Text × PolicyAction × ℕ × AnomalyEvent
answer d = (d.rule_name, d.action, d.rate_limit_packets_per_second, d.anomaly)

abbrev pub expected_answer : PolicyRule × AnomalyEvent → Text × PolicyAction × ℕ × AnomalyEvent
expected_answer (rule, a) = (rule.name, rule.action, rule.rate_limit_packets_per_second, a)

decide_all-answers :
    (rules : List PolicyRule) (counts : List (Text × ℕ)) (events : List AnomalyEvent)
    → map answer (decide_all rules counts events).1 ≡ map expected_answer (answered rules events)
unfolding decide_all answered
decide_all-answers rules counts [] = refl
decide_all-answers rules counts (a ∷ events) = elim (Option-cases (find_if (triggers a) rules)) [
  | inl e ↦ ground (arith, decide_all-answers rules counts events)
  | inr (rule, e) ↦ ground (
    arith,
    decide_all-answers rules (assign text_discrete rule.name (hit counts rule.name) counts) events,
  )
]

decide_all-counts :
    (rules : List PolicyRule) (counts : List (Text × ℕ)) (events : List AnomalyEvent) (name : Text)
    → count_of counts name < 2 ^ 64
    → count_of (decide_all rules counts events).0 name
      ≡ (count_of counts name + times name (answered rules events)) % 2 ^ 64
unfolding decide_all answered times count_of
decide_all-counts rules counts [] name h = omega arith
decide_all-counts rules counts (a ∷ events) name h =
    elim (Option-cases (find_if (triggers a) rules)) [
      | inl e ↦ ground (arith, decide_all-counts rules counts events name h)
      | inr (rule, e) ↦ ground (
        arith,
        find-assign text_discrete name rule.name (hit counts rule.name) counts,
        decide_all-counts rules (assign text_discrete rule.name (hit counts rule.name) counts)
            events name,
      )
    ]

-- One decision for each anomaly that an enabled rule answers, by the first such rule and in the
-- order of the anomalies; a count below 2 ^ 64 grows by the answers of its rule, modulo 2 ^ 64;
-- the rules stay.
pub evaluate-answered :
    (e : PolicyEngine) (events : List AnomalyEvent)
    → (map answer (evaluate e events).1 ≡ map expected_answer (answered e.rules events))
      × ((name : Text)
          → hit_count e name < 2 ^ 64
          → hit_count (evaluate e events).0 name
            ≡ (hit_count e name + times name (answered e.rules events)) % 2 ^ 64)
      × ((evaluate e events).0.rules ≡ e.rules)
unfolding evaluate hit_count
evaluate-answered e events = (
  decide_all-answers e.rules e.hit_counts events,
  decide_all-counts e.rules e.hit_counts events,
  refl,
)
