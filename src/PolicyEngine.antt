-- ===== src/PolicyEngine.antt =====
-- src/policy_engine.cpp and include/wirelab/policy_engine.hpp: the rules that turn anomalies into
-- decisions, and how often each rule has been hit.
pub mod Rules
pub mod Hits
use packet_switch.Prelude.{
  ℕ, ◌+◌, ◌%◌, ◌^◌, Bool, true, false, ◌&&◌, Option, none, some, List, [], ◌∷◌, ◌++◌, ◌==◌,
  if◌then◌else◌, Expected, ok, unexpected, find_if, any_of, value_or,
}
use packet_switch.Prelude.Maps.{find, assign, erase}
use packet_switch.Prelude.Texts.{Text, text_eq, text_discrete, is_empty}
use packet_switch.Anomaly.{AnomalyType, AnomalyEvent, type_eq}

pub data PolicyAction : Type 0 where
  allow drop mirror rate_limit quarantine alert_only : PolicyAction

pub data PolicyConfigurationError : Type 0 where
  empty_name duplicate_name missing_rate_limit : PolicyConfigurationError

pub record PolicyRule : Type 0 where
  pub name : Text
  pub anomaly_type : AnomalyType
  pub action : PolicyAction
  pub enabled : Bool
  pub rate_limit_packets_per_second : ℕ

pub record PolicyDecision : Type 0 where
  pub rule_name : Text
  pub action : PolicyAction
  pub anomaly : AnomalyEvent
  pub hit_count : ℕ
  pub rate_limit_packets_per_second : ℕ

pub record PolicyEngine : Type 0 where
  pub rules : List PolicyRule
  pub hit_counts : List (Text × ℕ)

abbrev pub empty_engine : PolicyEngine
empty_engine = record { rules = []; hit_counts = [] }

abbrev pub is_rate_limit : PolicyAction → Bool
is_rate_limit rate_limit = true
is_rate_limit _ = false

unfoldable pub validate : PolicyRule → Expected (Unit {0}) PolicyConfigurationError
validate rule =
    if is_empty rule.name
    then unexpected empty_name
    else if is_rate_limit rule.action && rule.rate_limit_packets_per_second == 0
    then unexpected missing_rate_limit
    else ok tt

abbrev pub has_name : Text → PolicyRule → Bool
has_name name rule = text_eq rule.name name

-- The loop of `set_rules`: the names so far are `names`.
unfoldable pub check_rules :
    List Text → List PolicyRule → Expected (Unit {0}) PolicyConfigurationError
check_rules names [] = ok tt
check_rules names (rule ∷ rules) =
    let rest = check_rules (rule.name ∷ names) rules in
    elim (validate rule) [
      | unexpected e ↦ unexpected e
      | ok _ ↦ if any_of (text_eq rule.name) names then unexpected duplicate_name else rest
    ]

unfoldable pub set_rules :
    PolicyEngine → List PolicyRule → PolicyEngine × Expected (Unit {0}) PolicyConfigurationError
set_rules e rules = elim (check_rules [] rules) [
  | unexpected error ↦ (e, unexpected error)
  | ok _ ↦ (record { rules = rules; hit_counts = [] }, ok tt)
]

unfoldable pub add_rule :
    PolicyEngine → PolicyRule → PolicyEngine × Expected (Unit {0}) PolicyConfigurationError
add_rule e rule = elim (validate rule) [
  | unexpected error ↦ (e, unexpected error)
  | ok _ ↦
      if any_of (has_name rule.name) e.rules
      then (e, unexpected duplicate_name)
      else (record e { rules = e.rules ++ rule ∷ [] }, ok tt)
]

-- `rules_.erase` of the first rule with the name.
unfoldable pub erase_rule : Text → List PolicyRule → List PolicyRule
erase_rule name [] = []
erase_rule name (rule ∷ rules) = if has_name name rule then rules else rule ∷ erase_rule name rules

unfoldable pub remove_rule : PolicyEngine → Text → PolicyEngine × Bool
remove_rule e name = elim (find_if (has_name name) e.rules) [
  | none ↦ (e, false)
  | some rule ↦ (
    record {
      rules = erase_rule name e.rules;
      hit_counts = erase text_discrete rule.name e.hit_counts;
    },
    true,
  )
]

unfoldable pub enable_rule : Text → Bool → List PolicyRule → List PolicyRule
enable_rule name enabled [] = []
enable_rule name enabled (rule ∷ rules) =
    if has_name name rule
    then record rule { enabled = enabled } ∷ rules
    else rule ∷ enable_rule name enabled rules

unfoldable pub set_enabled : PolicyEngine → Text → Bool → PolicyEngine × Bool
set_enabled e name enabled = elim (find_if (has_name name) e.rules) [
  | none ↦ (e, false)
  | some _ ↦ (record e { rules = enable_rule name enabled e.rules }, true)
]

abbrev pub triggers : AnomalyEvent → PolicyRule → Bool
triggers anomaly rule = rule.enabled && type_eq rule.anomaly_type anomaly.type

unfoldable pub count_of : List (Text × ℕ) → Text → ℕ
count_of counts name = value_or (find text_discrete name counts) 0

-- `++hit_counts_[name]`.
abbrev pub hit : List (Text × ℕ) → Text → ℕ
hit counts name = (count_of counts name + 1) % 2 ^ 64

-- The loop of `evaluate`, over the counts: the counts after it, and the decisions.
unfoldable pub decide_all :
    List PolicyRule → List (Text × ℕ) → List AnomalyEvent → List (Text × ℕ) × List PolicyDecision
decide_all rules counts [] = (counts, [])
decide_all rules counts (anomaly ∷ anomalies) = elim (find_if (triggers anomaly) rules) [
  | none ↦ decide_all rules counts anomalies
  | some rule ↦
      let count = hit counts rule.name in
      let rest = decide_all rules (assign text_discrete rule.name count counts) anomalies in
      (
        rest.0,
        record {
          rule_name = rule.name;
          action = rule.action;
          anomaly = anomaly;
          hit_count = count;
          rate_limit_packets_per_second = rule.rate_limit_packets_per_second;
        }
            ∷ rest.1,
      )
]

unfoldable pub evaluate : PolicyEngine → List AnomalyEvent → PolicyEngine × List PolicyDecision
evaluate e anomalies = (
  record e { hit_counts = (decide_all e.rules e.hit_counts anomalies).0 },
  (decide_all e.rules e.hit_counts anomalies).1,
)

unfoldable pub hit_count : PolicyEngine → Text → ℕ
hit_count e name = count_of e.hit_counts name

unfoldable pub reset : PolicyEngine → PolicyEngine
reset e = record e { hit_counts = [] }
