-- ===== src/PolicyEngine/Rules.antt =====
-- Rule sets, and the operations of src/policy_engine.cpp on them.
use packet_switch.Prelude.{
  ◌≡◌, List, ◌∷◌, All, map, Bool, any_of, ok, ◌≢◌, [], Expected-cases, arith, ◌↔◌, ◌++◌, ◌⊎◌, true,
  inr, inl, sym, ◌<◌, Bool-cases, false≢true, ◌∙◌, Option-cases, All-append, refl, find_if,
}
use packet_switch.Prelude.Texts.{Text}
use packet_switch.PolicyEngine.{
  validate, add_rule, set_rules, set_enabled, check_rules, erase_rule, PolicyRule, enable_rule,
  remove_rule, PolicyEngine, has_name, is_rate_limit, evaluate, reset,
}
use packet_switch.Prelude.Unique.{Unique, is_empty_iff, Apart, Apart-nil, member_iff, Apart-cons}
use packet_switch.Prelude.Sorting.{IsIn}
use packet_switch.Anomaly.{AnomalyEvent}

abbrev pub IsRule : PolicyRule → Type 0
IsRule r = (r.name ≢ []) × (is_rate_limit r.action ≡ true → 0 < r.rate_limit_packets_per_second)

abbrev names : List PolicyRule → List Text
names = map (λ r. r.name)

abbrev pub AreRules : List PolicyRule → Type 0
AreRules rules = All IsRule rules × Unique (names rules)

validate_iff : (r : PolicyRule) → (validate r ≡ ok tt) ↔ IsRule r
unfolding validate
validate_iff r = ground (arith, is_empty_iff r.name)

check_rules_iff :
    (seen : List Text) (rules : List PolicyRule)
    → (check_rules seen rules ≡ ok tt) ↔ (AreRules rules × Apart (names rules) seen)
unfolding check_rules
check_rules_iff seen [] = ground arith
check_rules_iff seen (r ∷ rules) = ground (
  arith,
  validate_iff r,
  member_iff r.name seen,
  check_rules_iff (r.name ∷ seen) rules,
  Apart-cons r.name (names rules) seen,
)

-- A rule set is taken over exactly when every rule is valid and no two have one name; it replaces
-- the rules and forgets the counts. A refused one changes nothing.
pub set_rules_lem :
    (e : PolicyEngine) (rules : List PolicyRule)
    → (AreRules rules
        × ((set_rules e rules).1 ≡ ok tt)
        × ((set_rules e rules).0 ≡ record { rules = rules; hit_counts = [] }))
      ⊎ ((¬ AreRules rules) × ((set_rules e rules).1 ≢ ok tt) × ((set_rules e rules).0 ≡ e))
unfolding set_rules
set_rules_lem e rules =
    let (sound, complete) = check_rules_iff [] rules in
    elim (Expected-cases (check_rules [] rules)) [
      | inl (_, h) ↦ inl ((sound h).0, ground arith, ground arith)
      | inr (x, h) ↦
          inr (λ v. cc (complete (v, Apart-nil (names rules))), ground arith, ground arith)
    ]

named_iff :
    (name : Text) (rules : List PolicyRule)
    → (any_of (has_name name) rules ≡ true) ↔ IsIn name (names rules)
named_iff name [] = (λ h. cc, λ h. absurd h)
named_iff name (r ∷ rules) = ground (arith, named_iff name rules)

IsIn-names-append :
    (x : Text) (rules : List PolicyRule) (r : PolicyRule)
    → IsIn x (names (rules ++ r ∷ []))
    → IsIn x (names rules) ⊎ (x ≡ r.name)
IsIn-names-append x [] r h = ground arith
IsIn-names-append x (y ∷ rules) r h = ground (arith, IsIn-names-append x rules r)

Unique-append :
    (rules : List PolicyRule) (r : PolicyRule)
    → Unique (names rules)
    → ¬ IsIn r.name (names rules)
    → Unique (names (rules ++ r ∷ []))
Unique-append [] r u h = ((λ e. e), tt)
Unique-append (x ∷ rules) r u h = (
  λ i. elim (IsIn-names-append x.name rules r i) [
    | inl old ↦ u.0 old
    | inr new ↦ h (inl (sym new))
  ],
  Unique-append rules r u.1 (λ i. h (inr i)),
)

IsIn-erase_rule :
    (x name : Text) (rules : List PolicyRule)
    → IsIn x (names (erase_rule name rules))
    → IsIn x (names rules)
unfolding erase_rule
IsIn-erase_rule x name [] h = h
IsIn-erase_rule x name (r ∷ rules) h = ground (arith, IsIn-erase_rule x name rules)

erase_rule-AreRules :
    (name : Text) (rules : List PolicyRule) → AreRules rules → AreRules (erase_rule name rules)
unfolding erase_rule
erase_rule-AreRules name [] v = v
erase_rule-AreRules name (r ∷ rules) v =
    ground (arith, erase_rule-AreRules name rules (v.0.1, v.1.1), IsIn-erase_rule r.name name rules)

names-enable_rule :
    (name : Text) (enabled : Bool) (rules : List PolicyRule)
    → names (enable_rule name enabled rules) ≡ names rules
unfolding enable_rule
names-enable_rule name enabled [] = refl
names-enable_rule name enabled (r ∷ rules) = ground (arith, names-enable_rule name enabled rules)

All-enable_rule :
    (name : Text) (enabled : Bool) (rules : List PolicyRule)
    → All IsRule rules
    → All IsRule (enable_rule name enabled rules)
unfolding enable_rule
All-enable_rule name enabled [] v = tt
All-enable_rule name enabled (r ∷ rules) v = ground (arith, All-enable_rule name enabled rules v.1)

add_rule-AreRules :
    (e : PolicyEngine) (r : PolicyRule) → AreRules e.rules → AreRules (add_rule e r).0.rules
unfolding add_rule
add_rule-AreRules e r v = elim (Expected-cases (validate r)) [
  | inr (x, h) ↦ ground arith
  | inl (_, h) ↦ elim (Bool-cases (any_of (has_name r.name) e.rules)) [
    | inl taken ↦ ground arith
    | inr free ↦
        let fresh : ¬ IsIn r.name (names e.rules) =
          λ i. absurd (false≢true (sym free ∙ (named_iff r.name e.rules).1 i)) in
        rw (h, free, add_rule)
          (
            All-append IsRule e.rules (r ∷ []) (v.0, ((validate_iff r).0 h, tt)),
            Unique-append e.rules r v.1 fresh,
          )
  ]
]

set_enabled-AreRules :
    (e : PolicyEngine) (name : Text) (on : Bool)
    → AreRules e.rules
    → AreRules (set_enabled e name on).0.rules
unfolding set_enabled
set_enabled-AreRules e name on v = elim (Option-cases (find_if (has_name name) e.rules)) [
  | inl h ↦ rw (h, set_enabled) v
  | inr (r, h) ↦
      rw (h, set_enabled)
        (All-enable_rule name on e.rules v.0, rw (names-enable_rule name on e.rules) v.1)
]

remove_rule-AreRules :
    (e : PolicyEngine) (name : Text) → AreRules e.rules → AreRules (remove_rule e name).0.rules
unfolding remove_rule
remove_rule-AreRules e name v = ground (arith, erase_rule-AreRules name e.rules)

-- A call of one of the engine's methods.
pub data Call : Type 0 where
  sets : List PolicyRule → Call
  adds : PolicyRule → Call
  removes : Text → Call
  enables : Text → Bool → Call
  evaluates : List AnomalyEvent → Call
  resets : Call

pub step : PolicyEngine → Call → PolicyEngine
step e (sets rules) = (set_rules e rules).0
step e (adds rule) = (add_rule e rule).0
step e (removes name) = (remove_rule e name).0
step e (enables name on) = (set_enabled e name on).0
step e (evaluates anomalies) = (evaluate e anomalies).0
step e resets = reset e

pub run : PolicyEngine → List Call → PolicyEngine
unfolding step
run e [] = e
run e (call ∷ calls) = run (step e call) calls

step-AreRules : (e : PolicyEngine) (call : Call) → AreRules e.rules → AreRules (step e call).rules
unfolding step evaluate reset
step-AreRules e (sets rules) v = elim (set_rules_lem e rules) [
  | inl (w, _, same) ↦ rw same w
  | inr (_, _, same) ↦ rw same v
]
step-AreRules e (adds rule) v = add_rule-AreRules e rule v
step-AreRules e (removes name) v = remove_rule-AreRules e name v
step-AreRules e (enables name on) v = set_enabled-AreRules e name on v
step-AreRules e (evaluates anomalies) v = v
step-AreRules e resets v = v

-- After any history of calls on an engine whose rules are valid and uniquely named, they still are.
pub run-AreRules :
    (e : PolicyEngine) (calls : List Call) → AreRules e.rules → AreRules (run e calls).rules
unfolding run
run-AreRules e [] v = v
run-AreRules e (call ∷ calls) v = run-AreRules (step e call) calls (step-AreRules e call v)
