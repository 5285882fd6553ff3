-- ===== src/PolicyEnforcer.antt =====
-- src/policy_enforcer.cpp and include/wirelab/policy_enforcer.hpp: decisions become leased faults on
-- ports. A method takes the topology controller that it changes, and returns it.
pub mod Invariant
pub mod Enforcing
pub mod Releasing
use packet_switch.Prelude.{
  ◌≡◌, List, [], Bool, ℕ, Option, some, is_some, true, value_or, if◌then◌else◌, ◌∷◌, ◌==◌, false,
  leb, ◌&&◌, unexpected, map, ◌/◌, ok, ◌*◌, ◌%◌, ◌^◌, none,
}
use packet_switch.FaultEngine.{FaultConfiguration, no_fault}
use packet_switch.Prelude.Int.{ℤ, pos, ltzb, ◌+ℤ◌}
use packet_switch.Prelude.Texts.{Text, text_lt, text_discrete}
use packet_switch.TopologyController.{
  TopologyController, port_id_at, set_port_fault, port_fault, clear_port_fault,
}
use packet_switch.PolicyEngine.{PolicyAction, PolicyDecision}
use packet_switch.Prelude.Sorting.{sort}
use packet_switch.Prelude.Maps.{find, assign, erase}
use packet_switch.Anomaly.{AnomalyType}

pub data EnforcementKind : Type 0 where
  nothing rate_limit blackhole isolate : EnforcementKind

pub data EnforcementOutcome : Type 0 where
  applied extended released skipped unknown_port rejected : EnforcementOutcome

pub record EnforcementAction : Type 0 where
  pub port_id : Text
  pub rule_name : Text
  pub anomaly_type : AnomalyType
  pub action : PolicyAction
  pub kind : EnforcementKind
  pub outcome : EnforcementOutcome
  pub rate_limit_bits_per_second : ℕ
  pub observed_packets : ℕ
  pub threshold : ℕ
  pub expires_at : ℤ

pub record PolicyEnforcerConfig : Type 0 where
  pub rate_limit_lease : ℤ
  pub drop_lease : ℤ
  pub quarantine_lease : ℤ
  pub assumed_frame_bytes : ℕ

pub record Lease : Type 0 where
  pub action : EnforcementAction
  pub restore : FaultConfiguration
  pub had_restore : Bool

pub record PolicyEnforcer : Type 0 where
  pub config : PolicyEnforcerConfig
  pub leases : List (Text × Lease)

abbrev pub kind_for : PolicyAction → EnforcementKind
kind_for PolicyAction.drop = blackhole
kind_for PolicyAction.quarantine = isolate
kind_for PolicyAction.rate_limit = rate_limit
kind_for PolicyAction.allow = nothing
kind_for PolicyAction.mirror = nothing
kind_for PolicyAction.alert_only = nothing

abbrev pub severity : EnforcementKind → ℕ
severity nothing = 0
severity rate_limit = 1
severity blackhole = 2
severity isolate = 3

abbrev pub overlay : FaultConfiguration → EnforcementKind → ℕ → FaultConfiguration
overlay base rate_limit bits = record base { bandwidth_bits_per_second = bits }
overlay base blackhole bits = record base { blackhole = true }
overlay base isolate bits = record base { isolated = true }
overlay base nothing bits = base

unfoldable pub rate_limit_bits : PolicyEnforcerConfig → PolicyDecision → ℕ
rate_limit_bits config decision =
    let mean =
      if decision.anomaly.observed_packets == 0
      then config.assumed_frame_bytes
      else decision.anomaly.observed_bytes / decision.anomaly.observed_packets in
    let frame_bytes = if mean == 0 then config.assumed_frame_bytes else mean in
    if decision.rate_limit_packets_per_second == 0
    then 0
    else decision.rate_limit_packets_per_second * frame_bytes * 8 % 2 ^ 64

abbrev pub lease_for : PolicyEnforcerConfig → EnforcementKind → ℤ
lease_for config rate_limit = config.rate_limit_lease
lease_for config blackhole = config.drop_lease
lease_for config isolate = config.quarantine_lease
lease_for config nothing = pos 0

abbrev pub is_rate_limit : EnforcementKind → Bool
is_rate_limit rate_limit = true
is_rate_limit _ = false

abbrev pub is_nothing : EnforcementKind → Bool
is_nothing nothing = true
is_nothing _ = false

-- What a method that enforces leaves behind.
pub record Enforced : Type 0 where
  pub enforcer : PolicyEnforcer
  pub controller : TopologyController
  pub action : EnforcementAction

-- A new lease remembers the fault that the port had; a live one goes on remembering its own.
unfoldable pub base_lease : Option Lease → TopologyController → Text → EnforcementAction → Lease
base_lease existing c port result = elim existing [
  | some lease ↦ lease
  | none ↦ record {
    action = result;
    restore = value_or (port_fault c port) no_fault;
    had_restore = is_some (port_fault c port);
  }
]

-- A weaker action never downgrades a live lease.
abbrev pub supersedes : Option Lease → EnforcementKind → Bool
supersedes none kind = true
supersedes (some lease) kind = leb (severity lease.action.kind) (severity kind)

abbrev pub effective_kind : Option Lease → EnforcementKind → EnforcementKind
effective_kind none kind = kind
effective_kind (some lease) kind = if supersedes (some lease) kind then kind else lease.action.kind

abbrev pub leased_bits : Option Lease → ℕ
leased_bits none = 0
leased_bits (some lease) = lease.action.rate_limit_bits_per_second

unfoldable pub effective_bits : Option Lease → EnforcementKind → ℕ → ℕ
effective_bits existing kind bits =
    if supersedes existing kind && is_rate_limit kind then bits else leased_bits existing

abbrev pub expiry : Option Lease → ℤ → ℤ
expiry none time = time
expiry (some lease) time =
    if ltzb time lease.action.expires_at then lease.action.expires_at else time

abbrev pub outcome_of : Option Lease → EnforcementOutcome
outcome_of none = applied
outcome_of (some _) = extended

-- The lease that the end of the loop's body stores.
abbrev pub new_lease : PolicyEnforcer → TopologyController → ℤ → Text → EnforcementAction → Lease
new_lease e c now port result =
    let existing = find text_discrete port e.leases in
    let kind = effective_kind existing result.kind in
    let base = base_lease existing c port result in
    record base {
      action = record result {
        kind = kind;
        rate_limit_bits_per_second =
            effective_bits existing result.kind result.rate_limit_bits_per_second;
        expires_at = expiry existing (now +ℤ lease_for e.config kind);
        outcome = outcome_of existing;
      };
    }

-- The configuration that the lease puts on the port.
abbrev pub enforced_fault : Lease → FaultConfiguration
enforced_fault lease =
    overlay lease.restore lease.action.kind lease.action.rate_limit_bits_per_second

-- The body of the loop of `apply` from the search for a lease on.
unfoldable pub enforce :
    PolicyEnforcer → TopologyController → ℤ → Text → EnforcementAction → Enforced
enforce e c now port result =
    let lease = new_lease e c now port result in
    let set = set_port_fault c port (enforced_fault lease) in
    elim set.1 [
      | unexpected _ ↦ record {
        enforcer = e;
        controller = set.0;
        action = record result { outcome = rejected };
      }
      | ok _ ↦ record {
        enforcer = record e { leases = assign text_discrete port lease e.leases };
        controller = set.0;
        action = lease.action;
      }
    ]

-- The fields of a result that do not depend on what is done.
abbrev pub describe : PolicyDecision → Option Text → EnforcementAction
describe decision port = record {
  port_id = value_or port [];
  rule_name = decision.rule_name;
  anomaly_type = decision.anomaly.type;
  action = decision.action;
  kind = kind_for decision.action;
  outcome = skipped;
  rate_limit_bits_per_second = 0;
  observed_packets = decision.anomaly.observed_packets;
  threshold = decision.anomaly.threshold;
  expires_at = pos 0;
}

-- The body of the loop of `apply`.
unfoldable pub apply_one : PolicyEnforcer → TopologyController → ℤ → PolicyDecision → Enforced
apply_one e c now decision =
    let found = port_id_at c decision.anomaly.ingress_port in
    let result = describe decision found in
    let bits = if is_rate_limit result.kind then rate_limit_bits e.config decision else 0 in
    let rated = record result { rate_limit_bits_per_second = bits } in
    if is_nothing result.kind
    then record { enforcer = e; controller = c; action = record result { outcome = skipped } }
    else elim found [
      | none ↦ record {
        enforcer = e;
        controller = c;
        action = record result { outcome = unknown_port };
      }
      | some port ↦
          if is_rate_limit result.kind && bits == 0
          then record { enforcer = e; controller = c; action = record rated { outcome = rejected } }
          else enforce e c now port rated
    ]

unfoldable pub apply :
    PolicyEnforcer
    → TopologyController
    → ℤ
    → List PolicyDecision
    → PolicyEnforcer × TopologyController × List EnforcementAction
apply e c now [] = (e, c, [])
apply e c now (decision ∷ decisions) =
    let out = apply_one e c now decision in
    let rest = apply out.enforcer out.controller now decisions in
    (rest.0, rest.1, out.action ∷ rest.2)

unfoldable pub restore_port : Lease → TopologyController → TopologyController
restore_port lease c =
    if lease.had_restore
    then (set_port_fault c lease.action.port_id lease.restore).0
    else (clear_port_fault c lease.action.port_id).0

-- The loop of `release_expired`: the leases that stay, the controller, and those released.
unfoldable pub expire_leases :
    ℤ
    → List (Text × Lease)
    → TopologyController
    → List (Text × Lease) × TopologyController × List EnforcementAction
expire_leases now [] c = ([], c, [])
expire_leases now ((port, lease) ∷ leases) c = elim (ltzb now lease.action.expires_at) [
  | true ↦ let rest = expire_leases now leases c in ((port, lease) ∷ rest.0, rest.1, rest.2)
  | false ↦
      let rest = expire_leases now leases (restore_port lease c) in
      (rest.0, rest.1, record lease.action { outcome = released } ∷ rest.2)
]

abbrev pub port_less : EnforcementAction → EnforcementAction → Bool
port_less left right = text_lt left.port_id right.port_id

unfoldable pub release_expired :
    PolicyEnforcer
    → TopologyController
    → ℤ
    → PolicyEnforcer × TopologyController × List EnforcementAction
release_expired e c now =
    let out = expire_leases now e.leases c in
    (record e { leases = out.0 }, out.1, sort port_less out.2)

unfoldable pub release :
    PolicyEnforcer → Text → TopologyController → PolicyEnforcer × TopologyController × Bool
release e port c = elim (find text_discrete port e.leases) [
  | none ↦ (e, c, false)
  | some lease ↦
      (record e { leases = erase text_discrete port e.leases }, restore_port lease c, true)
]

abbrev pub port_rule_less : EnforcementAction → EnforcementAction → Bool
port_rule_less left right =
    if text_lt left.port_id right.port_id
    then true
    else if text_lt right.port_id left.port_id
    then false
    else text_lt left.rule_name right.rule_name

unfoldable pub active : PolicyEnforcer → List EnforcementAction
active e = sort port_rule_less (map (λ (entry : Text × Lease). entry.1.action) e.leases)

unfoldable pub is_enforced : PolicyEnforcer → Text → Bool
is_enforced e port = is_some (find text_discrete port e.leases)

unfoldable pub forget : PolicyEnforcer → PolicyEnforcer
forget e = record e { leases = [] }
