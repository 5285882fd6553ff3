-- ===== src/TopologyController.antt =====
-- src/topology_controller.cpp and include/wirelab/topology_controller.hpp: a loaded topology, the
-- faults on its ports and links, and what they decide of a frame.
pub mod Targets
pub mod PortFaults
pub mod Evaluation
pub mod Refusals
use packet_switch.Prelude.{
  ℕ, suc, ◌+◌, ◌-◌, ◌*◌, ◌^◌, Bool, true, false, not, ◌&&◌, ◌||◌, Option, none, some, List, [], ◌∷◌,
  ◌++◌, map, ◌==◌, ltb, if◌then◌else◌, Expected, ok, unexpected, is_some, length, get_elem?, select,
  find_if, any_of, zero,
}
use packet_switch.Prelude.Int.{ℤ, pos, negsuc, ◌+ℤ◌, ◌-ℤ◌, ltzb, int64_max}
use packet_switch.Prelude.Texts.{Text, text_eq, text_lt, ascii}
use packet_switch.Prelude.Sorting.{sort}
use packet_switch.Prelude.Decimal.{decimal}
use packet_switch.Topology.{Topology, TopologyNode, TopologyLink, is_host}
use packet_switch.FaultEngine
use packet_switch.FaultEngine.{
  FaultEngine, FaultConfiguration, FaultDecision, ActiveFault, set_fault, clear_fault, fault_for,
}

pub data TopologyControllerError : Type 0 where
  no_topology unknown_port unknown_link invalid_fault_configuration : TopologyControllerError

pub record TopologyFault : Type 0 where
  pub first_endpoint : Text
  pub second_endpoint : Text
  pub configuration : FaultConfiguration

pub record TopologyController : Type 0 where
  pub topology : Option Topology
  pub fault_seed : ℕ
  pub fault_engine : FaultEngine
  pub topology_revision : ℕ

unfoldable pub init : ℕ → TopologyController
init fault_seed = record {
  topology = none;
  fault_seed = fault_seed;
  fault_engine = FaultEngine.init fault_seed;
  topology_revision = 0;
}

-- The revision stops at the largest `uint64_t`.
unfoldable pub load : TopologyController → Topology → TopologyController
load c topology = record c {
  topology = some topology;
  fault_engine = FaultEngine.init c.fault_seed;
  topology_revision =
      if c.topology_revision == 2 ^ 64 - 1 then c.topology_revision else c.topology_revision + 1;
}

abbrev pub nodes : Topology → List TopologyNode
nodes t = t.configuration.nodes

abbrev pub links : Topology → List TopologyLink
links t = t.configuration.links

unfoldable pub port_ids : TopologyController → List Text
port_ids c = elim c.topology [
  | none ↦ []
  | some t ↦ map (λ (n : TopologyNode). n.id) (select is_host (nodes t))
]

unfoldable pub port_id_at : TopologyController → ℕ → Option Text
port_id_at c ingress_port = get_elem? (port_ids c) ingress_port

unfoldable pub is_port : Topology → Text → Bool
is_port t port_id = any_of (λ n. text_eq n.id port_id && is_host n) (nodes t)

abbrev pub joins : Text → Text → TopologyLink → Bool
joins first second l =
    (text_eq l.from first && text_eq l.to second) || (text_eq l.from second && text_eq l.to first)

unfoldable pub is_link : Topology → Text → Text → Bool
is_link t first second = any_of (joins first second) (links t)

-- Called for a link that is there.
unfoldable pub link_latency : Topology → Text → Text → ℤ
link_latency t first second = elim (find_if (joins first second) (links t)) [
  | none ↦ pos 0
  | some l ↦ l.latency
]

unfoldable pub port_fault_target : Text → Text
port_fault_target port_id = ascii "port:" ++ (decimal (length port_id) ++ (b':' ∷ port_id))

abbrev pub link_text : Text → Text → Text
link_text first second =
    ascii "link:"
    ++ (decimal (length first)
        ++ (b':' ∷ (first ++ (b':' ∷ (decimal (length second) ++ (b':' ∷ second))))))

unfoldable pub link_fault_target : Text → Text → Text
link_fault_target first second =
    if text_lt second first then link_text second first else link_text first second

unfoldable pub port_fault : TopologyController → Text → Option FaultConfiguration
port_fault c port_id = elim c.topology [
  | none ↦ none
  | some t ↦
      if is_port t port_id then fault_for c.fault_engine (port_fault_target port_id) else none
]

-- `set_port_fault` and `set_link_fault` once the topology and the target are known.
abbrev pub set_target :
    TopologyController
    → Text
    → FaultConfiguration
    → TopologyController × Expected (Unit {0}) TopologyControllerError
set_target c target configuration = elim (set_fault c.fault_engine target configuration).1 [
  | ok _ ↦ (record c { fault_engine = (set_fault c.fault_engine target configuration).0 }, ok tt)
  | unexpected _ ↦ (
    record c { fault_engine = (set_fault c.fault_engine target configuration).0 },
    unexpected invalid_fault_configuration,
  )
]

unfoldable pub set_port_fault :
    TopologyController
    → Text
    → FaultConfiguration
    → TopologyController × Expected (Unit {0}) TopologyControllerError
set_port_fault c port_id configuration = elim c.topology [
  | none ↦ (c, unexpected no_topology)
  | some t ↦
      if not (is_port t port_id)
      then (c, unexpected unknown_port)
      else set_target c (port_fault_target port_id) configuration
]

unfoldable pub set_link_fault :
    TopologyController
    → Text
    → Text
    → FaultConfiguration
    → TopologyController × Expected (Unit {0}) TopologyControllerError
set_link_fault c first second configuration = elim c.topology [
  | none ↦ (c, unexpected no_topology)
  | some t ↦
      if not (is_link t first second)
      then (c, unexpected unknown_link)
      else set_target c (link_fault_target first second) configuration
]

abbrev pub clear_target : TopologyController → Text → TopologyController × Bool
clear_target c target = (
  record c { fault_engine = (clear_fault c.fault_engine target).0 },
  (clear_fault c.fault_engine target).1,
)

unfoldable pub clear_port_fault : TopologyController → Text → TopologyController × Bool
clear_port_fault c port_id = elim c.topology [
  | none ↦ (c, false)
  | some t ↦ if is_port t port_id then clear_target c (port_fault_target port_id) else (c, false)
]

unfoldable pub clear_link_fault : TopologyController → Text → Text → TopologyController × Bool
clear_link_fault c first second = elim c.topology [
  | none ↦ (c, false)
  | some t ↦
      if is_link t first second then clear_target c (link_fault_target first second) else (c, false)
]

abbrev pub at_target : Text → ActiveFault → Bool
at_target target fault = text_eq fault.target target

-- The two loops of `active_faults`: over the hosts, and over the links.
unfoldable pub host_faults : List ActiveFault → List TopologyNode → List TopologyFault
host_faults configured [] = []
host_faults configured (n ∷ ns) =
    let rest = host_faults configured ns in
    if is_host n
    then elim (find_if (at_target (port_fault_target n.id)) configured) [
      | none ↦ rest
      | some fault ↦
          record {
            first_endpoint = n.id;
            second_endpoint = [];
            configuration = fault.configuration;
          }
          ∷ rest
    ]
    else rest

unfoldable pub link_faults : List ActiveFault → List TopologyLink → List TopologyFault
link_faults configured [] = []
link_faults configured (l ∷ ls) =
    let rest = link_faults configured ls in
    elim (find_if (at_target (link_fault_target l.from l.to)) configured) [
      | none ↦ rest
      | some fault ↦
          record {
            first_endpoint = l.from;
            second_endpoint = l.to;
            configuration = fault.configuration;
          }
          ∷ rest
    ]

abbrev pub endpoints_less : TopologyFault → TopologyFault → Bool
endpoints_less left right =
    if text_lt left.first_endpoint right.first_endpoint
    then true
    else if text_lt right.first_endpoint left.first_endpoint
    then false
    else text_lt left.second_endpoint right.second_endpoint

unfoldable pub active_faults :
    TopologyController → Expected (List TopologyFault) TopologyControllerError
unfolding host_faults link_faults
active_faults c = elim c.topology [
  | none ↦ unexpected no_topology
  | some t ↦
      let configured = FaultEngine.active_faults c.fault_engine in
      ok
        (sort endpoints_less (host_faults configured (nodes t) ++ link_faults configured (links t)))
]

unfoldable pub evaluate_port :
    TopologyController
    → Text
    → ℕ
    → ℤ
    → TopologyController × Expected FaultDecision TopologyControllerError
evaluate_port c port_id frame_bytes arrival = elim c.topology [
  | none ↦ (c, unexpected no_topology)
  | some t ↦
      let out =
        FaultEngine.evaluate c.fault_engine (port_fault_target port_id) frame_bytes arrival in
      if not (is_port t port_id)
      then (c, unexpected unknown_port)
      else (record c { fault_engine = out.0 }, ok out.1)
]

-- Milliseconds in nanoseconds.
abbrev pub nanoseconds : ℤ → ℤ
nanoseconds (pos n) = pos (n * 1000000)
nanoseconds (negsuc n) = negsuc (n * 1000000 + 999999)

-- A delivery time, later by the latency of the link, and at most the last time there is.
abbrev pub delay : ℤ → ℤ → ℤ
delay latency time = if ltzb (int64_max -ℤ latency) time then int64_max else time +ℤ latency

-- The loop over the first `count` entries of `delivery_times`.
abbrev pub delay_first : ℕ → ℤ → List ℤ → List ℤ
delay_first zero latency times = times
delay_first (suc count) latency [] = []
delay_first (suc count) latency (time ∷ times) =
    delay latency time ∷ delay_first count latency times

abbrev pub delay_decision : ℤ → FaultDecision → FaultDecision
delay_decision latency d = record d {
  delivery_times = delay_first d.delivery_count latency d.delivery_times;
}

abbrev pub is_zero_duration : ℤ → Bool
is_zero_duration (pos n) = n == 0
is_zero_duration (negsuc n) = false

unfoldable pub evaluate_link :
    TopologyController
    → Text
    → Text
    → ℕ
    → ℤ
    → TopologyController × Expected FaultDecision TopologyControllerError
evaluate_link c first second frame_bytes arrival = elim c.topology [
  | none ↦ (c, unexpected no_topology)
  | some t ↦
      let target = link_fault_target first second in
      let out = FaultEngine.evaluate c.fault_engine target frame_bytes arrival in
      let latency = link_latency t first second in
      if not (is_link t first second)
      then (c, unexpected unknown_link)
      else if is_zero_duration latency
      then (record c { fault_engine = out.0 }, ok out.1)
      else (record c { fault_engine = out.0 }, ok (delay_decision (nanoseconds latency) out.1))
]
