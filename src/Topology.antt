-- ===== src/Topology.antt =====
-- src/topology.cpp and include/wirelab/topology.hpp: the check of a topology configuration.
pub mod Shape
pub mod Links
pub mod Create
use packet_switch.Prelude.{
  ℕ, suc, ◌+◌, Bool, true, false, not, ◌&&◌, ◌||◌, Option, none, some, List, [], ◌∷◌, ◌++◌, ◌==◌,
  ltb, if◌then◌else◌, Expected, ok, unexpected, length, get_elem?, any_of,
}
use packet_switch.Prelude.Int.{ℤ, pos, ltzb}
use packet_switch.Prelude.Texts.{Text, text_eq, text_lt, is_empty, text_discrete}

pub data TopologyNodeType : Type 0 where
  host switch : TopologyNodeType

pub data TopologyValidationError : Type 0 where
  missing_name missing_nodes missing_node_id duplicate_node_id : TopologyValidationError
  missing_switch multiple_switches unknown_link_endpoint self_link : TopologyValidationError
  duplicate_link invalid_link_shape negative_latency : TopologyValidationError

pub record TopologyNode : Type 0 where
  pub id : Text
  pub type : TopologyNodeType

pub record TopologyLink : Type 0 where
  pub from : Text
  pub to : Text
  pub latency : ℤ

pub record TopologyConfiguration : Type 0 where
  pub name : Text
  pub nodes : List TopologyNode
  pub links : List TopologyLink

pub record Topology : Type 0 where
  pub configuration : TopologyConfiguration
  pub switch_index : ℕ

abbrev pub link_key : Text → Text → Text
link_key first second = if text_lt first second then first ++ 0 ∷ second else second ++ 0 ∷ first

abbrev pub is_switch : TopologyNode → Bool
is_switch node = elim node.type [ switch ↦ true | host ↦ false ]

abbrev pub is_host : TopologyNode → Bool
is_host node = not (is_switch node)

-- `find` in an `unordered_set` of strings.
abbrev pub member : Text → List Text → Bool
member t seen = any_of (text_eq t) seen

-- What the loop over the nodes has gathered.
pub record Scan : Type 0 where
  pub node_ids : List Text
  pub switch_count : ℕ
  pub switch_index : ℕ

-- A node passed its checks: its id is in the set, and a switch is counted and located.
abbrev pub record_node : ℕ → Scan → TopologyNode → Scan
record_node index s node = record {
  node_ids = node.id ∷ s.node_ids;
  switch_count = if is_switch node then s.switch_count + 1 else s.switch_count;
  switch_index = if is_switch node then index else s.switch_index;
}

-- The loop over the nodes, from an index on.
unfoldable pub scan_nodes : ℕ → Scan → List TopologyNode → Expected Scan TopologyValidationError
scan_nodes index s [] = ok s
scan_nodes index s (node ∷ nodes) =
    let rest = scan_nodes (suc index) (record_node index s node) nodes in
    if is_empty node.id
    then unexpected missing_node_id
    else if member node.id s.node_ids
    then unexpected duplicate_node_id
    else rest

-- The loop over the links.
unfoldable pub check_links :
    List Text → Text → List Text → List TopologyLink → Expected (Unit {0}) TopologyValidationError
check_links ids switch_id keys [] = ok tt
check_links ids switch_id keys (link ∷ links) =
    let key = link_key link.from link.to in
    let rest = check_links ids switch_id (key ∷ keys) links in
    if text_eq link.from link.to
    then unexpected self_link
    else if not (member link.from ids) || not (member link.to ids)
    then unexpected unknown_link_endpoint
    else if member key keys
    then unexpected duplicate_link
    else if ltzb link.latency (pos 0)
    then unexpected negative_latency
    else elim (text_eq link.from switch_id) [
      | true ↦ if text_eq link.to switch_id then unexpected invalid_link_shape else rest
      | false ↦ if text_eq link.to switch_id then rest else unexpected invalid_link_shape
    ]

-- `configuration.nodes[index].id`; out of range never happens, since the index is a node's.
abbrev pub id_at : List TopologyNode → ℕ → Text
id_at nodes index = elim (get_elem? nodes index) [ none ↦ [] | some node ↦ node.id ]

abbrev pub empty_scan : Scan
empty_scan = record { node_ids = []; switch_count = 0; switch_index = 0 }

infixl 5 ◌>>=◌
abbrev pub ◌>>=◌ {ℓ κ} :
    {A : Type ℓ} {B : Type κ}
    → Expected A TopologyValidationError
    → (A → Expected B TopologyValidationError)
    → Expected B TopologyValidationError
ok a >>= f = f a
unexpected e >>= f = unexpected e

-- The part of `create` after the loop over the nodes.
unfoldable pub finish : TopologyConfiguration → Scan → Expected Topology TopologyValidationError
finish c s =
    if s.switch_count == 0
    then unexpected missing_switch
    else if ltb 1 s.switch_count
    then unexpected multiple_switches
    else do
      _ ← check_links s.node_ids (id_at c.nodes s.switch_index) [] c.links
      ok (record { configuration = c; switch_index = s.switch_index })

unfoldable pub create : TopologyConfiguration → Expected Topology TopologyValidationError
unfolding finish
create c =
    if is_empty c.name
    then unexpected missing_name
    else if is_empty c.nodes
    then unexpected missing_nodes
    else do s ← scan_nodes 0 empty_scan c.nodes; finish c s

unfoldable pub switch_node : Topology → Option TopologyNode
switch_node t = get_elem? t.configuration.nodes t.switch_index

unfoldable pub port_count : Topology → ℕ
port_count t = length t.configuration.links
