-- ===== src/Topology/Create.antt =====
-- `Topology::create` of src/topology.cpp against the star-shaped configurations.
use packet_switch.Prelude.{
  All, ◌≡◌, refl, ap, ◌≢◌, ◌↔◌, true, some, [], Expected-cases, ok, arith, get_elem?,
}
use packet_switch.Prelude.Sorting.{IsIn}
use packet_switch.Prelude.Unique.{Apart-nil, is_empty_iff}
use packet_switch.Prelude.Texts.{Text}
use packet_switch.Topology.{
  TopologyNode, TopologyConfiguration, Topology, is_switch, Scan, empty_scan, scan_nodes,
  check_links, id_at, finish, create,
}
use packet_switch.Topology.Links.{IsPlain, keys-Unique_iff, links-JoinsPlain}
use packet_switch.Topology.Shape.{
  ids, keys, switches, IsStar, gather, scan_nodes_iff, IsIn-gather, switch_count-gather,
  switch_index-gather, only_switch, check_links_iff, LinkFits-mono,
}

finish_iff :
    (c : TopologyConfiguration) (s : Scan) (t : Topology)
    → (finish c s ≡ ok t) ↔ (
        (s.switch_count ≡ 1)
        × (check_links s.node_ids (id_at c.nodes s.switch_index) [] c.links ≡ ok tt)
        × (t ≡ record { configuration = c; switch_index = s.switch_index }))
unfolding finish
finish_iff c s t = ground arith

create_split :
    (c : TopologyConfiguration) (t : Topology)
    → (create c ≡ ok t) ↔ (
        (c.name ≢ [])
        × (c.nodes ≢ [])
        × ((s : Scan) × (scan_nodes 0 empty_scan c.nodes ≡ ok s) × (finish c s ≡ ok t)))
unfolding create
create_split c t =
    ground (arith, is_empty_iff c.name, Expected-cases (scan_nodes 0 empty_scan c.nodes))

-- What the scan of a configuration with unique ids finds.
scanned :
    (c : TopologyConfiguration) (s : Scan)
    → s ≡ gather 0 empty_scan c.nodes
    → switches c.nodes ≡ 1
    → (s.switch_count ≡ 1)
      × ((n : TopologyNode) × (get_elem? c.nodes s.switch_index ≡ some n) × (is_switch n ≡ true))
scanned c s e one =
    let (k, n, found, at, yes_switch) = switch_index-gather 0 empty_scan c.nodes one in
    let index : s.switch_index ≡ k = omega (arith, ap (λ r. r.switch_index) e, found) in
    (
      omega (arith, ap (λ r. r.switch_count) e, switch_count-gather 0 empty_scan c.nodes),
      (n, rw index at, yes_switch),
    )

names_iff :
    (c : TopologyConfiguration) (s : Scan) (t : Text)
    → s ≡ gather 0 empty_scan c.nodes
    → IsIn t s.node_ids ↔ IsIn t (ids c.nodes)
names_iff c s t e = ground (arith, IsIn-gather t 0 empty_scan c.nodes)

accepted :
    (c : TopologyConfiguration) (t : Topology)
    → All (λ n. IsPlain n.id) c.nodes
    → create c ≡ ok t
    → (t.configuration ≡ c) × IsStar c t.switch_index
accepted c t plain h =
    let (named, _, run) = (create_split c t).0 h in
    let (s, scan, last) = run in
    let (at, identified, distinct, _) = (scan_nodes_iff 0 empty_scan s c.nodes).0 scan in
    let (one, checked, shape) = (finish_iff c s t).0 last in
    let center = id_at c.nodes s.switch_index in
    let (fits, unlinked, _) = (check_links_iff s.node_ids center [] c.links).0 checked in
    let single : switches c.nodes ≡ 1 =
      omega (arith, one, ap (λ r. r.switch_count) at, switch_count-gather 0 empty_scan c.nodes) in
    let fits =
      LinkFits-mono s.node_ids (ids c.nodes) center c.links (λ t. (names_iff c s t at).0) fits in
    let star : IsStar c s.switch_index = record {
      named = named;
      identified = identified;
      distinct = distinct;
      one_switch = single;
      center = (scanned c s at single).1;
      links = fits;
      unlinked =
          (keys-Unique_iff c.links (links-JoinsPlain c.nodes center c.links plain fits)).0 unlinked;
    } in
    rw shape (refl, star)

rebuilt :
    (c : TopologyConfiguration) (t : Topology)
    → All (λ n. IsPlain n.id) c.nodes
    → t.configuration ≡ c
    → IsStar c t.switch_index
    → create c ≡ ok t
rebuilt c t plain same star =
    let s = gather 0 empty_scan c.nodes in
    let (one, found) = scanned c s refl star.one_switch in
    let (n, at, is_it) = found in
    let (m, at', is_it') = star.center in
    let index =
      only_switch c.nodes s.switch_index t.switch_index n m star.one_switch at at' is_it is_it' in
    let scan =
      (scan_nodes_iff 0 empty_scan s c.nodes).1
        (refl, star.identified, star.distinct, Apart-nil (ids c.nodes)) in
    let fits =
      LinkFits-mono (ids c.nodes) s.node_ids (id_at c.nodes t.switch_index) c.links
        (λ t. (names_iff c s t refl).1) star.links in
    let plain_links =
      links-JoinsPlain c.nodes (id_at c.nodes t.switch_index) c.links plain star.links in
    let unique = (keys-Unique_iff c.links plain_links).1 star.unlinked in
    let checked =
      (check_links_iff s.node_ids (id_at c.nodes t.switch_index) [] c.links).1
        (fits, unique, Apart-nil (keys c.links)) in
    (create_split c t).1 (
      star.named,
      ground arith,
      (s, scan, (finish_iff c s t).1 (one, rw index checked, ground (arith, index))),
    )

-- A configuration whose node ids have no zero byte is accepted exactly when it is a star, where no
-- two links join the same two nodes; the topology then holds it as given, with the index of its
-- switch.
pub create_iff :
    (c : TopologyConfiguration) (t : Topology)
    → All (λ n. IsPlain n.id) c.nodes
    → (create c ≡ ok t) ↔ ((t.configuration ≡ c) × IsStar c t.switch_index)
create_iff c t plain = (accepted c t plain, λ (same, star). rebuilt c t plain same star)
