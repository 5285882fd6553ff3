-- ===== src/Topology/Shape.antt =====
-- The star-shaped configurations, and what the loops of `create` check and gather.
use packet_switch.Prelude.{
  ℕ, zero, suc, ◌+◌, ◌≡◌, refl, ap, ◌≢◌, ◌↔◌, ◌⊎◌, inl, inr, true, some, List, [], ◌∷◌, map, ok,
  arith, All, get_elem?, if◌then◌else◌, Bool-cases,
}
use packet_switch.Prelude.Int.{pos, ◌≤ℤ◌}
use packet_switch.Prelude.Sorting.{IsIn}
use packet_switch.Prelude.Unique.{Unique, Apart, Apart-cons, member_iff, is_empty_iff}
use packet_switch.Prelude.Texts.{Text}
use packet_switch.Topology.{
  TopologyNode, TopologyLink, TopologyConfiguration, link_key, is_switch, record_node, Scan,
  scan_nodes, check_links, id_at,
}

abbrev pub ids : List TopologyNode → List Text
ids = map (λ n. n.id)

abbrev pub keys : List TopologyLink → List Text
keys = map (λ l. link_key l.from l.to)

abbrev pub switches : List TopologyNode → ℕ
switches [] = 0
switches (n ∷ ns) = if is_switch n then suc (switches ns) else switches ns

-- A link of two nodes of which one is the switch.
abbrev pub LinkFits : List Text → Text → TopologyLink → Type 0
LinkFits names center l =
    (l.from ≢ l.to)
    × IsIn l.from names
    × IsIn l.to names
    × (pos 0 ≤ℤ l.latency)
    × ((l.from ≡ center) ⊎ (l.to ≡ center))

-- Links of the same two nodes, in either direction.
abbrev pub IsSame : TopologyLink → TopologyLink → Type 0
IsSame k l = ((k.from ≡ l.from) × (k.to ≡ l.to)) ⊎ ((k.from ≡ l.to) × (k.to ≡ l.from))

abbrev pub AreDistinct : List TopologyLink → Type 0
AreDistinct [] = Unit
AreDistinct (l ∷ ls) = All (λ m. ¬ IsSame l m) ls × AreDistinct ls

-- A named configuration with distinct non-empty node ids and one switch, at the given index; every
-- link joins the switch to another node, and no two links join the same two nodes.
pub record IsStar (c : TopologyConfiguration) (index : ℕ) : Type 0 where
  pub named : c.name ≢ []
  pub identified : All (λ n. n.id ≢ []) c.nodes
  pub distinct : Unique (ids c.nodes)
  pub one_switch : switches c.nodes ≡ 1
  pub center : (n : TopologyNode) × (get_elem? c.nodes index ≡ some n) × (is_switch n ≡ true)
  pub links : All (LinkFits (ids c.nodes) (id_at c.nodes index)) c.links
  pub unlinked : AreDistinct c.links

-- The scan without its checks.
pub gather : ℕ → Scan → List TopologyNode → Scan
gather index s [] = s
gather index s (n ∷ ns) = gather (suc index) (record_node index s n) ns

pub scan_nodes_iff :
    (index : ℕ) (s r : Scan) (ns : List TopologyNode)
    → (scan_nodes index s ns ≡ ok r) ↔ (
        (r ≡ gather index s ns)
        × All (λ n. n.id ≢ []) ns
        × Unique (ids ns)
        × Apart (ids ns) s.node_ids)
unfolding scan_nodes gather
scan_nodes_iff index s r [] = ground arith
scan_nodes_iff index s r (n ∷ ns) = ground (
  arith,
  scan_nodes_iff (suc index) (record_node index s n) r ns,
  member_iff n.id s.node_ids,
  is_empty_iff n.id,
  Apart-cons n.id (ids ns) s.node_ids,
)

pub IsIn-gather :
    (t : Text) (index : ℕ) (s : Scan) (ns : List TopologyNode)
    → IsIn t (gather index s ns).node_ids ↔ (IsIn t (ids ns) ⊎ IsIn t s.node_ids)
unfolding gather
IsIn-gather t index s [] = (λ h. inr h, λ h. ground arith)
IsIn-gather t index s (n ∷ ns) =
    ground (arith, IsIn-gather t (suc index) (record_node index s n) ns)

pub switch_count-gather :
    (index : ℕ) (s : Scan) (ns : List TopologyNode)
    → (gather index s ns).switch_count ≡ s.switch_count + switches ns
unfolding gather
switch_count-gather index s [] = omega arith
switch_count-gather index s (n ∷ ns) =
    ground (arith, switch_count-gather (suc index) (record_node index s n) ns)

-- After the only switch the index stays.
switch_index-gather_none :
    (index : ℕ) (s : Scan) (ns : List TopologyNode)
    → switches ns ≡ 0
    → (gather index s ns).switch_index ≡ s.switch_index
unfolding gather
switch_index-gather_none index s [] h = refl
switch_index-gather_none index s (n ∷ ns) h =
    ground (arith, switch_index-gather_none (suc index) (record_node index s n) ns)

-- With one switch, the index found is that of a switch, and of each.
pub switch_index-gather :
    (index : ℕ) (s : Scan) (ns : List TopologyNode)
    → switches ns ≡ 1
    → (k : ℕ) × (n : TopologyNode) × ((gather index s ns).switch_index ≡ index + k)
      × (get_elem? ns k ≡ some n)
      × (is_switch n ≡ true)
unfolding gather
switch_index-gather index s [] h = absurd (omega arith)
switch_index-gather index s (n ∷ ns) h = elim (Bool-cases (is_switch n)) [
  | inl e ↦ (
    0,
    n,
    ground (arith, switch_index-gather_none (suc index) (record_node index s n) ns),
    refl,
    e,
  )
  | inr e ↦
      let (k, m, found, at, yes_switch) =
        switch_index-gather (suc index) (record_node index s n) ns (ground arith) in
      (suc k, m, omega (arith, found), at, yes_switch)
]

no_switch_at :
    (ns : List TopologyNode) (k : ℕ) (n : TopologyNode)
    → switches ns ≡ 0
    → get_elem? ns k ≡ some n
    → is_switch n ≡ true
    → ⊥
no_switch_at [] k n h e f = cc
no_switch_at (m ∷ ns) zero n h e f = ground arith
no_switch_at (m ∷ ns) (suc k) n h e f = no_switch_at ns k n (ground arith) e f

pub only_switch :
    (ns : List TopologyNode) (i j : ℕ) (a b : TopologyNode)
    → switches ns ≡ 1
    → get_elem? ns i ≡ some a
    → get_elem? ns j ≡ some b
    → is_switch a ≡ true
    → is_switch b ≡ true
    → i ≡ j
only_switch [] i j a b h p q f g = cc
only_switch (m ∷ ns) zero zero a b h p q f g = refl
only_switch (m ∷ ns) zero (suc j) a b h p q f g = absurd (no_switch_at ns j b (ground arith) q g)
only_switch (m ∷ ns) (suc i) zero a b h p q f g = absurd (no_switch_at ns i a (ground arith) p f)
only_switch (m ∷ ns) (suc i) (suc j) a b h p q f g = elim (Bool-cases (is_switch m)) [
  | inl e ↦ absurd (no_switch_at ns i a (ground arith) p f)
  | inr e ↦ ap suc (only_switch ns i j a b (ground arith) p q f g)
]

pub check_links_iff :
    (names : List Text) (center : Text) (seen : List Text) (ls : List TopologyLink)
    → (check_links names center seen ls ≡ ok tt)
      ↔ (All (LinkFits names center) ls × Unique (keys ls) × Apart (keys ls) seen)
unfolding check_links
check_links_iff names center seen [] = ground arith
check_links_iff names center seen (l ∷ ls) =
    let key = link_key l.from l.to in
    ground (
      arith,
      check_links_iff names center (key ∷ seen) ls,
      member_iff l.from names,
      member_iff l.to names,
      member_iff key seen,
      Apart-cons key (keys ls) seen,
    )

pub LinkFits-mono :
    (names others : List Text) (center : Text) (ls : List TopologyLink)
    → ((t : Text) → IsIn t names → IsIn t others)
    → All (LinkFits names center) ls
    → All (LinkFits others center) ls
LinkFits-mono names others center [] f h = tt
LinkFits-mono names others center (l ∷ ls) f ((ne, from, to, late, ends), rest) =
    ((ne, f l.from from, f l.to to, late, ends), LinkFits-mono names others center ls f rest)
