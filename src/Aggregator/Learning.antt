-- ===== src/Aggregator/Learning.antt =====
-- The addresses that `PacketAnalysisAggregator` learns.
use packet_switch.Prelude.{
  ℕ, List, if◌then◌else◌, ◌≡◌, ◌||◌, true, ◌∷◌, Bool-cases, any_of, ◌&&◌, inl, inr, arith, ◌∙◌, [],
  holds, subst, Bool, false≢true, false, refl,
}
use packet_switch.Frame.{MacAddress, mac_eq, mac_discrete}
use packet_switch.Aggregator.{
  aggregate_packet, aggregate_all, is_learned, AnalysisBatch, has_ethernet,
}
use packet_switch.Packet.{PacketAnalysis}

holds-true : {P : Type 0} (d : Dec P) → holds d ≡ true → P
holds-true (yes p) h = p
holds-true (no np) h = absurd (false≢true h)

holds-yes : {P : Type 0} (d : Dec P) → P → holds d ≡ true
holds-yes (yes p) h = refl
holds-yes (no np) h = absurd (np h)

if-is_learned :
    (t : Bool) (learned : List MacAddress) (a b : MacAddress)
    → (t ≡ true → mac_eq a b ≡ true → is_learned learned b ≡ true)
    → is_learned (if t then learned else a ∷ learned) b ≡ (is_learned learned b || mac_eq a b)
if-is_learned true learned a b h = ground (arith, h refl)
if-is_learned false learned a b h = ground arith

is_learned-source :
    (learned : List MacAddress) (a b : MacAddress)
    → is_learned (if is_learned learned a then learned else a ∷ learned) b
      ≡ (is_learned learned b || mac_eq a b)
is_learned-source learned a b = if-is_learned (is_learned learned a) learned a b (λ known same.
    subst (λ m. is_learned learned m ≡ true) (holds-true (mac_discrete a b) same) known)

is_learned-aggregate_packet :
    (learned : List MacAddress) (b : AnalysisBatch) (a : PacketAnalysis) (n : ℕ) (mac : MacAddress)
    → is_learned (aggregate_packet (learned, b) (a, n)).0 mac
      ≡ (is_learned learned mac || (has_ethernet a.validity && mac_eq a.source_mac mac))
unfolding aggregate_packet
is_learned-aggregate_packet learned b a n mac = elim (Bool-cases (has_ethernet a.validity)) [
  | inl e ↦ rw e (is_learned-source learned a.source_mac mac)
  | inr e ↦ rw e (ground arith)
]

pub is_learned-aggregate_all :
    (learned : List MacAddress) (b : AnalysisBatch) (ps : List (PacketAnalysis × ℕ))
    (mac : MacAddress)
    → is_learned (aggregate_all (learned, b) ps).0 mac ≡ (
        is_learned learned mac
        || any_of (λ p. has_ethernet p.0.validity && mac_eq p.0.source_mac mac) ps)
unfolding aggregate_all
is_learned-aggregate_all learned b [] mac = ground arith
is_learned-aggregate_all learned b ((a, n) ∷ ps) mac =
    let next = aggregate_packet (learned, b) (a, n) in
    is_learned-aggregate_all next.0 next.1 ps mac
    ∙ rw (is_learned-aggregate_packet learned b a n mac) (ground arith)
