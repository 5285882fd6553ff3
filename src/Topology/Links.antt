-- ===== src/Topology/Links.antt =====
-- The keys by which `Topology::create` of src/topology.cpp knows the links.
use packet_switch.Prelude.{
  ◌≡◌, ◌≢◌, ◌↔◌, ◌⊎◌, List, [], ◌∷◌, ◌++◌, All, arith, inl, inr, sym, subst,
}
use packet_switch.Prelude.Sorting.{IsIn}
use packet_switch.Prelude.Unique.{Unique}
use packet_switch.Prelude.Texts.{Text, text_lt_asym, text_lt_total}
use packet_switch.Topology.{TopologyNode, TopologyLink, link_key}
use packet_switch.Topology.Shape.{ids, keys, IsSame, AreDistinct, LinkFits}

-- No byte of the text is zero, which separates the two ids of a key.
abbrev pub IsPlain : Text → Type 0
IsPlain t = All (λ b. b ≢ 0) t

separated : (a c b d : Text) → IsPlain a → IsPlain c → a ++ 0 ∷ b ≡ c ++ 0 ∷ d → (a ≡ c) × (b ≡ d)
separated [] [] b d h k e = ground arith
separated [] (y ∷ c) b d h k e = absurd (ground arith)
separated (x ∷ a) [] b d h k e = absurd (ground arith)
separated (x ∷ a) (y ∷ c) b d (_, h) (_, k) e = ground (arith, separated a c b d h k)

-- Two links of plain ids have one key exactly if they join the same nodes.
link_key_iff :
    (a b c d : Text)
    → IsPlain a
    → IsPlain b
    → IsPlain c
    → IsPlain d
    → (link_key a b ≡ link_key c d) ↔ (((a ≡ c) × (b ≡ d)) ⊎ ((a ≡ d) × (b ≡ c)))
link_key_iff a b c d ha hb hc hd = ground (
  arith,
  separated a c b d ha hc,
  separated a d b c ha hd,
  separated b c a d hb hc,
  separated b d a c hb hd,
  text_lt_asym a b,
  text_lt_total a b,
)

abbrev JoinsPlain : TopologyLink → Type 0
JoinsPlain l = IsPlain l.from × IsPlain l.to

keys_apart :
    (l : TopologyLink) (ls : List TopologyLink)
    → JoinsPlain l
    → All JoinsPlain ls
    → (¬ IsIn (link_key l.from l.to) (keys ls)) ↔ All (λ m. ¬ IsSame l m) ls
keys_apart l [] h k = (λ e. tt, λ e f. f)
keys_apart l (m ∷ ls) (hf, ht) ((kf, kt), k) =
    let (rest, back) = keys_apart l ls (hf, ht) k in
    let (same, key) = link_key_iff l.from l.to m.from m.to hf ht kf kt in
    (
      λ e. ((λ s. e (inl (key s))), rest (λ f. e (inr f))),
      λ (other, others) f. elim f [ inl e ↦ other (same e) | inr g ↦ back others g ],
    )

pub keys-Unique_iff :
    (ls : List TopologyLink) → All JoinsPlain ls → Unique (keys ls) ↔ AreDistinct ls
keys-Unique_iff [] h = (λ e. tt, λ e. tt)
keys-Unique_iff (l ∷ ls) (h, k) =
    let (apart, back) = keys_apart l ls h k in
    let (rest, back_rest) = keys-Unique_iff ls k in
    ((λ e. (apart e.0, rest e.1)), λ e. (back e.0, back_rest e.1))

id-IsPlain :
    (t : Text) (ns : List TopologyNode) → All (λ n. IsPlain n.id) ns → IsIn t (ids ns) → IsPlain t
id-IsPlain t [] h e = absurd e
id-IsPlain t (n ∷ ns) (here, there) (inl e) = subst (λ u. IsPlain u) (sym e) here
id-IsPlain t (n ∷ ns) (here, there) (inr e) = id-IsPlain t ns there e

pub links-JoinsPlain :
    (ns : List TopologyNode) (center : Text) (ls : List TopologyLink)
    → All (λ n. IsPlain n.id) ns
    → All (LinkFits (ids ns) center) ls
    → All JoinsPlain ls
links-JoinsPlain ns center [] h fits = tt
links-JoinsPlain ns center (l ∷ ls) h ((_, from, to, _, _), fits) =
    ((id-IsPlain l.from ns h from, id-IsPlain l.to ns h to), links-JoinsPlain ns center ls h fits)
