-- ===== src/TopologyController/Targets.antt =====
-- The names under which the fault engine knows ports and links: src/topology_controller.cpp.
use packet_switch.Prelude.{◌≡◌, refl, ◌↔◌, ◌⊎◌, [], ◌∷◌, ◌++◌, length, arith, ◌≢◌}
use packet_switch.Prelude.Texts.{Text, text_lt_asym, text_lt_total}
use packet_switch.Prelude.Decimal.{decimal, decimal_injective, decimal-digits, colon_injective}
use packet_switch.TopologyController.{port_fault_target, link_fault_target, link_text}

-- Two ports share a target only if they are the same port.
pub port_fault_target_injective : (a b : Text) → port_fault_target a ≡ port_fault_target b → a ≡ b
unfolding port_fault_target
port_fault_target_injective a b h =
    (colon_injective (decimal (length a)) (decimal (length b)) a b (decimal-digits (length a))
      (decimal-digits (length b)) (ground arith)).1

-- Texts of one length before two rests are equal with their rests.
split_injective : (s t u v : Text) → length s ≡ length t → s ++ u ≡ t ++ v → (s ≡ t) × (u ≡ v)
split_injective [] [] u v h e = (refl, e)
split_injective [] (y ∷ t) u v h e = absurd (omega arith)
split_injective (x ∷ s) [] u v h e = absurd (omega arith)
split_injective (x ∷ s) (y ∷ t) u v h e = ground (arith, split_injective s t u v)

abbrev sized : Text → Text
sized b = b':' ∷ (decimal (length b) ++ (b':' ∷ b))

link_text_injective : (a b c d : Text) → link_text a b ≡ link_text c d → (a ≡ c) × (b ≡ d)
link_text_injective a b c d h =
    let (one, rest) =
      colon_injective (decimal (length a)) (decimal (length c)) (a ++ sized b) (c ++ sized d)
        (decimal-digits (length a)) (decimal-digits (length c)) (ground arith) in
    let (first, rest') =
      split_injective a c (sized b) (sized d) (decimal_injective (length a) (length c) one) rest in
    let (_, second) =
      colon_injective (decimal (length b)) (decimal (length d)) b d (decimal-digits (length b))
        (decimal-digits (length d)) (ground arith) in
    (first, second)

-- Two links share a target exactly if they join the same two nodes, in either order; and no port
-- shares one with a link.
pub link_fault_target_lem :
    (a b c d : Text)
    → ((link_fault_target a b ≡ link_fault_target c d)
        ↔ (((a ≡ c) × (b ≡ d)) ⊎ ((a ≡ d) × (b ≡ c))))
      × (port_fault_target a ≢ link_fault_target c d)
unfolding port_fault_target link_fault_target
link_fault_target_lem a b c d = (
  ground (
    arith,
    link_text_injective a b c d,
    link_text_injective a b d c,
    link_text_injective b a c d,
    link_text_injective b a d c,
    text_lt_asym a b,
    text_lt_total a b,
  ),
  ground arith,
)
