-- ===== src/SwitchSupervisor/Bindings.antt =====
-- The ports that `bind` of src/switch_supervisor.cpp gives to senders.
use packet_switch.Prelude.{
  [], ◌∷◌, ite, ℕ, List, suc, ◌+◌, ◌≡◌, none, some, ◌≢◌, ◌≤◌, length, arith, refl, ◌∙◌, if_pos, ◌<◌,
  ◌^◌, Option-cases, inl, inr, ◌%◌, if_neg, value_or,
}
use packet_switch.Prelude.Maps.{find, assign, find-assign}
use packet_switch.Prelude.Texts.{Text, text_discrete}
use packet_switch.SwitchSupervisor.{
  Binding, ControlServer, PacketAnalyzer, bind, SwitchSupervisor, endpoint_to_string,
}
use packet_switch.MacTable.{Endpoint}
use packet_switch.TopologyController.{port_id_at}

-- The bindings are numbered in the order of the list.
abbrev pub Numbered : ℕ → List (Text × Binding) → Type 0
Numbered i [] = Unit
Numbered i ((key, b) ∷ m) = (b.ingress_port ≡ i) × Numbered (suc i) m

find-Numbered :
    (i : ℕ) (key : Text) (m : List (Text × Binding)) (b : Binding)
    → Numbered i m
    → find text_discrete key m ≡ some b
    → i ≤ b.ingress_port
unfolding find
find-Numbered i key [] b numbered found = ground arith
find-Numbered i key ((k, c) ∷ m) b (at, numbered) found =
    ground (arith, at, found, find-Numbered (suc i) key m b numbered)

find_injective :
    (i : ℕ) (j k : Text) (m : List (Text × Binding)) (b c : Binding)
    → Numbered i m
    → find text_discrete j m ≡ some b
    → find text_discrete k m ≡ some c
    → j ≢ k
    → b.ingress_port ≢ c.ingress_port
unfolding find
find_injective i j k [] b c numbered first second apart = ground arith
find_injective i j k ((key, d) ∷ m) b c (at, numbered) first second apart = ground (
  arith,
  find_injective (suc i) j k m b c numbered,
  find-Numbered (suc i) j m b numbered,
  find-Numbered (suc i) k m c numbered,
)

Numbered-assign :
    (i : ℕ) (key : Text) (b : Binding) (m : List (Text × Binding))
    → find text_discrete key m ≡ none
    → b.ingress_port ≡ i + length m
    → Numbered i m
    → Numbered i (assign text_discrete key b m)
      × (length (assign text_discrete key b m) ≡ suc (length m))
unfolding find assign
Numbered-assign i key b [] new at numbered = ((omega (arith, at), tt), refl)
Numbered-assign i key b ((k, c) ∷ m) new at (here, numbered) =
    step (text_discrete k key) new
      (λ none_found. Numbered-assign (suc i) key b m none_found (omega (arith, at)) numbered)
  where
    step :
        (d : Dec (k ≡ key))
        → ite d (some c) (find text_discrete key m) ≡ none
        → (find text_discrete key m ≡ none
            → Numbered (suc i) (assign text_discrete key b m)
              × (length (assign text_discrete key b m) ≡ suc (length m)))
        → Numbered i (ite d ((key, b) ∷ m) ((k, c) ∷ assign text_discrete key b m))
          × (length (ite d ((key, b) ∷ m) ((k, c) ∷ assign text_discrete key b m))
              ≡ suc (suc (length m)))
    step (yes same) none_found others = ground (arith, none_found)
    step (no other) none_found others =
        let (rest, long) = others none_found in ((here, rest), omega (arith, long))

find_kept :
    (key other : Text) (b c : Binding) (m : List (Text × Binding))
    → find text_discrete key m ≡ none
    → find text_discrete other m ≡ some c
    → find text_discrete other (assign text_discrete key b m) ≡ some c
find_kept key other b c m new found =
    find-assign text_discrete other key b m
    ∙ if_neg (text_discrete key other) (λ same. ground (arith, new, found, same)) (some b)
        (find text_discrete other m)
    ∙ found

find_same :
    (key : Text) (b : Binding) (m : List (Text × Binding))
    → find text_discrete key (assign text_discrete key b m) ≡ some b
find_same key b m =
    find-assign text_discrete key key b m
    ∙ if_pos (text_discrete key key) refl (some b) (find text_discrete key m)

module _ {C A : Type 0} (server : ControlServer C) (analyzers : PacketAnalyzer A) where
  -- After a sender is bound it is found, the numbering is kept, and what was found stays.
  pub bind-Numbered :
      (s : SwitchSupervisor C A) (sender : Endpoint)
      → Numbered 0 s.bindings
      → length s.bindings < 2 ^ 32
      → Numbered 0 (bind server analyzers s sender).0.bindings
        × (find text_discrete
              (endpoint_to_string sender)
              (bind server analyzers s sender).0.bindings
            ≡ some (bind server analyzers s sender).1)
        × ((key : Text) (b : Binding)
            → find text_discrete key s.bindings ≡ some b
            → find text_discrete key (bind server analyzers s sender).0.bindings ≡ some b)
        × (length (bind server analyzers s sender).0.bindings ≤ suc (length s.bindings))
  unfolding bind
  bind-Numbered s sender numbered small =
      elim (Option-cases (find text_discrete (endpoint_to_string sender) s.bindings)) [
        | inl new ↦
            let i : ℕ = length s.bindings % 2 ^ 32 in
            let b : Binding = record {
              ingress_port = i;
              port_id = value_or (port_id_at s.controller i) [];
            } in
            let key = endpoint_to_string sender in
            let (kept, long) =
              Numbered-assign 0 key b s.bindings new (omega (arith, small)) numbered in
            rw (new, bind)
              (
                kept,
                find_same key b s.bindings,
                λ other c. find_kept key other b c s.bindings new,
                omega (arith, long),
              )
        | inr (b, found) ↦ rw (found, bind) (numbered, found, λ key c at. at, omega arith)
      ]

  -- While senders are numbered in the order of the list and fewer than 2^32 - 1 are bound, a sender
  -- that is bound again has the same port, whoever was bound meanwhile, and two senders whose
  -- endpoints are written differently have different ports.
  pub bind_injective :
      (s : SwitchSupervisor C A) (first second : Endpoint)
      → Numbered 0 s.bindings
      → suc (length s.bindings) < 2 ^ 32
      → endpoint_to_string first ≢ endpoint_to_string second
      → (let one = bind server analyzers s first in
          let two = bind server analyzers one.0 second in
          Numbered 0 two.0.bindings
          × (one.1.ingress_port ≢ two.1.ingress_port)
          × (bind server analyzers two.0 first ≡ (two.0, one.1)))
  unfolding bind
  bind_injective s first second numbered small apart =
      let one = bind server analyzers s first in
      let (kept, found, _, short) = bind-Numbered s first numbered (omega (arith, small)) in
      let two = bind server analyzers one.0 second in
      let (numbers, other, keep, _) =
        bind-Numbered one.0 second kept (omega (arith, small, short)) in
      let again = keep (endpoint_to_string first) one.1 found in
      (
        numbers,
        find_injective 0 (endpoint_to_string first) (endpoint_to_string second) two.0.bindings one.1
            two.1 numbers again other apart,
        rw (again, bind) refl,
      )
