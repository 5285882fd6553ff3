-- ===== src/Merging.antt =====
-- The sort and merge of the histograms of src/packet_analyzer.cpp: entries of one key become one
-- entry, at the place of the first. The source writes this loop out for each type of entry.
use packet_switch.Prelude.{Bool, List, ◌∷◌, [], true, false}

module _ {A : Type 0} (same : A → A → Bool) (add : A → A → A) where
  -- The loop from the second entry on, with the entry that is being merged into.
  unfoldable pub merge_from : A → List A → List A
  merge_from current [] = current ∷ []
  merge_from current (x ∷ xs) = elim (same current x) [
    | true ↦ merge_from (add current x) xs
    | false ↦ current ∷ merge_from x xs
  ]

  unfoldable pub merge : List A → List A
  unfolding merge_from
  merge [] = []
  merge (x ∷ xs) = merge_from x xs
