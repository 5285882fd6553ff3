-- ===== src/Ranking/Histograms.antt =====
-- `aggregate_histogram` of src/packet_analyzer.cpp.
use packet_switch.Prelude.{
  ℕ, List, ◌∷◌, Bool, if◌then◌else◌, ◌≡◌, ◌==◌, All, ◌<◌, arith, refl, [], Bool-cases, inl, ◌∙◌,
  inr,
}
use packet_switch.Merging.{merge_from, merge}
use packet_switch.Aggregator.{HistogramEntry, add_u64}
use packet_switch.Prelude.Sorting.{insert, sort, IsSorted, sort-IsSorted}
use packet_switch.Ranking.{aggregate_histogram, add_entry, value_less}

-- What the entries of a value add up to, modulo 2^64.
abbrev pub total : (HistogramEntry → ℕ) → ℕ → List HistogramEntry → ℕ
total weight value [] = 0
total weight value (x ∷ xs) =
    if x.value == value then add_u64 (weight x) (total weight value xs) else total weight value xs

-- The values rise, so no value has two entries.
abbrev pub IsAscending : List HistogramEntry → Type 0
IsAscending [] = Unit
IsAscending (x ∷ xs) = All (λ y. x.value < y.value) xs × IsAscending xs

abbrev same_value : HistogramEntry → HistogramEntry → Bool
same_value first second = first.value == second.value

module _ (weight : HistogramEntry → ℕ) (value : ℕ) where
  total-insert :
      (x : HistogramEntry) (xs : List HistogramEntry)
      → total weight value (insert value_less x xs) ≡ total weight value (x ∷ xs)
  unfolding insert
  total-insert x [] = refl
  total-insert x (y ∷ ys) = ground (arith, total-insert x ys)

  total-sort :
      (xs : List HistogramEntry) → total weight value (sort value_less xs) ≡ total weight value xs
  unfolding sort
  total-sort [] = refl
  total-sort (x ∷ xs) = ground (arith, total-insert x (sort value_less xs), total-sort xs)

  total-merge_from :
      ((x y : HistogramEntry) → weight (add_entry x y) ≡ add_u64 (weight x) (weight y))
      → (current : HistogramEntry) (xs : List HistogramEntry)
      → total weight value (merge_from same_value add_entry current xs)
        ≡ total weight value (current ∷ xs)
  unfolding merge_from
  total-merge_from adds current [] = refl
  total-merge_from adds current (x ∷ xs) = elim (Bool-cases (current.value == x.value)) [
    | inl e ↦
        rw (e, merge_from)
          (ground (arith, e, adds current x, total-merge_from adds (add_entry current x) xs))
    | inr e ↦ rw (e, merge_from) (ground (arith, e, total-merge_from adds x xs))
  ]

  total-aggregate_histogram :
      ((x y : HistogramEntry) → weight (add_entry x y) ≡ add_u64 (weight x) (weight y))
      → (xs : List HistogramEntry)
      → total weight value (aggregate_histogram xs) ≡ total weight value xs
  unfolding aggregate_histogram merge
  total-aggregate_histogram adds xs = merge-total (sort value_less xs) ∙ total-sort xs
    where
      merge-total :
          (ys : List HistogramEntry)
          → total weight value (merge same_value add_entry ys) ≡ total weight value ys
      merge-total [] = refl
      merge-total (y ∷ ys) = total-merge_from adds y ys

merge_from-IsAscending :
    (current : HistogramEntry) (xs : List HistogramEntry)
    → IsSorted value_less (current ∷ xs)
    → IsAscending (merge_from same_value add_entry current xs)
      × ((low : ℕ)
          → low < current.value
          → All (λ y. low < y.value) (merge_from same_value add_entry current xs))
unfolding merge_from
merge_from-IsAscending current [] sorted = ((tt, tt), λ low h. (h, tt))
merge_from-IsAscending current (x ∷ xs) ((at, later), (after, sorted)) =
    elim (Bool-cases (current.value == x.value)) [
      | inl e ↦ rw (e, merge_from) (merge_from-IsAscending (add_entry current x) xs (later, sorted))
      | inr e ↦
          let rest = merge_from-IsAscending x xs (after, sorted) in
          let less : current.value < x.value = ground (arith, at, e) in
          rw (e, merge_from)
            ((rest.1 current.value less, rest.0), λ low h. (h, rest.1 low (omega (arith, h, less))))
    ]

merge-IsAscending :
    (xs : List HistogramEntry)
    → IsSorted value_less xs
    → IsAscending (merge same_value add_entry xs)
unfolding merge
merge-IsAscending [] sorted = tt
merge-IsAscending (x ∷ xs) sorted = (merge_from-IsAscending x xs sorted).0

-- Merging a histogram leaves one entry for a value, in rising order, and for every value the counts
-- of packets and of bytes are what the entries of that value add up to, modulo 2^64.
pub aggregate_histogram_lem :
    (xs : List HistogramEntry)
    → IsAscending (aggregate_histogram xs)
      × ((value : ℕ)
          → (total (λ e. e.packet_count) value (aggregate_histogram xs)
              ≡ total (λ e. e.packet_count) value xs)
            × (total (λ e. e.byte_count) value (aggregate_histogram xs)
                ≡ total (λ e. e.byte_count) value xs))
unfolding aggregate_histogram
aggregate_histogram_lem xs = (
  merge-IsAscending (sort value_less xs) (
      sort-IsSorted value_less (λ a b h. ground (arith, h)) (λ a b c h k. ground (arith, h, k)) xs),
  λ value. (
    total-aggregate_histogram (λ e. e.packet_count) value (λ x y. refl) xs,
    total-aggregate_histogram (λ e. e.byte_count) value (λ x y. refl) xs,
  ),
)
