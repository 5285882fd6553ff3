-- ===== src/Prelude/Sorting.antt =====
-- `std::sort`, as insertion sort by a strict test.
use mathlib.Core.Path.{◌≡◌}
use mathlib.Core.Logic.{inl, inr, ◌⊎◌, ◌↔◌}
use mathlib.Core.Bool.{Bool, true, false}
use mathlib.Core.List.{List, [], ◌∷◌, Perm}
use mathlib.Core.List.Perm
use native.Mathlib.Omega.{arith}
use packet_switch.Prelude.Tests.{if◌then◌else◌, Bool-cases}
use packet_switch.Prelude.Lists.{All}

module _ {ℓ} {A : Type ℓ} (lt : A → A → Bool) where
  unfoldable pub insert : A → List A → List A
  insert a [] = a ∷ []
  insert a (x ∷ xs) = if lt x a then x ∷ insert a xs else a ∷ x ∷ xs

  unfoldable pub sort : List A → List A
  unfolding insert
  sort [] = []
  sort (x ∷ xs) = insert x (sort xs)

  -- No later element is less than an earlier one.
  abbrev pub IsSorted : List A → Type 0
  IsSorted [] = Unit
  IsSorted (x ∷ xs) = All (λ y. lt y x ≡ false) xs × IsSorted xs

  insert-perm : (a : A) (xs : List A) → Perm (insert a xs) (a ∷ xs)
  unfolding insert
  insert-perm a [] = Perm.refl (a ∷ [])
  insert-perm a (x ∷ xs) = ground (
    arith,
    Perm.refl (a ∷ x ∷ xs),
    Perm.trans (Perm.cons x (insert-perm a xs)) (Perm.swap a x xs),
  )

  pub sort-perm : (xs : List A) → Perm (sort xs) xs
  unfolding sort
  sort-perm [] = Perm.refl []
  sort-perm (x ∷ xs) = Perm.trans (insert-perm x (sort xs)) (Perm.cons x (sort-perm xs))

  module _ (asym : (a b : A) → lt a b ≡ true → lt b a ≡ false)
      (trans : (a b c : A) → lt b a ≡ false → lt c b ≡ false → lt c a ≡ false) where
    All-not_lt :
        (a b : A) (xs : List A)
        → lt b a ≡ false
        → All (λ y. lt y b ≡ false) xs
        → All (λ y. lt y a ≡ false) xs
    All-not_lt a b [] h k = tt
    All-not_lt a b (x ∷ xs) h k = (trans a b x h k.0, All-not_lt a b xs h k.1)

    All-insert :
        (a b : A) (xs : List A)
        → lt b a ≡ false
        → All (λ y. lt y a ≡ false) xs
        → All (λ y. lt y a ≡ false) (insert b xs)
    unfolding insert
    All-insert a b [] h k = (h, tt)
    All-insert a b (x ∷ xs) h k = ground (arith, All-insert a b xs h k.1)

    insert-IsSorted : (a : A) (xs : List A) → IsSorted xs → IsSorted (insert a xs)
    unfolding insert
    insert-IsSorted a [] h = (tt, tt)
    insert-IsSorted a (x ∷ xs) h = elim (Bool-cases (lt x a)) [
      | inl e ↦ rw e (All-insert x a xs (asym x a e) h.0, insert-IsSorted a xs h.1)
      | inr e ↦ rw e ((e, All-not_lt a x xs e h.0), h)
    ]

    pub sort-IsSorted : (xs : List A) → IsSorted (sort xs)
    unfolding sort
    sort-IsSorted [] = tt
    sort-IsSorted (x ∷ xs) = insert-IsSorted x (sort xs) (sort-IsSorted xs)

-- Membership with its evidence, by recursion.
abbrev pub IsIn : {A : Type 0} → A → List A → Type 0
IsIn a [] = ⊥
IsIn a (x ∷ xs) = (a ≡ x) ⊎ IsIn a xs

module _ {A : Type 0} (lt : A → A → Bool) (a : A) where
  IsIn-insert : (x : A) (xs : List A) → IsIn a (insert lt x xs) ↔ IsIn a (x ∷ xs)
  unfolding insert
  IsIn-insert x [] = (λ h. h, λ h. h)
  IsIn-insert x (y ∷ ys) = ground (arith, IsIn-insert x ys)

  -- Sorting keeps exactly the elements.
  pub IsIn-sort : (xs : List A) → IsIn a (sort lt xs) ↔ IsIn a xs
  unfolding sort
  IsIn-sort [] = (λ h. h, λ h. h)
  IsIn-sort (x ∷ xs) =
      let (to, from) = IsIn-insert x (sort lt xs) in
      let (down, up) = IsIn-sort xs in (λ h. carry down (to h), λ h. from (carry up h))
    where
      carry : {P Q : Type 0} → (P → Q) → (a ≡ x) ⊎ P → (a ≡ x) ⊎ Q
      carry f (inl e) = inl e
      carry f (inr p) = inr (f p)
