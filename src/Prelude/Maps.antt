-- ===== src/Prelude/Maps.antt =====
-- `std::map` and `std::unordered_map` as association lists. A new key goes to the end.
use Prim.Native.Nat.{suc}
use mathlib.Core.Path.{◌≡◌, refl}
use mathlib.Core.Logic.{ite}
use mathlib.Core.List.{List, [], ◌∷◌}
use mathlib.Core.Option.{Option, none, some}
use native.Mathlib.Omega.{arith}
use packet_switch.Prelude.Tests.{is_some, if◌then◌else◌}
use packet_switch.Prelude.Lists.{length}
use packet_switch.Prelude.{◌⊎◌, inl, inr}

module _ {ℓ} {K V : Type ℓ} (dec : Discrete K) where
  unfoldable pub find : K → List (K × V) → Option V
  find k [] = none
  find k ((j, v) ∷ m) = ite (dec j k) (some v) (find k m)

  -- `insert_or_assign`.
  unfoldable pub assign : K → V → List (K × V) → List (K × V)
  assign k v [] = (k, v) ∷ []
  assign k v ((j, w) ∷ m) = ite (dec j k) ((k, v) ∷ m) ((j, w) ∷ assign k v m)

  unfoldable pub erase : K → List (K × V) → List (K × V)
  erase k [] = []
  erase k ((j, w) ∷ m) = ite (dec j k) (erase k m) ((j, w) ∷ erase k m)

  -- No key occurs twice.
  abbrev pub Distinct : List (K × V) → Type ℓ
  Distinct [] = Unit
  Distinct ((k, v) ∷ m) = (find k m ≡ none) × Distinct m

  pub find-assign :
      (j k : K) (v : V) (m : List (K × V))
      → find j (assign k v m) ≡ ite (dec k j) (some v) (find j m)
  unfolding find assign
  find-assign j k v [] = refl
  find-assign j k v ((i, w) ∷ m) = ground (arith, find-assign j k v m)

  pub find-erase : (j k : K) (m : List (K × V)) → find j (erase k m) ≡ ite (dec k j) none (find j m)
  unfolding find erase
  find-erase j k [] = ground arith
  find-erase j k ((i, w) ∷ m) = ground (arith, find-erase j k m)

  -- Nothing is lost where the key is not there.
  pub erase-none : (k : K) (m : List (K × V)) → find k m ≡ none → erase k m ≡ m
  unfolding find erase
  erase-none k [] h = refl
  erase-none k ((i, w) ∷ m) h = ground (arith, erase-none k m)

  pub assign-Distinct : (k : K) (v : V) (m : List (K × V)) → Distinct m → Distinct (assign k v m)
  unfolding find assign
  assign-Distinct k v [] d = (refl, tt)
  assign-Distinct k v ((i, w) ∷ m) d =
      ground (arith, assign-Distinct k v m d.1, find-assign i k v m)

  pub erase-Distinct : (k : K) (m : List (K × V)) → Distinct m → Distinct (erase k m)
  unfolding find erase
  erase-Distinct k [] d = tt
  erase-Distinct k ((i, w) ∷ m) d = ground (arith, erase-Distinct k m d.1, find-erase i k m)

  pub length-assign :
      (k : K) (v : V) (m : List (K × V))
      → length (assign k v m) ≡ (if is_some (find k m) then length m else suc (length m))
  unfolding find assign
  length-assign k v [] = refl
  length-assign k v ((i, w) ∷ m) = ground (arith, length-assign k v m)

-- What a read after a write, or after a removal, found.
module _ {ℓ} {V : Type ℓ} {P : Type 0} where
  pub ite-some_split :
      (d : Dec P) (v w : V) (o : Option V)
      → ite d (some v) o ≡ some w
      → (P × (v ≡ w)) ⊎ ((¬ P) × (o ≡ some w))
  ite-some_split (yes p) v w o h = inl (p, ground arith)
  ite-some_split (no n) v w o h = inr (n, h)

  pub ite-none_split :
      (d : Dec P) (w : V) (o : Option V) → ite d none o ≡ some w → (¬ P) × (o ≡ some w)
  ite-none_split (yes p) w o h = absurd (ground arith)
  ite-none_split (no n) w o h = (n, h)
