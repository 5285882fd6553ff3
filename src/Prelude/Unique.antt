-- ===== src/Prelude/Unique.antt =====
-- Lists of texts without repetition, and the set of those that a loop has seen.
use packet_switch.Prelude.{◌≡◌, refl, ◌↔◌, true, List, [], ◌∷◌, All, any_of, arith}
use packet_switch.Prelude.Sorting.{IsIn}
use packet_switch.Prelude.Texts.{Text, text_eq, is_empty}

abbrev pub Unique : List Text → Type 0
Unique [] = Unit
Unique (x ∷ xs) = (¬ IsIn x xs) × Unique xs

-- No element was seen before.
abbrev pub Apart : List Text → List Text → Type 0
Apart xs seen = All (λ x. ¬ IsIn x seen) xs

pub Apart-cons :
    (x : Text) (xs seen : List Text) → Apart xs (x ∷ seen) ↔ ((¬ IsIn x xs) × Apart xs seen)
Apart-cons x [] seen = ((λ h. ((λ e. e), tt)), λ h. tt)
Apart-cons x (y ∷ xs) seen = ground (arith, Apart-cons x xs seen)

pub Apart-nil : (xs : List Text) → Apart xs []
Apart-nil [] = tt
Apart-nil (x ∷ xs) = ((λ h. h), Apart-nil xs)

pub member_iff : (t : Text) (xs : List Text) → (any_of (text_eq t) xs ≡ true) ↔ IsIn t xs
member_iff t [] = (λ h. cc, λ h. absurd h)
member_iff t (x ∷ xs) = ground (arith, member_iff t xs)

pub is_empty_iff : (t : Text) → (is_empty t ≡ true) ↔ (t ≡ [])
is_empty_iff [] = (λ h. refl, λ h. refl)
is_empty_iff (x ∷ t) = (λ h. cc, λ h. cc)
