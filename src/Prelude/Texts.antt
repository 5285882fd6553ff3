-- ===== src/Prelude/Texts.antt =====
-- Byte strings: `std::string`, `std::string_view` and byte vectors, as lists of byte values.
use Prim.Native.Nat.{ℕ}
use Prim.Native.Char.{code}
use Prim.Native.String.{String}
use mathlib.Core.Path.{◌≡◌, refl}
use mathlib.Core.Bool.{Bool, true, false}
use mathlib.Core.List.{List, [], ◌∷◌}
use native.Mathlib.Decide.{ℕ_discrete}
use native.Mathlib.Omega.{arith}
use packet_switch.Prelude.Tests.{ltb, if◌then◌else◌, holds}

abbrev pub Text : Type 0
Text = List ℕ

unfoldable pub text_discrete : Discrete Text
unfolding ℕ_discrete
text_discrete = hlevel ℕ_discrete

abbrev pub text_eq : Text → Text → Bool
text_eq s t = holds (text_discrete s t)

abbrev pub is_empty {ℓ} : {A : Type ℓ} → List A → Bool
is_empty [] = true
is_empty (_ ∷ _) = false

-- `operator<` of `std::string` and of byte arrays: lexicographic on unsigned bytes.
unfoldable pub text_lt : Text → Text → Bool
text_lt s [] = false
text_lt [] (y ∷ t) = true
text_lt (x ∷ s) (y ∷ t) = if ltb x y then true else if ltb y x then false else text_lt s t

-- The bytes of an ASCII literal of the source.
abbrev pub ascii : String → Text
ascii String.[] = []
ascii (String.◌∷◌ c s) = code c ∷ ascii s

-- The order is strict and total: what `std::sort` and the ordered containers ask of it.
pub text_lt_irrefl : (s : Text) → text_lt s s ≡ false
unfolding text_lt
text_lt_irrefl [] = refl
text_lt_irrefl (x ∷ s) = ground (arith, text_lt_irrefl s)

pub text_lt_trans : (r s t : Text) → text_lt r s ≡ true → text_lt s t ≡ true → text_lt r t ≡ true
unfolding text_lt
text_lt_trans r [] t h k = cc
text_lt_trans [] (y ∷ s) [] h k = cc
text_lt_trans [] (y ∷ s) (z ∷ t) h k = refl
text_lt_trans (x ∷ r) (y ∷ s) [] h k = cc
text_lt_trans (x ∷ r) (y ∷ s) (z ∷ t) h k = ground (arith, text_lt_trans r s t)

pub text_lt_total : (s t : Text) → text_lt s t ≡ false → text_lt t s ≡ false → s ≡ t
unfolding text_lt
text_lt_total [] [] h k = refl
text_lt_total [] (y ∷ t) h k = cc
text_lt_total (x ∷ s) [] h k = cc
text_lt_total (x ∷ s) (y ∷ t) h k = ground (arith, text_lt_total s t)

text_eq_test : text_eq (ascii "port:2") (ascii "port:2") ≡ true
unfolding text_discrete
text_eq_test = refl

text_ne_test : text_eq (ascii "port:2") (ascii "port:3") ≡ false
unfolding text_discrete
text_ne_test = refl

pub text_lt_asym : (s t : Text) → text_lt s t ≡ true → text_lt t s ≡ false
unfolding text_lt
text_lt_asym s [] h = cc
text_lt_asym [] (y ∷ t) h = refl
text_lt_asym (x ∷ s) (y ∷ t) h = ground (arith, text_lt_asym s t)

not_text_lt_nil : (t : Text) → text_lt t [] ≡ false
unfolding text_lt
not_text_lt_nil [] = refl
not_text_lt_nil (z ∷ t) = refl

-- What is not less is greater or equal, which is transitive.
pub not_text_lt_trans :
    (r s t : Text) → text_lt s r ≡ false → text_lt t s ≡ false → text_lt t r ≡ false
unfolding text_lt
not_text_lt_trans [] s t h k = not_text_lt_nil t
not_text_lt_trans (x ∷ r) [] t h k = cc
not_text_lt_trans (x ∷ r) (y ∷ s) [] h k = cc
not_text_lt_trans (x ∷ r) (y ∷ s) (z ∷ t) h k = ground (arith, not_text_lt_trans r s t)
