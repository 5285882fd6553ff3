-- ===== src/Prelude/Decimal.antt =====
-- `std::to_string` of an unsigned number, and that its text determines the number.
use native.Mathlib.Omega.{arith}
use packet_switch.Prelude.{
  ℕ, zero, suc, ◌+◌, ◌-◌, ◌*◌, ◌/◌, ◌%◌, ◌<◌, ◌≡◌, refl, ◌≢◌, ap, [], ◌∷◌, ◌++◌, ltb, if◌then◌else◌,
  All, All-append, Bool-cases, inl, inr,
}
use packet_switch.Prelude.Texts.{Text}

-- Each division by ten falls below the fuel.
unfoldable pub decimal_upto : ℕ → ℕ → Text
decimal_upto zero n = []
decimal_upto (suc fuel) n =
    let rest = decimal_upto fuel (n / 10) in
    if ltb n 10 then (b'0' + n) ∷ [] else rest ++ (b'0' + n % 10) ∷ []

unfoldable pub decimal : ℕ → Text
unfolding decimal_upto
decimal n = decimal_upto (suc n) n

decimal_runs : decimal 40960 ≡ b'4' ∷ b'0' ∷ b'9' ∷ b'6' ∷ b'0' ∷ []
unfolding decimal
decimal_runs = refl

value_from : ℕ → Text → ℕ
value_from acc [] = acc
value_from acc (c ∷ t) = value_from (acc * 10 + (c - b'0')) t

value_from-snoc :
    (acc : ℕ) (t : Text) (c : ℕ) → value_from acc (t ++ c ∷ []) ≡ value_from acc t * 10 + (c - b'0')
unfolding value_from
value_from-snoc acc [] c = refl
value_from-snoc acc (d ∷ t) c = value_from-snoc (acc * 10 + (d - b'0')) t c

value-decimal_upto : (fuel n : ℕ) → n < fuel → value_from 0 (decimal_upto fuel n) ≡ n
unfolding decimal_upto value_from
value-decimal_upto zero n h = absurd (omega arith)
value-decimal_upto (suc fuel) n h = elim (Bool-cases (ltb n 10)) [
  | inl small ↦ rw small (omega arith)
  | inr large ↦ rw (large, value_from-snoc) (ground (arith, value-decimal_upto fuel (n / 10)))
]

-- Numbers with one text are equal.
pub decimal_injective : (m n : ℕ) → decimal m ≡ decimal n → m ≡ n
unfolding decimal
decimal_injective m n h = omega (
  arith,
  value-decimal_upto (suc m) m (omega arith),
  value-decimal_upto (suc n) n (omega arith),
  ap (value_from 0) h,
)

-- No digit is a colon.
decimal_upto-digits : (fuel n : ℕ) → All (λ c. c ≢ b':') (decimal_upto fuel n)
unfolding decimal_upto
decimal_upto-digits zero n = tt
decimal_upto-digits (suc fuel) n = elim (Bool-cases (ltb n 10)) [
  | inl small ↦ rw small ((ground arith), tt)
  | inr large ↦ rw large (
      All-append (λ c. c ≢ b':') (decimal_upto fuel (n / 10)) ((b'0' + n % 10) ∷ [])
        (decimal_upto-digits fuel (n / 10), (omega arith, tt)))
]

pub decimal-digits : (n : ℕ) → All (λ c. c ≢ b':') (decimal n)
unfolding decimal
decimal-digits n = decimal_upto-digits (suc n) n

-- A text without a colon before a colon can be split off again.
pub colon_injective :
    (s t u v : Text)
    → All (λ c. c ≢ b':') s
    → All (λ c. c ≢ b':') t
    → s ++ b':' ∷ u ≡ t ++ b':' ∷ v
    → (s ≡ t) × (u ≡ v)
colon_injective [] [] u v h k e = ground arith
colon_injective [] (y ∷ t) u v h k e = ground arith
colon_injective (x ∷ s) [] u v h k e = ground arith
colon_injective (x ∷ s) (y ∷ t) u v h k e = ground (arith, colon_injective s t u v h.1 k.1)
