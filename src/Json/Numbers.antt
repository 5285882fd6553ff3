-- ===== src/Json/Numbers.antt =====
-- The numbers and truth values that the printers write, in the scanner.
use mathlib.Core.List.{append_assoc}
use packet_switch.Prelude.Decimal.{decimal, decimal_upto}
use packet_switch.Json.{
  read_digits, read_uint, starts_with_digit, skip_whitespace, read_bool, invalid_field, is_digit,
}
use packet_switch.Prelude.Texts.{Text, ascii}
use packet_switch.Prelude.{
  Bool, ℕ, ◌<◌, ◌++◌, ◌≡◌, if◌then◌else◌, ◌≤◌, true, arith, false, unexpected, ok, suc, ◌∷◌, refl,
  ◌∙◌, [], Bool-cases, ◌*◌, ltb, ◌+◌, inl, inr, ◌/◌, ◌%◌, zero, leb, ◌-◌,
}

decimal_upto-head :
    (fuel n : ℕ) (rest : Text) → n < fuel → starts_with_digit (decimal_upto fuel n ++ rest) ≡ true
unfolding decimal_upto starts_with_digit
decimal_upto-head zero n rest h = absurd (omega arith)
decimal_upto-head (suc fuel) n rest h = elim (Bool-cases (ltb n 10)) [
  | inl small ↦ rw small (ground arith)
  | inr large ↦
      rw (large, append_assoc)
        (decimal_upto-head fuel (n / 10) ((b'0' + n % 10) ∷ rest) (ground arith))
]

read_digits-digit :
    (largest value d v : ℕ) (rest : Text)
    → d < 10
    → value * 10 + d ≡ v
    → v ≤ largest
    → read_digits largest value ((b'0' + d) ∷ rest) ≡ read_digits largest v rest
unfolding read_digits
read_digits-digit largest value d v rest h e k =
    let same : b'0' + d - b'0' ≡ d = omega arith in
    let fits : ltb ((largest - d) / 10) value ≡ false = ground arith in
    let digit : is_digit (b'0' + d) ≡ true = ground arith in
    rw digit (rw same (rw fits (rw e refl)))

read_digits-overflow :
    (largest value d : ℕ) (rest : Text)
    → d < 10
    → 9 ≤ largest
    → largest < value * 10 + d
    → read_digits largest value ((b'0' + d) ∷ rest) ≡ unexpected invalid_field
unfolding read_digits
read_digits-overflow largest value d rest h e k =
    let same : b'0' + d - b'0' ≡ d = omega arith in
    let large : ltb ((largest - d) / 10) value ≡ true = ground arith in
    let digit : is_digit (b'0' + d) ≡ true = ground arith in rw digit (rw same (rw large refl))

read_digits-decimal_upto :
    (largest fuel n : ℕ) (rest : Text)
    → n < fuel
    → n ≤ largest
    → read_digits largest 0 (decimal_upto fuel n ++ rest) ≡ read_digits largest n rest
unfolding decimal_upto
read_digits-decimal_upto largest zero n rest h k = absurd (omega arith)
read_digits-decimal_upto largest (suc fuel) n rest h k = elim (Bool-cases (ltb n 10)) [
  | inl small ↦ rw small (read_digits-digit largest 0 n n rest (ground arith) (omega arith) k)
  | inr large ↦
      rw (large, append_assoc)
        (read_digits-decimal_upto largest fuel (n / 10) ((b'0' + n % 10) ∷ rest) (ground arith)
            (omega arith)
          ∙ read_digits-digit largest (n / 10) (n % 10) n rest (omega arith) (omega arith) k)
]

read_digits-too_large :
    (largest fuel n : ℕ) (rest : Text)
    → n < fuel
    → 9 ≤ largest
    → largest < n
    → read_digits largest 0 (decimal_upto fuel n ++ rest) ≡ unexpected invalid_field
unfolding decimal_upto
read_digits-too_large largest zero n rest h e k = absurd (omega arith)
read_digits-too_large largest (suc fuel) n rest h e k = elim (Bool-cases (ltb n 10)) [
  | inl small ↦ absurd (ground arith)
  | inr large ↦
      rw (large, append_assoc)
        (elim (Bool-cases (ltb largest (n / 10))) [
          | inl over ↦
              read_digits-too_large largest fuel (n / 10) ((b'0' + n % 10) ∷ rest) (ground arith) e
                (ground arith)
          | inr under ↦
              read_digits-decimal_upto largest fuel (n / 10) ((b'0' + n % 10) ∷ rest) (ground arith)
                (ground arith)
              ∙ read_digits-overflow largest (n / 10) (n % 10) rest (omega arith) e (omega arith)
        ])
]

skip_whitespace-digit : (t : Text) → starts_with_digit t ≡ true → skip_whitespace t ≡ t
unfolding skip_whitespace starts_with_digit
skip_whitespace-digit [] h = cc
skip_whitespace-digit (c ∷ t) h = ground arith

read_digits-end :
    (largest n : ℕ) (rest : Text)
    → starts_with_digit rest ≡ false
    → read_digits largest n rest ≡ ok (n, rest)
unfolding read_digits starts_with_digit
read_digits-end largest n [] h = refl
read_digits-end largest n (c ∷ t) h = rw h refl

-- For a type whose largest value is at least nine, the scanner reads back a printed number that
-- the type holds, where no digit follows it, and refuses any other.
pub read_uint-decimal :
    (largest n : ℕ) (rest : Text)
    → 9 ≤ largest
    → starts_with_digit rest ≡ false
    → read_uint largest (decimal n ++ rest)
      ≡ (if leb n largest then ok (n, rest) else unexpected invalid_field)
unfolding read_uint decimal
read_uint-decimal largest n rest h k =
    let head = decimal_upto-head (suc n) n rest (omega arith) in
    rw (skip_whitespace-digit (decimal_upto (suc n) n ++ rest) head, head)
      (elim (Bool-cases (leb n largest)) [
        | inl fits ↦ rw fits (
            read_digits-decimal_upto largest (suc n) n rest (omega arith) (ground arith)
            ∙ read_digits-end largest n rest k)
        | inr over ↦
            rw over (read_digits-too_large largest (suc n) n rest (omega arith) h (ground arith))
      ])

-- A number that fits is read back in front of a comma.
pub read_uint-comma :
    (largest n : ℕ) (rest : Text)
    → 9 ≤ largest
    → n ≤ largest
    → read_uint largest (decimal n ++ b',' ∷ rest) ≡ ok (n, b',' ∷ rest)
unfolding starts_with_digit
read_uint-comma largest n rest h k =
    let fits : leb n largest ≡ true = ground arith in
    rw fits at (read_uint-decimal largest n (b',' ∷ rest) h refl)

pub read_uint-brace :
    (largest n : ℕ) (rest : Text)
    → 9 ≤ largest
    → n ≤ largest
    → read_uint largest (decimal n ++ b'}' ∷ rest) ≡ ok (n, b'}' ∷ rest)
unfolding starts_with_digit
read_uint-brace largest n rest h k =
    let fits : leb n largest ≡ true = ground arith in
    rw fits at (read_uint-decimal largest n (b'}' ∷ rest) h refl)

pub bool_text : Bool → Text
bool_text b = if b then ascii "true" else ascii "false"

pub read_bool-bool_text : (b : Bool) (rest : Text) → read_bool (bool_text b ++ rest) ≡ ok (b, rest)
unfolding read_bool bool_text
read_bool-bool_text true rest = refl
read_bool-bool_text false rest = refl
