-- ===== src/Json/Shrinking.antt =====
-- How much input each scanner leaves.
use packet_switch.Json.Loops.{Below, Below-mono, follow-Below, Consumes, repeat-Below}
use packet_switch.Prelude.{
  ℕ, Bool, suc, length, if◌then◌else◌, ◌≤◌, ◌∷◌, arith, Expected-cases, Option-cases, [], true, inl,
  ◌==◌, Bool-cases, ◌&&◌, false, ◌<◌, inr, ◌*◌, ◌%◌, ◌^◌, ◌+◌, zero, ltb, leb, ◌||◌, ◌≡◌, ◌-◌, some,
  ◌/◌,
}
use packet_switch.Json.{
  read_hex, low_surrogate, expect_head, read_hex_from, consume, skip_whitespace, accept, Scanned,
  hex_digit_value, read_code_point, Scanner, member_round, read_string, read_bool, read_uint,
  read_escape, read_digits, read_character, after, starts_with_digit, is_digit, read_characters,
}
use packet_switch.Prelude.Texts.{Text, ascii}

length-skip_whitespace : (t : Text) → length (skip_whitespace t) ≤ length t
unfolding skip_whitespace
length-skip_whitespace [] = omega arith
length-skip_whitespace (c ∷ t) = ground (arith, length-skip_whitespace t)

expect_head-Below : (c : ℕ) (t : Text) → Below (length t) (expect_head c t)
unfolding expect_head
expect_head-Below c [] = tt
expect_head-Below c (d ∷ t) = elim (Bool-cases (d == c)) [
  | inl e ↦ rw e (omega arith)
  | inr e ↦ rw e tt
]

pub consume-Below : (c : ℕ) (t : Text) → Below (length t) (consume c t)
unfolding consume
consume-Below c t =
    Below-mono (expect_head c (skip_whitespace t)) (length-skip_whitespace t)
      (expect_head-Below c (skip_whitespace t))

pub accept_lem : (c : ℕ) (t : Text) → Below (suc (length t)) (accept c t)
unfolding accept
accept_lem c t = elim (Expected-cases (consume c t)) [
  | inl ((u, rest), e) ↦
      let below : length rest < length t = rw e at (consume-Below c t) in
      rw (e, accept) (omega arith)
  | inr (x, e) ↦ rw (e, accept) (omega (arith, length-skip_whitespace t))
]

read_hex_from-Below :
    (digits value : ℕ) (t : Text) → Below (suc (length t)) (read_hex_from digits value t)
unfolding read_hex_from
read_hex_from-Below zero value t = omega arith
read_hex_from-Below (suc digits) value [] = tt
read_hex_from-Below (suc digits) value (c ∷ t) = elim (Option-cases (hex_digit_value c)) [
  | inl e ↦ rw (e, read_hex_from) tt
  | inr (d, e) ↦
      rw (e, read_hex_from)
        (Below-mono (read_hex_from digits (value * 16 % 2 ^ 32 + d) t) (omega arith)
          (read_hex_from-Below digits (value * 16 % 2 ^ 32 + d) t))
]

read_hex-Below : (t : Text) → Below (suc (length t)) (read_hex t)
unfolding read_hex
read_hex-Below t = read_hex_from-Below 4 0 t

pub if-Below :
    {A : Type 0} (bound : ℕ) (b : Bool) (x y : Scanned A)
    → Below bound x
    → Below bound y
    → Below bound (if b then x else y)
if-Below bound true x y below other = below
if-Below bound false x y below other = other

pub choice-Below :
    {A : Type 0} (bound : ℕ) (b : Bool) (x y : Scanner A) (t : Text)
    → Below bound (x t)
    → Below bound (y t)
    → Below bound ((if b then x else y) t)
choice-Below bound true x y t below other = below
choice-Below bound false x y t below other = other

low_surrogate-Below : (t : Text) → Below (suc (length t)) (low_surrogate t)
unfolding low_surrogate
low_surrogate-Below [] = tt
low_surrogate-Below (c ∷ []) = tt
low_surrogate-Below (c ∷ d ∷ t) =
    if-Below _ (c == b'\\' && d == b'u') _ _
      (follow-Below (read_hex t) _ (Below-mono (read_hex t) (omega arith) (read_hex-Below t))
        (λ low rest h. choice-Below _ (ltb low 0xDC00 || ltb 0xDFFF low) _ _ rest tt h))
      tt

read_code_point-Below : (t : Text) → Below (suc (length t)) (read_code_point t)
unfolding read_code_point
read_code_point-Below t = follow-Below (read_hex t) _ (read_hex-Below t) (λ point rest h.
    choice-Below _ (leb 0xD800 point && leb point 0xDBFF) _ _ rest
      (follow-Below (low_surrogate rest) _
        (Below-mono (low_surrogate rest) (omega arith) (low_surrogate-Below rest))
        (λ low rest' h'. h'))
      (choice-Below _ (leb 0xDC00 point && leb point 0xDFFF) _ _ rest tt h))

read_escape-Below : (t : Text) → Below (suc (length t)) (read_escape t)
unfolding read_escape
read_escape-Below [] = tt
read_escape-Below (c ∷ t) = if-Below _ (c == b'"') _ _ (omega arith) (
    if-Below _ (c == b'\\') _ _ (omega arith) (
      if-Below _ (c == b'/') _ _ (omega arith) (
        if-Below _ (c == b'b') _ _ (omega arith) (
          if-Below _ (c == b'f') _ _ (omega arith) (
            if-Below _ (c == b'n') _ _ (omega arith) (
              if-Below _ (c == b'r') _ _ (omega arith) (
                if-Below _ (c == b't') _ _ (omega arith) (
                  if-Below _ (c == b'u') _ _
                    (Below-mono (read_code_point t) (omega arith) (read_code_point-Below t))
                    tt))))))))

pub read_character-Consumes : Consumes read_character
unfolding read_character
read_character-Consumes output [] = tt
read_character-Consumes output (c ∷ t) = if-Below _ (c == b'"') _ _ (omega arith) (
    if-Below _ (ltb c 0x20) _ _ tt (
      if-Below _ (c == b'\\') _ _
        (follow-Below (read_escape t) _ (read_escape-Below t) (λ bytes rest h. h)) (omega arith)))

pub read_string-Below : (t : Text) → Below (length t) (read_string t)
unfolding read_string
read_string-Below t =
    follow-Below (consume b'"' t) _ (consume-Below b'"' t)
      (λ _ rest h. Below-mono (read_characters rest) (omega arith) (characters rest))
  where
    characters : (t : Text) → Below (suc (length t)) (read_characters t)
    characters t = repeat-Below read_character read_character-Consumes (suc (length t)) [] t

read_digits-Below :
    (largest value : ℕ) (t : Text) → Below (suc (length t)) (read_digits largest value t)
unfolding read_digits
read_digits-Below largest value [] = omega arith
read_digits-Below largest value (c ∷ t) =
    if-Below _ (is_digit c) _ _
      (if-Below _ (ltb ((largest - (c - b'0')) / 10) value) _ _ tt (
        Below-mono (read_digits largest (value * 10 + (c - b'0')) t) (omega arith)
          (read_digits-Below largest (value * 10 + (c - b'0')) t)))
      (omega arith)

pub read_uint-Below : (largest : ℕ) (t : Text) → Below (suc (length t)) (read_uint largest t)
unfolding read_uint
read_uint-Below largest t =
    let digits = skip_whitespace t in
    if-Below _ (starts_with_digit digits) _ _
      (Below-mono (read_digits largest 0 digits) (omega (arith, length-skip_whitespace t))
        (read_digits-Below largest 0 digits))
      tt

length-after : (prefix t rest : Text) → after prefix t ≡ some rest → length rest ≤ length t
unfolding after
length-after [] t rest h = ground arith
length-after (c ∷ prefix) [] rest h = cc
length-after (c ∷ prefix) (d ∷ t) rest h = ground (arith, length-after prefix t rest)

pub read_bool-Below : (t : Text) → Below (suc (length t)) (read_bool t)
unfolding read_bool
read_bool-Below t = elim (Option-cases (after (ascii "true") (skip_whitespace t))) [
  | inr (rest, e) ↦
      let fewer = length-after (ascii "true") (skip_whitespace t) rest e in
      rw (e, read_bool) (omega (arith, length-skip_whitespace t))
  | inl e ↦ elim (Option-cases (after (ascii "false") (skip_whitespace t))) [
    | inr (rest, f) ↦
        let fewer = length-after (ascii "false") (skip_whitespace t) rest f in
        rw (e, read_bool) (rw (f, read_bool) (omega (arith, length-skip_whitespace t)))
    | inl f ↦ rw (e, read_bool) (rw (f, read_bool) tt)
  ]
]

-- A member that does not lengthen the input makes a round that shortens it.
pub member_round-Consumes :
    {S : Type 0} (member : Text → S → Scanner S)
    → ((key : Text) (s : S) (t : Text) → Below (suc (length t)) (member key s t))
    → Consumes (member_round member)
unfolding member_round
member_round-Consumes member bounded s t =
    follow-Below (read_string t) _ (read_string-Below t) (λ key u h.
      follow-Below (consume b':' u) _
        (Below-mono (consume b':' u) (omega arith) (consume-Below b':' u))
        (λ _ v k.
          follow-Below (member key s v) _
            (Below-mono (member key s v) (omega arith) (bounded key s v))
            (λ s' w l.
              follow-Below (accept b'}' w) _
                (Below-mono (accept b'}' w) (omega arith) (accept_lem b'}' w))
                (λ closed x m. choice-Below _ closed _ _ x m (
                  follow-Below (consume b',' x) _
                    (Below-mono (consume b',' x) (omega arith) (consume-Below b',' x))
                    (λ _ y n. n))))))
