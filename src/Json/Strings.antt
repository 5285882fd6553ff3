-- ===== src/Json/Strings.antt =====
-- `json_string` of src/control_protocol.cpp, and what it prints in the scanner.
use mathlib.Core.List.{append-nil, append_assoc}
use packet_switch.Json.Loops.{Runs, leaves, stays, Runs-repeat}
use packet_switch.Prelude.Texts.{Text}
use packet_switch.Json.{
  read_character, read_code_point, hex_digit_value, read_hex, follow, again, read_hex_from,
  read_string, finished,
}
use packet_switch.Prelude.{
  ℕ, ◌∷◌, ◌/◌, ◌<◌, if◌then◌else◌, ◌++◌, ◌==◌, ◌≡◌, ◌%◌, ltb, ◌+◌, [], some, ok, arith, ◌-◌,
  Bool-cases, inl, ==_iff, inr, refl, suc, length,
}
use packet_switch.Json.Shrinking.{read_character-Consumes}

hex_digit : ℕ → ℕ
hex_digit d = if ltb d 10 then b'0' + d else b'a' + (d - 10)

-- `std::hex` with `std::setw(4)` and `std::setfill('0')`, of a number below 16 ^ 4.
hex4 : ℕ → Text
unfolding hex_digit
hex4 n =
    hex_digit (n / 4096 % 16)
    ∷ hex_digit (n / 256 % 16)
    ∷ hex_digit (n / 16 % 16)
    ∷ hex_digit (n % 16)
    ∷ []

-- The `switch` on each character.
unfoldable pub escaped : ℕ → Text
unfolding hex4
escaped c =
    if c == b'"'
    then b'\\' ∷ b'"' ∷ []
    else if c == b'\\'
    then b'\\' ∷ b'\\' ∷ []
    else if c == 8
    then b'\\' ∷ b'b' ∷ []
    else if c == 12
    then b'\\' ∷ b'f' ∷ []
    else if c == 10
    then b'\\' ∷ b'n' ∷ []
    else if c == 13
    then b'\\' ∷ b'r' ∷ []
    else if c == 9
    then b'\\' ∷ b't' ∷ []
    else if ltb c 0x20
    then b'\\' ∷ b'u' ∷ hex4 c
    else c ∷ []

unfoldable pub json_characters : Text → Text
unfolding escaped
json_characters [] = b'"' ∷ []
json_characters (c ∷ t) = escaped c ++ json_characters t

unfoldable pub json_string : Text → Text
unfolding json_characters
json_string value = b'"' ∷ json_characters value

hex_digit_value-hex_digit : (d : ℕ) → d < 16 → hex_digit_value (hex_digit d) ≡ some d
unfolding hex_digit_value hex_digit
hex_digit_value-hex_digit d h = ground arith

read_hex-hex4 : (n : ℕ) (rest : Text) → n < 65536 → read_hex (hex4 n ++ rest) ≡ ok (n, rest)
unfolding read_hex hex4
read_hex-hex4 n rest h =
    rw (hex_digit_value-hex_digit (n / 4096 % 16) (omega arith), read_hex_from)
      (rw (hex_digit_value-hex_digit (n / 256 % 16) (omega arith), read_hex_from)
        (rw (hex_digit_value-hex_digit (n / 16 % 16) (omega arith), read_hex_from)
          (rw (hex_digit_value-hex_digit (n % 16) (omega arith), read_hex_from) (ground arith))))

-- A control character that is printed by its number.
read_code_point-hex4 :
    (c : ℕ) (rest : Text) → c < 0x20 → read_code_point (hex4 c ++ rest) ≡ ok (c ∷ [], rest)
unfolding read_code_point
read_code_point-hex4 c rest h = rw (read_hex-hex4 c rest (omega arith), follow) (ground arith)

-- An escaped character is read as itself.
read_character-escaped :
    (output : Text) (c : ℕ) (rest : Text)
    → read_character output (escaped c ++ rest) ≡ ok (again (output ++ c ∷ []), rest)
unfolding read_character escaped follow
read_character-escaped output c rest = elim (Bool-cases (c == b'"')) [
  | inl e ↦ rw ((==_iff c b'"').0 e) refl
  | inr not_quote ↦ elim (Bool-cases (c == b'\\')) [
    | inl e ↦ rw ((==_iff c b'\\').0 e) refl
    | inr not_backslash ↦ elim (Bool-cases (c == 8)) [
      | inl e ↦ rw ((==_iff c 8).0 e) refl
      | inr not_backspace ↦ elim (Bool-cases (c == 12)) [
        | inl e ↦ rw ((==_iff c 12).0 e) refl
        | inr not_page ↦ elim (Bool-cases (c == 10)) [
          | inl e ↦ rw ((==_iff c 10).0 e) refl
          | inr not_line ↦ elim (Bool-cases (c == 13)) [
            | inl e ↦ rw ((==_iff c 13).0 e) refl
            | inr not_carriage ↦ elim (Bool-cases (c == 9)) [
              | inl e ↦ rw ((==_iff c 9).0 e) refl
              | inr not_tab ↦ elim (Bool-cases (ltb c 0x20)) [
                | inl e ↦
                    rw
                      (
                        not_quote, not_backslash, not_backspace, not_page, not_line, not_carriage,
                        not_tab, e,
                      )
                      (rw (read_code_point-hex4 c rest (ground arith), follow) refl)
                | inr e ↦
                    rw
                      (
                        not_quote, not_backslash, not_backspace, not_page, not_line, not_carriage,
                        not_tab, e,
                      )
                      (rw (not_quote, e, not_backslash) refl)
              ]
            ]
          ]
        ]
      ]
    ]
  ]
]

read_character-quote :
    (output rest : Text) → read_character output (b'"' ∷ rest) ≡ ok (finished output, rest)
unfolding read_character
read_character-quote output rest = refl

read_character-Runs :
    (t output rest : Text)
    → Runs read_character output (json_characters t ++ rest) (output ++ t) rest
unfolding json_characters
read_character-Runs [] output rest = leaves (rw append-nil (read_character-quote output rest))
read_character-Runs (c ∷ t) output rest =
    let one = read_character-escaped output c (json_characters t ++ rest) in
    let others = read_character-Runs t (output ++ c ∷ []) rest in
    stays (rw append_assoc one) (rw append_assoc at others)

-- The scanner reads back a printed string, whatever it holds.
pub read_string-json_string : (t rest : Text) → read_string (json_string t ++ rest) ≡ ok (t, rest)
unfolding read_string json_string
read_string-json_string t rest =
    Runs-repeat read_character read_character-Consumes (suc (length (json_characters t ++ rest)))
      (read_character-Runs t [] rest) (omega arith)
