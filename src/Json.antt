-- ===== src/Json.antt =====
-- The class `JsonScanner` of src/control_protocol.cpp, from which both parsers of the control

-- protocol derive. A scanner takes the input that is left and returns what is left after it; each
-- failure of the source sets `error_` just before it returns, so that the error is the result.
pub mod Loops
pub mod Shrinking
pub mod Members
pub mod Strings
pub mod Numbers
use packet_switch.Prelude.{
  ℕ, zero, suc, ◌+◌, ◌-◌, ◌*◌, ◌/◌, ◌%◌, ◌^◌, ◌≡◌, refl, ◌≢◌, Bool, true, false, ◌&&◌, ◌||◌, Option,
  none, some, List, [], ◌∷◌, ◌++◌, ◌==◌, ltb, leb, if◌then◌else◌, Expected, ok, unexpected, length,
  bit_or, bit_and,
}
use packet_switch.Prelude.Texts.{Text, ascii}

pub data ControlParseError : Type 0 where
  malformed_json invalid_field missing_required_field : ControlParseError

abbrev pub Scanned : Type 0 → Type 0
Scanned A = Expected (A × Text) ControlParseError

abbrev pub Scanner : Type 0 → Type 0
Scanner A = Text → Scanned A

-- The result of one scanner passed to the next.
unfoldable pub follow : {A B : Type 0} → Scanned A → (A → Scanner B) → Scanned B
follow (ok (a, rest)) f = f a rest
follow (unexpected e) f = unexpected e

infixl 5 ◌>>=◌ ◌>>◌
abbrev pub ◌>>=◌ : {A B : Type 0} → Scanner A → (A → Scanner B) → Scanner B
◌>>=◌ m f t = follow (m t) f

abbrev pub ◌>>◌ : {A B : Type 0} → Scanner A → Scanner B → Scanner B
m >> k = m >>= λ _. k

abbrev pub pure : {A : Type 0} → A → Scanner A
pure a t = ok (a, t)

abbrev pub reject : {A : Type 0} → ControlParseError → Scanner A
reject e t = unexpected e

-- A loop of the source over the input. A round either repeats it in a new state or leaves it.
pub data Round (S R : Type 0) : Type 0 where
  again : S → Round S R
  finished : R → Round S R

-- Each round is bound to be made only where the one before it asks for it. Running out of fuel is
-- the end of the input.
unfoldable pub repeat : {S R : Type 0} → (S → Scanner (Round S R)) → ℕ → S → Scanner R
repeat body zero s t = unexpected malformed_json
repeat body (suc fuel) s t = elim (body s t) [
  | ok (round, rest) ↦ elim round [
    | again s' ↦ repeat body fuel s' rest
    | finished r ↦ ok (r, rest)
  ]
  | unexpected e ↦ unexpected e
]

is_whitespace : ℕ → Bool
is_whitespace c = c == b' ' || c == b'\n' || c == b'\r' || c == b'\t'

unfoldable pub skip_whitespace : Text → Text
unfolding is_whitespace
skip_whitespace [] = []
skip_whitespace (c ∷ t) = if is_whitespace c then skip_whitespace t else c ∷ t

unfoldable pub expect_head : ℕ → Scanner (Unit {0})
expect_head expected [] = unexpected malformed_json
expect_head expected (c ∷ t) = if c == expected then ok (tt, t) else unexpected malformed_json

unfoldable pub consume : ℕ → Scanner (Unit {0})
unfolding expect_head skip_whitespace
consume expected t = expect_head expected (skip_whitespace t)

-- `if (consume(expected))`: a miss leaves the position behind the whitespace.
unfoldable pub accept : ℕ → Scanner Bool
unfolding consume skip_whitespace
accept expected t = elim (consume expected t) [
  | ok (_, rest) ↦ ok (true, rest)
  | unexpected _ ↦ ok (false, skip_whitespace t)
]

unfoldable pub hex_digit_value : ℕ → Option ℕ
hex_digit_value c =
    if leb b'0' c && leb c b'9'
    then some (c - b'0')
    else if leb b'a' c && leb c b'f'
    then some (c - b'a' + 10)
    else if leb b'A' c && leb c b'F'
    then some (c - b'A' + 10)
    else none

unfoldable pub read_hex_from : ℕ → ℕ → Scanner ℕ
unfolding hex_digit_value
read_hex_from zero value t = ok (value, t)
read_hex_from (suc digits) value [] = unexpected malformed_json
read_hex_from (suc digits) value (c ∷ t) = elim (hex_digit_value c) [
  | none ↦ unexpected malformed_json
  | some digit ↦ read_hex_from digits (value * 16 % 2 ^ 32 + digit) t
]

-- Four digits; the shift leaves the four bits free that a digit is put into.
unfoldable pub read_hex : Scanner ℕ
unfolding read_hex_from
read_hex = read_hex_from 4 0

unfoldable pub utf8 : ℕ → Text
utf8 point =
    if leb point 0x7F
    then point ∷ []
    else if leb point 0x7FF
    then bit_or 0xC0 (point / 2 ^ 6) ∷ bit_or 0x80 (bit_and point 0x3F) ∷ []
    else if leb point 0xFFFF
    then bit_or 0xE0 (point / 2 ^ 12)
      ∷ bit_or 0x80 (bit_and (point / 2 ^ 6) 0x3F)
      ∷ bit_or 0x80 (bit_and point 0x3F)
      ∷ []
    else bit_or 0xF0 (point / 2 ^ 18)
      ∷ bit_or 0x80 (bit_and (point / 2 ^ 12) 0x3F)
      ∷ bit_or 0x80 (bit_and (point / 2 ^ 6) 0x3F)
      ∷ bit_or 0x80 (bit_and point 0x3F)
      ∷ []

-- The second half of a surrogate pair: `\u` and a low surrogate.
unfoldable pub low_surrogate : Scanner ℕ
unfolding follow read_hex
low_surrogate [] = unexpected malformed_json
low_surrogate (c ∷ []) = unexpected malformed_json
low_surrogate (c ∷ d ∷ t) =
    if c == b'\\' && d == b'u'
    then (do
      low ← read_hex
      if ltb low 0xDC00 || ltb 0xDFFF low then reject malformed_json else pure low)
        t
    else unexpected malformed_json

-- The case `'u'` of `read_string`: the bytes of the code point.
unfoldable pub read_code_point : Scanner Text
unfolding follow read_hex utf8 low_surrogate
read_code_point = do
  point ← read_hex
  if leb 0xD800 point && leb point 0xDBFF
      then (do
        low ← low_surrogate
        pure (utf8 (0x10000 + (point - 0xD800) * 2 ^ 10 + (low - 0xDC00))))
      else if leb 0xDC00 point && leb point 0xDFFF
      then reject malformed_json
      else pure (utf8 point)

-- The `switch` on the character behind a backslash.
unfoldable pub read_escape : Scanner Text
unfolding follow read_code_point
read_escape [] = unexpected malformed_json
read_escape (c ∷ t) =
    if c == b'"'
    then ok (b'"' ∷ [], t)
    else if c == b'\\'
    then ok (b'\\' ∷ [], t)
    else if c == b'/'
    then ok (b'/' ∷ [], t)
    else if c == b'b'
    then ok (8 ∷ [], t)
    else if c == b'f'
    then ok (12 ∷ [], t)
    else if c == b'n'
    then ok (10 ∷ [], t)
    else if c == b'r'
    then ok (13 ∷ [], t)
    else if c == b't'
    then ok (9 ∷ [], t)
    else if c == b'u'
    then read_code_point t
    else unexpected malformed_json

-- One round of the loop of `read_string`; the loop's end is the end of the input.
unfoldable pub read_character : Text → Scanner (Round Text Text)
unfolding follow read_escape
read_character output [] = unexpected malformed_json
read_character output (c ∷ t) =
    if c == b'"'
    then ok (finished output, t)
    else if ltb c 0x20
    then unexpected malformed_json
    else if c == b'\\'
    then (do bytes ← read_escape; pure (again (output ++ bytes))) t
    else ok (again (output ++ c ∷ []), t)

unfoldable pub read_characters : Scanner Text
unfolding repeat read_character
read_characters t = repeat read_character (suc (length t)) [] t

unfoldable pub read_string : Scanner Text
unfolding follow consume read_characters
read_string = do consume b'"'; read_characters

abbrev pub is_digit : ℕ → Bool
is_digit c = leb b'0' c && leb c b'9'

-- The loop of `read_uint` for an integer type with the given largest value.
unfoldable pub read_digits : ℕ → ℕ → Scanner ℕ
read_digits largest value [] = ok (value, [])
read_digits largest value (c ∷ t) =
    if is_digit c
    then if ltb ((largest - (c - b'0')) / 10) value
      then unexpected invalid_field
      else read_digits largest (value * 10 + (c - b'0')) t
    else ok (value, c ∷ t)

unfoldable pub starts_with_digit : Text → Bool
starts_with_digit [] = false
starts_with_digit (c ∷ t) = is_digit c

unfoldable pub read_uint : ℕ → Scanner ℕ
unfolding skip_whitespace read_digits starts_with_digit
read_uint largest t =
    let digits = skip_whitespace t in
    if starts_with_digit digits then read_digits largest 0 digits else unexpected invalid_field

-- What follows a text at the front of the input.
unfoldable pub after : Text → Text → Option Text
after [] t = some t
after (c ∷ prefix) [] = none
after (c ∷ prefix) (d ∷ t) = if c == d then after prefix t else none

unfoldable pub read_bool : Scanner Bool
unfolding skip_whitespace after
read_bool t = elim (after (ascii "true") (skip_whitespace t)) [
  | some rest ↦ ok (true, rest)
  | none ↦ elim (after (ascii "false") (skip_whitespace t)) [
    | some rest ↦ ok (false, rest)
    | none ↦ unexpected invalid_field
  ]
]

-- One round of the loop that reads the members of an object: the key, the colon, what the parser
-- does with the member, and the brace or the comma behind it.
unfoldable pub member_round : {S : Type 0} → (Text → S → Scanner S) → S → Scanner (Round S S)
unfolding follow read_string accept
member_round member s = do
  key ← read_string
  consume b':'
  s' ← member key s
  closed ← accept b'}'
  if closed then pure (finished s') else (do consume b','; pure (again s'))

unfoldable pub read_members : {S : Type 0} → (Text → S → Scanner S) → S → Scanner S
unfolding repeat member_round
read_members member s t = repeat (member_round member) (suc (length t)) s t
