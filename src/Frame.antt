-- ===== src/Frame.antt =====
-- src/ethernet_frame.cpp and include/wirelab/ethernet_frame.hpp: MAC addresses, and the layout of
-- an Ethernet frame. A byte is a number, and a buffer the list of its bytes.
pub mod Layout
pub mod MacText
use packet_switch.Prelude.{
  ℕ, ◌+◌, ◌-◌, ◌*◌, ◌/◌, ◌%◌, ◌^◌, ◌<◌, ◌≡◌, Bool, true, false, not, ◌&&◌, ◌||◌, Option, none, some,
  List, [], ◌∷◌, ◌++◌, ◌==◌, ltb, leb, if◌then◌else◌, holds, Expected, ok, unexpected, length,
  get_or, take, drop, all_of, All, bit_or, ℕ_discrete, value_or,
}
use packet_switch.Prelude.Int.{ℤ, pos, negsuc, to_u64}
use packet_switch.Prelude.Texts.{Text}

pub record MacAddress : Type 0 where
  pub b0 : ℕ
  pub b1 : ℕ
  pub b2 : ℕ
  pub b3 : ℕ
  pub b4 : ℕ
  pub b5 : ℕ

unfoldable pub mac_discrete : Discrete MacAddress
unfolding ℕ_discrete
mac_discrete = hlevel ℕ_discrete

abbrev pub mac_eq : MacAddress → MacAddress → Bool
mac_eq a b = holds (mac_discrete a b)

abbrev pub mac_bytes : MacAddress → Text
mac_bytes m = m.b0 ∷ m.b1 ∷ m.b2 ∷ m.b3 ∷ m.b4 ∷ m.b5 ∷ []

-- `MacAddress()`.
abbrev pub zero_mac : MacAddress
zero_mac = record { b0 = 0; b1 = 0; b2 = 0; b3 = 0; b4 = 0; b5 = 0 }

abbrev pub broadcast : MacAddress
broadcast = record { b0 = 255; b1 = 255; b2 = 255; b3 = 255; b4 = 255; b5 = 255 }

-- `MacAddress(const uint8_t*)`, at the start of the buffer.
abbrev pub mac_at : Text → MacAddress
mac_at d = record {
  b0 = get_or d 0 0;
  b1 = get_or d 1 0;
  b2 = get_or d 2 0;
  b3 = get_or d 3 0;
  b4 = get_or d 4 0;
  b5 = get_or d 5 0;
}

unfoldable pub is_broadcast : MacAddress → Bool
is_broadcast m = all_of (λ b. b == 255) (mac_bytes m)

unfoldable pub is_zero : MacAddress → Bool
is_zero m = all_of (λ b. b == 0) (mac_bytes m)

-- Every byte is below 256.
abbrev pub AreBytes : Text → Type 0
AreBytes = All (λ b. b < 256)

abbrev pub hex_digit : ℕ → Option ℕ
hex_digit c =
    if leb b'0' c && leb c b'9'
    then some (c - b'0')
    else if leb b'a' c && leb c b'f'
    then some (c - b'a' + 10)
    else if leb b'A' c && leb c b'F'
    then some (c - b'A' + 10)
    else none

-- The digits of `strtol` in base 16, from a value read so far, up to the first other character.
unfoldable pub read_digits : ℕ → Text → ℕ
read_digits acc [] = acc
read_digits acc (c ∷ t) = elim (hex_digit c) [ none ↦ acc | some d ↦ read_digits (acc * 16 + d) t ]

-- At least one digit; `none` is the exception `std::invalid_argument`.
unfoldable pub read_number : Text → Option ℕ
unfolding read_digits
read_number [] = none
read_number (c ∷ t) = elim (hex_digit c) [ none ↦ none | some d ↦ some (read_digits d t) ]

abbrev is_space : ℕ → Bool
is_space c = c == b' ' || (leb 9 c && leb c 13)

abbrev negate : ℕ → ℤ
negate n = if n == 0 then pos 0 else negsuc (n - 1)

-- `std::stoi(text, nullptr, 16)` on at most two characters: spaces, a sign, digits. (A prefix "0x"
-- fills both characters, and reads as the digit 0 before it.)
unfoldable pub stoi16 : Text → Option ℤ
unfolding read_number
stoi16 [] = none
stoi16 (c ∷ t) =
    let rest = stoi16 t in
    if is_space c
    then rest
    else if c == b'-'
    then elim (read_number t) [ none ↦ none | some n ↦ some (negate n) ]
    else if c == b'+'
    then elim (read_number t) [ none ↦ none | some n ↦ some (pos n) ]
    else elim (read_number (c ∷ t)) [ none ↦ none | some n ↦ some (pos n) ]

-- One round of the loop of `from_string`: `none` where it returns `MacAddress{}`.
unfoldable pub read_octet : Text → ℕ → ℕ → Option ℕ
read_octet str delimiter i =
    if ltb 0 i && not (get_or str (i * 3 - 1) 0 == delimiter)
    then none
    else elim (stoi16 (take 2 (drop (i * 3) str))) [ none ↦ none | some z ↦ some (to_u64 z % 256) ]

infixl 5 ◌>>=◌
abbrev pub ◌>>=◌ {ℓ κ} : {A : Type ℓ} {B : Type κ} → Option A → (A → Option B) → Option B
none >>= f = none
some a >>= f = f a

read_octets : Text → ℕ → Option MacAddress
unfolding read_octet
read_octets str d = do
  b0 ← read_octet str d 0
  b1 ← read_octet str d 1
  b2 ← read_octet str d 2
  b3 ← read_octet str d 3
  b4 ← read_octet str d 4
  b5 ← read_octet str d 5
  some (record { b0 = b0; b1 = b1; b2 = b2; b3 = b3; b4 = b4; b5 = b5 })

unfoldable pub from_string : Text → MacAddress
unfolding read_octets
from_string str =
    let delimiter = get_or str 2 0 in
    if not (length str == 17)
    then zero_mac
    else if not (delimiter == b':') && not (delimiter == b'-')
    then zero_mac
    else value_or (read_octets str delimiter) zero_mac

abbrev pub hex_char : ℕ → ℕ
hex_char d = if ltb d 10 then b'0' + d else b'a' + (d - 10)

-- `std::setw(2)` with fill '0', in `std::hex`.
abbrev pub octet_text : ℕ → Text
octet_text b = hex_char (b / 16) ∷ hex_char (b % 16) ∷ []

unfoldable pub mac_to_string : MacAddress → Text
mac_to_string m =
    octet_text m.b0
    ++ (b':' ∷ octet_text m.b1
        ++ (b':' ∷ octet_text m.b2
            ++ (b':' ∷ octet_text m.b3 ++ (b':' ∷ octet_text m.b4 ++ (b':' ∷ octet_text m.b5)))))

pub data FrameParseError : Type 0 where
  too_short : FrameParseError

pub record EthernetFrame : Type 0 where
  pub dst_mac : MacAddress
  pub src_mac : MacAddress
  pub ethertype : ℕ
  pub payload : Text

abbrev pub ethernet_header_size : ℕ
ethernet_header_size = 14

-- `EthernetFrame{}`.
abbrev pub empty_frame : EthernetFrame
empty_frame = record { dst_mac = zero_mac; src_mac = zero_mac; ethertype = 0; payload = [] }

-- The fields that `try_parse` reads; `data[12] << 8 | data[13]` is the type.
abbrev pub read_frame : Text → EthernetFrame
read_frame d = record {
  dst_mac = mac_at d;
  src_mac = mac_at (drop 6 d);
  ethertype = bit_or (get_or d 12 0 * 2 ^ 8) (get_or d 13 0) % 2 ^ 16;
  payload = drop ethernet_header_size d;
}

unfoldable pub try_parse : Text → Expected EthernetFrame FrameParseError
try_parse d =
    if ltb (length d) ethernet_header_size then unexpected too_short else ok (read_frame d)

unfoldable pub parse : Text → EthernetFrame
unfolding try_parse
parse d = elim (try_parse d) [ ok f ↦ f | unexpected _ ↦ empty_frame ]

unfoldable pub serialize : EthernetFrame → Text
serialize f =
    mac_bytes f.dst_mac
    ++ (mac_bytes f.src_mac ++ (f.ethertype / 2 ^ 8 % 2 ^ 8 ∷ f.ethertype % 2 ^ 8 ∷ f.payload))

unfoldable pub frame_size : EthernetFrame → ℕ
frame_size f = ethernet_header_size + length f.payload

-- The C++ types bound the fields.
pub record IsFrame (f : EthernetFrame) : Type 0 where
  pub dst : AreBytes (mac_bytes f.dst_mac)
  pub src : AreBytes (mac_bytes f.src_mac)
  pub ethertype : f.ethertype < 2 ^ 16
  pub payload : AreBytes f.payload
