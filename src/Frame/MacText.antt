-- ===== src/Frame/MacText.antt =====
-- The text of a MAC address: `to_string` and `from_string` of src/ethernet_frame.cpp.
use packet_switch.Prelude.{
  ℕ, ◌%◌, ◌<◌, ◌≡◌, refl, Bool, true, false, Option, none, some, ◌==◌, arith,
}
use packet_switch.Prelude.Bits.{passes_below, passes_below_lem}
use packet_switch.Prelude.Int.{to_u64}
use packet_switch.Frame.{
  MacAddress, AreBytes, mac_bytes, from_string, mac_to_string, stoi16, octet_text,
}

abbrev read_back : ℕ → Option ℕ
read_back b = elim (stoi16 (octet_text b)) [ none ↦ none | some z ↦ some (to_u64 z % 256) ]

abbrev agrees : Option ℕ → ℕ → Bool
agrees none b = false
agrees (some c) b = c == b

octet_table : passes_below (λ b. agrees (read_back b) b) 256 ≡ true
unfolding passes_below stoi16
octet_table = refl

agrees-eq : (o : Option ℕ) (b : ℕ) → agrees o b ≡ true → o ≡ some b
agrees-eq none b h = cc
agrees-eq (some c) b h = ground arith

octet_read_back : (b : ℕ) → b < 256 → read_back b ≡ some b
octet_read_back b h =
    agrees-eq (read_back b) b (passes_below_lem (λ b. agrees (read_back b) b) b 256 h octet_table)

-- Formatting an address of six bytes and reading the text gives the address back.
pub from_string-mac_to_string :
    (m : MacAddress) → AreBytes (mac_bytes m) → from_string (mac_to_string m) ≡ m
unfolding from_string mac_to_string
from_string-mac_to_string m h = ground (
  arith,
  octet_read_back m.b0,
  octet_read_back m.b1,
  octet_read_back m.b2,
  octet_read_back m.b3,
  octet_read_back m.b4,
  octet_read_back m.b5,
)
