-- ===== src/MacTable/Entries.antt =====
-- What the table's methods do to its entries.
use packet_switch.Prelude.{
  ◌+◌, ◌≡◌, refl, ◌≢◌, ◌↔◌, ◌⊎◌, inl, inr, ite, not, none, some, [], ◌∷◌, map, select, arith,
  if◌then◌else◌,
}
use packet_switch.Prelude.Maps.{
  find, Distinct, find-assign, find-erase, assign-Distinct, erase-Distinct, length-assign,
}
use packet_switch.Prelude.Sorting.{IsIn}
use packet_switch.Frame.{MacAddress, mac_discrete}
use packet_switch.MacTable.{
  MacTable, Endpoint, insert, lookup, remove, contains, get_all_endpoints_except, size, endpoint_of,
  differs_from,
}

-- A table holds no address twice.
abbrev pub IsTable : MacTable → Type 0
IsTable t = Distinct mac_discrete t

-- In a table without duplicate addresses, inserting keeps them distinct, is then read back at that
-- address and changes no other, and says whether the address is new; the table grows by one entry
-- exactly then.
pub insert_lem :
    (t : MacTable) (mac : MacAddress) (endpoint : Endpoint)
    → IsTable t
    → IsTable (insert t mac endpoint).0
      × ((j : MacAddress)
          → lookup (insert t mac endpoint).0 j
            ≡ ite (mac_discrete mac j) (some endpoint) (lookup t j))
      × ((insert t mac endpoint).1 ≡ not (contains t mac))
      × (size (insert t mac endpoint).0 ≡ (if contains t mac then size t else size t + 1))
unfolding insert lookup contains size
insert_lem t mac endpoint d = (
  assign-Distinct mac_discrete mac endpoint t d,
  λ j. find-assign mac_discrete j mac endpoint t,
  refl,
  ground (arith, length-assign mac_discrete mac endpoint t),
)

-- In a table without duplicate addresses, removing keeps them distinct, forgets that address and
-- no other, and says whether the address was there.
pub remove_lem :
    (t : MacTable) (mac : MacAddress)
    → IsTable t
    → IsTable (remove t mac).0
      × ((j : MacAddress) → lookup (remove t mac).0 j ≡ ite (mac_discrete mac j) none (lookup t j))
      × ((remove t mac).1 ≡ contains t mac)
unfolding remove lookup contains
remove_lem t mac d =
    (erase-Distinct mac_discrete mac t d, λ j. find-erase mac_discrete j mac t, refl)

kept_here :
    (m : MacAddress) (x : Endpoint) (t : MacTable) (exclude : MacAddress) (e : Endpoint)
    → IsIn e (map endpoint_of (select (differs_from exclude) ((m, x) ∷ t)))
    → ((m ≢ exclude) × (e ≡ x)) ⊎ IsIn e (map endpoint_of (select (differs_from exclude) t))
kept_here m x t exclude e h = ground arith

to_entry :
    (t : MacTable) (exclude : MacAddress) (e : Endpoint)
    → IsTable t
    → IsIn e (map endpoint_of (select (differs_from exclude) t))
    → (mac : MacAddress) × (mac ≢ exclude) × (find mac_discrete mac t ≡ some e)
unfolding find
to_entry [] exclude e d h = absurd h
to_entry ((m, x) ∷ t) exclude e d h = elim (kept_here m x t exclude e h) [
  | inl (ne, here) ↦ (m, ne, ground arith)
  | inr there ↦ let (mac, ne, found) = to_entry t exclude e d.1 there in (mac, ne, ground arith)
]

from_entry :
    (t : MacTable) (exclude : MacAddress) (e : Endpoint) (mac : MacAddress)
    → mac ≢ exclude
    → find mac_discrete mac t ≡ some e
    → IsIn e (map endpoint_of (select (differs_from exclude) t))
unfolding find
from_entry [] exclude e mac ne h = cc
from_entry ((m, x) ∷ t) exclude e mac ne h = ground (arith, from_entry t exclude e mac ne)

-- In a table without duplicate addresses, the endpoints listed for a broadcast are exactly those
-- of the other addresses.
pub get_all_endpoints_except_iff :
    (t : MacTable) (exclude : MacAddress) (e : Endpoint)
    → IsTable t
    → IsIn e (get_all_endpoints_except t exclude)
      ↔ ((mac : MacAddress) × (mac ≢ exclude) × (lookup t mac ≡ some e))
unfolding get_all_endpoints_except lookup
get_all_endpoints_except_iff t exclude e d =
    (to_entry t exclude e d, λ (mac, ne, h). from_entry t exclude e mac ne h)
