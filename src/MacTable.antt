-- ===== src/MacTable.antt =====
-- src/mac_table.cpp and include/wirelab/mac_table.hpp: the endpoint that each MAC address was last
-- seen at. One method runs at a time (the table's mutex), so it is a function of the table. The
-- hash map's iteration order is not specified: the list's order stands for it.
pub mod Entries
use packet_switch.Prelude.{
  ℕ, Bool, true, false, not, Option, none, some, List, [], ◌∷◌, map, is_some, length, select,
  ℕ_discrete, holds,
}
use packet_switch.Prelude.Maps.{find, assign, erase}
use packet_switch.Prelude.Texts.{Text, text_discrete, is_empty}
use packet_switch.Frame.{MacAddress, mac_discrete, mac_eq}

-- `Endpoint` of include/wirelab/udp_socket.hpp.
pub record Endpoint : Type 0 where
  pub address : Text
  pub port : ℕ

abbrev pub MacTable : Type 0
MacTable = List (MacAddress × Endpoint)

unfoldable pub insert : MacTable → MacAddress → Endpoint → MacTable × Bool
insert t mac endpoint =
    (assign mac_discrete mac endpoint t, not (is_some (find mac_discrete mac t)))

unfoldable pub lookup : MacTable → MacAddress → Option Endpoint
lookup t mac = find mac_discrete mac t

unfoldable pub remove : MacTable → MacAddress → MacTable × Bool
remove t mac = (erase mac_discrete mac t, is_some (find mac_discrete mac t))

unfoldable pub contains : MacTable → MacAddress → Bool
contains t mac = is_some (find mac_discrete mac t)

abbrev pub endpoint_of : MacAddress × Endpoint → Endpoint
endpoint_of (mac, endpoint) = endpoint

unfoldable pub get_all_endpoints : MacTable → List Endpoint
get_all_endpoints t = map endpoint_of t

abbrev pub differs_from : MacAddress → MacAddress × Endpoint → Bool
differs_from exclude (mac, endpoint) = not (mac_eq mac exclude)

unfoldable pub get_all_endpoints_except : MacTable → MacAddress → List Endpoint
get_all_endpoints_except t exclude = map endpoint_of (select (differs_from exclude) t)

unfoldable pub size : MacTable → ℕ
size t = length t

unfoldable pub empty : MacTable → Bool
empty t = is_empty t

unfoldable pub clear : MacTable → MacTable
clear t = []
