-- ===== src/Tests/Frames.antt =====
-- Ethernet frames, the MAC table and the topology check at concrete inputs.
use packet_switch.Prelude.{◌≡◌, ok, ◌≤◌, length, ◌↔◌, arith, ◌⊎◌, ◌<◌, unexpected}
use packet_switch.Topology.{create}
use packet_switch.Frame.{
  serialize, from_string, EthernetFrame, try_parse, mac_to_string, IsFrame, frame_size, too_short,
}
use packet_switch.Tests.{frame_ab, mac_a, star, star_topology}
use packet_switch.Frame.MacText.{from_string-mac_to_string}
use packet_switch.Topology.Shape.{IsStar}
use packet_switch.Frame.Layout.{try_parse-serialize, try_parse_lem}
use packet_switch.Topology.Create.{create_iff}

try_parse-serialize_example :
    let f = frame_ab in (try_parse (serialize f) ≡ ok f) × (length (serialize f) ≡ frame_size f)
try_parse-serialize_example = try_parse-serialize frame_ab (record {
  dst = ground arith;
  src = ground arith;
  ethertype = omega arith;
  payload = ground arith;
})

try_parse_lem_example :
    let d = serialize frame_ab in
    ((f : EthernetFrame) × (14 ≤ length d) × (try_parse d ≡ ok f) × (serialize f ≡ d) × IsFrame f)
    ⊎ ((length d < 14) × (try_parse d ≡ unexpected too_short))
unfolding serialize
try_parse_lem_example = try_parse_lem (serialize frame_ab) (ground arith)

from_string-mac_to_string_example : let m = mac_a in from_string (mac_to_string m) ≡ m
from_string-mac_to_string_example = from_string-mac_to_string mac_a (ground arith)

create_iff_example :
    let c = star in
    let t = star_topology in (create c ≡ ok t) ↔ ((t.configuration ≡ c) × IsStar c t.switch_index)
create_iff_example = create_iff star star_topology (ground arith)
