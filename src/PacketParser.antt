-- ===== src/PacketParser.antt =====
-- The parser of src/packet_analyzer.cpp: `parse_packet` and what it calls. A read outside of the
-- buffer is `none`. A byte shifted into a word does not overlap the others, so `|` is a sum.
pub mod Bounds
pub mod Lengths
use packet_switch.Prelude.{
  ℕ, bit_xor, Bool, ◌/◌, ◌^◌, ◌*◌, ◌%◌, Option, length, min, none, not, if◌then◌else◌, ◌-◌, ◌==◌,
  some, ltb, ◌&&◌, ◌||◌, drop, value_or, ◌+◌, get_elem?,
}
use packet_switch.Prelude.Texts.{Text}
use packet_switch.Packet.{
  FlowKey, PacketAnalysis, PacketView, no_analysis, PacketValidity, valid, malformed_ethernet,
  malformed_ipv4, malformed_transport,
}
use packet_switch.Frame.{◌>>=◌, mac_at}

unfoldable pub read_network_u16 : Text → ℕ → Option ℕ
read_network_u16 d i = do high ← get_elem? d i; low ← get_elem? d (i + 1); some (high * 2 ^ 8 + low)

unfoldable pub read_network_u32 : Text → ℕ → Option ℕ
read_network_u32 d i = do
  b0 ← get_elem? d i
  b1 ← get_elem? d (i + 1)
  b2 ← get_elem? d (i + 2)
  b3 ← get_elem? d (i + 3)
  some (b0 * 2 ^ 24 + b1 * 2 ^ 16 + b2 * 2 ^ 8 + b3)

abbrev pub hash_byte : ℕ → ℕ → ℕ
hash_byte hash byte = bit_xor hash byte * 1099511628211 % 2 ^ 64

abbrev pub hash_u16 : ℕ → ℕ → ℕ
hash_u16 hash value = hash_byte (hash_byte hash (value / 2 ^ 8 % 2 ^ 8)) (value % 2 ^ 8)

abbrev pub hash_u32 : ℕ → ℕ → ℕ
hash_u32 hash value =
    hash_byte
      (hash_byte (hash_byte (hash_byte hash (value / 2 ^ 24 % 2 ^ 8)) (value / 2 ^ 16 % 2 ^ 8))
        (value / 2 ^ 8 % 2 ^ 8))
      (value % 2 ^ 8)

abbrev pub make_flow_key : PacketAnalysis → FlowKey
make_flow_key a = record {
  source_ipv4 = a.source_ipv4;
  destination_ipv4 = a.destination_ipv4;
  source_port = a.source_port;
  destination_port = a.destination_port;
  protocol = a.protocol;
}

unfoldable pub hash_flow_key : FlowKey → ℕ
hash_flow_key key =
    hash_byte
      (hash_u16
        (hash_u16 (hash_u32 (hash_u32 14695981039346656037 key.source_ipv4) key.destination_ipv4)
          key.source_port)
        key.destination_port)
      key.protocol

abbrev pub ipv4_type : ℕ
ipv4_type = 0x0800

-- The part of `parse_ipv4` after the header, for the transport at `start`.
unfoldable pub parse_udp : Text → ℕ → ℕ → PacketAnalysis → Option (PacketAnalysis × PacketValidity)
parse_udp d start size a = if ltb size 8 then some (a, malformed_transport) else do
  udp_length ← read_network_u16 d (start + 4)
  source ← read_network_u16 d start
  destination ← read_network_u16 d (start + 2)
  if ltb udp_length 8 || ltb size udp_length
      then some (a, malformed_transport)
      else some (record a { source_port = source; destination_port = destination }, valid)

unfoldable pub parse_tcp : Text → ℕ → ℕ → PacketAnalysis → Option (PacketAnalysis × PacketValidity)
parse_tcp d start size a = if ltb size 20 then some (a, malformed_transport) else do
  words ← get_elem? d (start + 12)
  source ← read_network_u16 d start
  destination ← read_network_u16 d (start + 2)
  flags ← get_elem? d (start + 13)
  if ltb (words / 2 ^ 4 * 4) 20 || ltb size (words / 2 ^ 4 * 4)
      then some (a, malformed_transport)
      else some (
        record a { source_port = source; destination_port = destination; tcp_flags = flags },
        valid,
      )

unfoldable pub parse_transport :
    Text → ℕ → ℕ → PacketAnalysis → Option (PacketAnalysis × PacketValidity)
parse_transport d start size a =
    if a.protocol == 17
    then parse_udp d start size a
    else if a.protocol == 6
    then parse_tcp d start size a
    else if a.protocol == 1 && ltb size 4
    then some (a, malformed_transport)
    else some (a, valid)

-- The checks of the header's sizes.
abbrev pub is_ipv4_header : ℕ → ℕ → ℕ → Bool
is_ipv4_header first total_size payload_size =
    let header_size = first % 2 ^ 4 * 4 in
    not (
      not (first / 2 ^ 4 == 4)
      || ltb header_size 20
      || ltb payload_size header_size
      || ltb total_size header_size
      || ltb payload_size total_size)

-- The part of `parse_ipv4` that reads the addresses, for a header of `header_size` bytes.
unfoldable pub parse_ipv4_fields :
    Text → ℕ → ℕ → PacketAnalysis → Option (PacketAnalysis × PacketValidity)
parse_ipv4_fields d header_size total_size a = do
  source ← read_network_u32 d 26
  destination ← read_network_u32 d 30
  protocol ← get_elem? d 23
  fragment ← read_network_u16 d 20
  let found : PacketAnalysis = record a {
    source_ipv4 = source;
    destination_ipv4 = destination;
    protocol = protocol;
  }
  if fragment % 2 ^ 13 == 0
      then parse_transport d (14 + header_size) (total_size - header_size) found
      else some (found, valid)

-- The frame's payload starts at byte 14.
unfoldable pub parse_ipv4 : Text → PacketAnalysis → Option (PacketAnalysis × PacketValidity)
parse_ipv4 d a =
    let payload_size = length d - 14 in
    if ltb payload_size 20 then some (a, malformed_ipv4) else do
      first ← get_elem? d 14
      total_size ← read_network_u16 d 16
      if is_ipv4_header first total_size payload_size
          then parse_ipv4_fields d (first % 2 ^ 4 * 4) total_size a
          else some (a, malformed_ipv4)

abbrev pub with_flow_hash : PacketAnalysis → PacketAnalysis
with_flow_hash a = record a { flow_hash = hash_flow_key (make_flow_key a) }

-- The end of `parse_packet`, from the check of the type on.
abbrev pub judge : PacketAnalysis × PacketValidity → PacketAnalysis
judge (a, valid) = with_flow_hash (record a { validity = valid })
judge (a, malformed_ethernet) = record a { validity = malformed_ethernet }
judge (a, malformed_ipv4) = record a { validity = malformed_ipv4 }
judge (a, malformed_transport) = record a { validity = malformed_transport }

abbrev pub started : PacketView → PacketAnalysis
started v = record no_analysis {
  ingress_port = v.ingress_port;
  frame_length = min v.size (2 ^ 16 - 1);
}

-- `parse_packet` once both addresses and the type are read.
abbrev pub parse_typed : Text → PacketAnalysis → Option PacketAnalysis
parse_typed d a =
    if a.ethertype == ipv4_type
    then (do result ← parse_ipv4 d a; some (judge result))
    else some (record a { validity = valid })

unfoldable pub parse_packet : PacketView → Option PacketAnalysis
parse_packet v = elim v.bytes [
  | none ↦ some (started v)
  | some d ↦ if ltb v.size 14 then some (started v) else do
    ethertype ← read_network_u16 d 12
    parse_typed d (record (started v) {
      destination_mac = mac_at d;
      source_mac = mac_at (drop 6 d);
      ethertype = ethertype;
    })
]
