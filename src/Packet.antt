-- ===== src/Packet.antt =====
-- The packets of include/wirelab/packet_analyzer.hpp: a view of a frame's bytes, and what its analysis
-- says of it.
use packet_switch.Prelude.{ℕ, Option, ◌≡◌, some, length}
use packet_switch.Prelude.Texts.{Text}
use packet_switch.Frame.{zero_mac, MacAddress}

-- A pointer to `size` bytes; `none` is the null pointer.
pub record PacketView : Type 0 where
  pub bytes : Option Text
  pub size : ℕ
  pub ingress_port : ℕ

-- A pointer that is not null points to `size` bytes.
abbrev pub IsView : PacketView → Type 0
IsView v = (d : Text) → v.bytes ≡ some d → length d ≡ v.size

pub data PacketClassification : Type 0 where
  malformed broadcast unknown_unicast known_unicast : PacketClassification

pub data PacketValidity : Type 0 where
  valid malformed_ethernet malformed_ipv4 malformed_transport : PacketValidity

pub record FlowKey : Type 0 where
  pub source_ipv4 : ℕ
  pub destination_ipv4 : ℕ
  pub source_port : ℕ
  pub destination_port : ℕ
  pub protocol : ℕ

pub record PacketAnalysis : Type 0 where
  pub source_mac : MacAddress
  pub destination_mac : MacAddress
  pub source_ipv4 : ℕ
  pub destination_ipv4 : ℕ
  pub source_port : ℕ
  pub destination_port : ℕ
  pub ethertype : ℕ
  pub frame_length : ℕ
  pub ingress_port : ℕ
  pub protocol : ℕ
  pub tcp_flags : ℕ
  pub flow_hash : ℕ
  pub validity : PacketValidity
  pub classification : PacketClassification

-- `PacketAnalysis{}`.
abbrev pub no_analysis : PacketAnalysis
no_analysis = record {
  source_mac = zero_mac;
  destination_mac = zero_mac;
  source_ipv4 = 0;
  destination_ipv4 = 0;
  source_port = 0;
  destination_port = 0;
  ethertype = 0;
  frame_length = 0;
  ingress_port = 0;
  protocol = 0;
  tcp_flags = 0;
  flow_hash = 0;
  validity = malformed_ethernet;
  classification = malformed;
}
