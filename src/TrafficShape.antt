-- ===== src/TrafficShape.antt =====
-- The scenarios of src/traffic_generator.cpp: which hosts a frame is between, by its number.
use packet_switch.Frame
use packet_switch.Prelude.{
  ℕ, bit_and, bit_or, bit_xor, ◌%◌, if◌then◌else◌, true, ◌/◌, ◌+◌, ◌*◌, ◌^◌, Bool, ◌==◌, min, false,
}
use packet_switch.Frame.{MacAddress}

pub data TrafficScenario : Type 0 where
  known_unicast broadcast unknown_unicast mixed : TrafficScenario
  udp_flood port_scan broadcast_storm : TrafficScenario

pub record TrafficGeneratorConfig : Type 0 where
  pub scenario : TrafficScenario
  pub seed : ℕ
  pub frame_size : ℕ
  pub host_count : ℕ

abbrev pub splitmix_gamma : ℕ
splitmix_gamma = 0x9E3779B97F4A7C15

-- The value, and the state after it.
unfoldable pub splitmix64 : ℕ → ℕ × ℕ
splitmix64 state =
    let next = (state + splitmix_gamma) % 2 ^ 64 in
    let first = bit_xor next (next / 2 ^ 30) * 0xBF58476D1CE4E5B9 % 2 ^ 64 in
    let second = bit_xor first (first / 2 ^ 27) * 0x94D049BB133111EB % 2 ^ 64 in
    (bit_xor second (second / 2 ^ 31), next)

abbrev pub byte_at : ℕ → ℕ → ℕ
byte_at value shift = value / 2 ^ shift % 2 ^ 8

abbrev pub host_mac : ℕ → MacAddress
host_mac host = record {
  b0 = 0x02;
  b1 = 0x57;
  b2 = 0x4c;
  b3 = byte_at host 16;
  b4 = byte_at host 8;
  b5 = byte_at host 0;
}

abbrev pub unknown_mac : ℕ → MacAddress
unknown_mac value = record {
  b0 = 0x02;
  b1 = 0xfe;
  b2 = byte_at value 24;
  b3 = byte_at value 16;
  b4 = byte_at value 8;
  b5 = byte_at value 0;
}

pub record FrameShape : Type 0 where
  pub destination_mac : MacAddress
  pub source_mac : MacAddress
  pub source_host : ℕ
  pub destination_host : ℕ
  pub udp : Bool
  pub source_port : ℕ
  pub destination_port : ℕ

unfoldable pub frame_scenario : TrafficScenario → ℕ → TrafficScenario
frame_scenario mixed sequence =
    if sequence % 3 == 0
    then known_unicast
    else if sequence % 3 == 1
    then TrafficScenario.broadcast
    else unknown_unicast
frame_scenario scenario sequence = scenario

-- The shape of the scenarios without a transport, but for the destination.
abbrev pub between_hosts : ℕ → ℕ → FrameShape
between_hosts host_count sequence =
    let source = sequence % host_count % 2 ^ 32 in
    let destination = (source + 1) % 2 ^ 32 % host_count in
    record {
      destination_mac = host_mac destination;
      source_mac = host_mac source;
      source_host = source;
      destination_host = destination;
      udp = false;
      source_port = 0;
      destination_port = 0;
    }

-- The shape of the attacks from the first host on the second.
abbrev pub attack_on_second : ℕ → ℕ → FrameShape
attack_on_second source_port destination_port = record {
  destination_mac = host_mac 1;
  source_mac = host_mac 0;
  source_host = 0;
  destination_host = 1;
  udp = true;
  source_port = source_port;
  destination_port = destination_port;
}

unfoldable pub frame_shape : ℕ → TrafficScenario → ℕ → ℕ → FrameShape
frame_shape host_count mixed sequence entropy = between_hosts host_count sequence
frame_shape host_count known_unicast sequence entropy = between_hosts host_count sequence
frame_shape host_count TrafficScenario.broadcast sequence entropy =
    record (between_hosts host_count sequence) { destination_mac = Frame.broadcast }
frame_shape host_count unknown_unicast sequence entropy =
    record (between_hosts host_count sequence) { destination_mac = unknown_mac entropy }
frame_shape host_count udp_flood sequence entropy =
    attack_on_second (bit_or 0xC000 (bit_and entropy 0x3FFF)) 9000
frame_shape host_count port_scan sequence entropy =
    attack_on_second 44444 ((1 + sequence % 1024) % 2 ^ 16)
frame_shape host_count broadcast_storm sequence entropy =
    let source = sequence % min host_count 3 % 2 ^ 32 in
    record {
      destination_mac = Frame.broadcast;
      source_mac = host_mac source;
      source_host = source;
      destination_host = 0xffff;
      udp = true;
      source_port = 137;
      destination_port = 137;
    }

abbrev pub first_draw : TrafficGeneratorConfig → ℕ → ℕ × ℕ
first_draw config sequence = splitmix64 (bit_xor config.seed (sequence * splitmix_gamma % 2 ^ 64))

abbrev pub shape_of : TrafficGeneratorConfig → ℕ → FrameShape
shape_of config sequence =
    frame_shape config.host_count (frame_scenario config.scenario sequence) sequence
      (first_draw config sequence).0
