-- ===== src/TrafficGenerator/Parsing.antt =====
-- What the parser of src/packet_analyzer.cpp reads in a frame of src/traffic_generator.cpp.
use packet_switch.Prelude.{ℕ, ◌≡◌, ◌++◌, ◌%◌, ◌∷◌, ◌^◌, ◌-◌}
use packet_switch.TrafficGenerator.{header_with, udp_header}
use packet_switch.TrafficShape.{FrameShape}
use packet_switch.Frame.{MacAddress, mac_bytes}
use packet_switch.Prelude.Texts.{Text}
use packet_switch.Packet.{PacketAnalysis, valid}

-- A frame with a UDP header, before what is left of its payload.
abbrev udp_frame : MacAddress → MacAddress → ℕ → ℕ → ℕ → ℕ → ℕ → ℕ → ℕ → Text → Text
udp_frame destination source size identification from to checksum source_port destination_port
      rest =
    mac_bytes destination
    ++ mac_bytes source
    ++ 8 ∷ 0 ∷ header_with size identification 17 from to checksum
    ++ udp_header (size - 20) source_port destination_port
    ++ rest

-- What is read of it.
abbrev pub HasParsed : FrameShape → ℕ → PacketAnalysis → Type 0
HasParsed shape size a =
    (a.validity ≡ valid)
    × (a.frame_length ≡ size)
    × (a.destination_mac ≡ shape.destination_mac)
    × (a.source_mac ≡ shape.source_mac)
    × (a.protocol ≡ 17)
    × (a.source_port ≡ shape.source_port % 2 ^ 16)
    × (a.destination_port ≡ shape.destination_port % 2 ^ 16)
