-- ===== src/TrafficGenerator.antt =====
-- The frames of src/traffic_generator.cpp and include/wirelab/traffic_generator.hpp, and the source of
-- src/traffic_source.cpp that fills a batch. `none` is a loop that ran out of fuel.
pub mod Totality
pub mod Checksum
pub mod Serial
pub mod Parsing
use packet_switch.Prelude.{
  ℕ, List, Option, bit_and, bit_or, [], ◌∷◌, zero, suc, true, ◌/◌, ◌%◌, none, if◌then◌else◌, ◌+◌,
  Expected, ◌&&◌, Bool, ◌^◌, ltb, ◌++◌, ◌==◌, ◌*◌, ◌-◌, some, bit_xor, ◌||◌, leb, drop, unexpected,
  min, false, length, ok, take, get_or,
}
use packet_switch.Frame
use packet_switch.Frame.{◌>>=◌, MacAddress, mac_bytes}
use packet_switch.Prelude.Texts.{Text}
use packet_switch.TrafficShape.{
  FrameShape, TrafficGeneratorConfig, splitmix64, shape_of, first_draw,
}

abbrev pub network_u16 : ℕ → Text
network_u16 value = value / 2 ^ 8 % 2 ^ 8 ∷ value % 2 ^ 8 ∷ []

-- The lowest bytes of a value, least significant first.
unfoldable pub low_bytes : ℕ → ℕ → Text
low_bytes zero value = []
low_bytes (suc count) value = value % 2 ^ 8 ∷ low_bytes count (value / 2 ^ 8)

-- The loop of `fill_random_payload` over what is left to fill, with fuel.
unfoldable pub fill_from : ℕ → ℕ → ℕ → Option Text
fill_from zero state size = none
fill_from (suc fuel) state size =
    let drawn = splitmix64 state in
    let rest = fill_from fuel drawn.1 (size - 8) in
    if leb 8 size
    then (do bytes ← rest; some (low_bytes 8 drawn.0 ++ bytes))
    else if ltb 0 size
    then some (low_bytes size drawn.0)
    else some []

unfoldable pub fill_random_payload : ℕ → ℕ → Option Text
fill_random_payload state size = fill_from (suc size) state size

abbrev pub word_sum : Text → ℕ
word_sum [] = 0
word_sum (high ∷ []) = 0
word_sum (high ∷ low ∷ rest) = high * 2 ^ 8 + low + word_sum rest

-- The loop of `ipv4_checksum`, with fuel.
unfoldable pub fold_carries : ℕ → ℕ → Option ℕ
fold_carries zero sum = none
fold_carries (suc fuel) sum =
    let rest = fold_carries fuel (sum % 2 ^ 16 + sum / 2 ^ 16) in
    if sum / 2 ^ 16 == 0 then some sum else rest

unfoldable pub ipv4_checksum : Text → Option ℕ
ipv4_checksum header = do sum ← fold_carries 4 (word_sum header); some ((2 ^ 32 - 1 - sum) % 2 ^ 16)

-- The header, with a checksum.
abbrev pub header_with : ℕ → ℕ → ℕ → ℕ → ℕ → ℕ → Text
header_with payload_size identification protocol source_host destination_host checksum =
    0x45 ∷ 0 ∷ network_u16 payload_size
    ++ network_u16 identification
    ++ 0 ∷ 0 ∷ 64 ∷ protocol ∷ network_u16 checksum
    ++ 10 ∷ 0 ∷ network_u16 source_host
    ++ 10 ∷ 0 ∷ network_u16 destination_host

unfoldable pub ipv4_header : ℕ → ℕ → ℕ → ℕ → ℕ → Option Text
ipv4_header payload_size identification protocol source_host destination_host =
    let header = header_with payload_size identification protocol source_host destination_host in
    do checksum ← ipv4_checksum (header 0); some (header checksum)

abbrev pub udp_header : ℕ → ℕ → ℕ → Text
udp_header transport_size source_port destination_port =
    network_u16 source_port
    ++ network_u16 destination_port
    ++ network_u16 transport_size
    ++ 0 ∷ 0 ∷ []

-- The first bytes of a buffer are written.
abbrev pub overwrite : Text → Text → Text
overwrite written buffer = written ++ drop (length written) buffer

-- The headers over a payload that was filled.
unfoldable pub write_headers : FrameShape → ℕ → ℕ → Text → Option Text
write_headers shape payload_size sequence payload =
    let with_udp = shape.udp && leb 28 payload_size in
    if ltb payload_size 20 || ltb (2 ^ 16 - 1) payload_size then some payload else do
      header ←
          ipv4_header payload_size sequence (if with_udp then 17 else 0) shape.source_host
            shape.destination_host
      some (
          overwrite
            (if with_udp
              then header ++ udp_header (payload_size - 20) shape.source_port shape.destination_port
              else header)
            payload)

-- What is written to a buffer of `frame_size` bytes; nothing for a configuration without frames.
unfoldable pub write_traffic_frame : TrafficGeneratorConfig → ℕ → Option Text
write_traffic_frame config sequence =
    let shape = shape_of config sequence in
    let payload_size = config.frame_size - 14 in
    if ltb config.frame_size 14 || ltb config.host_count 2 then some [] else do
      payload ← fill_random_payload (first_draw config sequence).1 payload_size
      written ← write_headers shape payload_size sequence payload
      some (mac_bytes shape.destination_mac ++ mac_bytes shape.source_mac ++ 8 ∷ 0 ∷ written)

-- `traffic_frame` cuts its buffer to what was written.
abbrev pub traffic_frame : TrafficGeneratorConfig → ℕ → Option Text
traffic_frame = write_traffic_frame

pub record DeterministicTrafficGenerator : Type 0 where
  pub config : TrafficGeneratorConfig
  pub sequence : ℕ

-- The arguments that the constructor refuses.
pub data InvalidArgument : Type 0 where
  frame_size_too_small host_count_too_small : InvalidArgument

unfoldable pub new : TrafficGeneratorConfig → Expected DeterministicTrafficGenerator InvalidArgument
new config =
    if ltb config.frame_size 14
    then unexpected frame_size_too_small
    else if ltb config.host_count 2
    then unexpected host_count_too_small
    else ok (record { config = config; sequence = 0 })

abbrev pub next_frame : DeterministicTrafficGenerator → DeterministicTrafficGenerator × Option Text
next_frame g =
    (record g { sequence = (g.sequence + 1) % 2 ^ 64 }, traffic_frame g.config g.sequence)

unfoldable pub generate :
    DeterministicTrafficGenerator → ℕ → DeterministicTrafficGenerator × List (Option Text)
generate g zero = (g, [])
generate g (suc count) =
    let next = next_frame g in let rest = generate next.0 count in (rest.0, next.1 ∷ rest.1)

abbrev pub zeros : ℕ → Text
zeros zero = []
zeros (suc n) = 0 ∷ zeros n

-- `resize` of a byte vector.
abbrev pub resize : ℕ → Text → Text
resize size buffer = take size buffer ++ zeros (size - length buffer)

-- The loop of `CpuTrafficSource::fill` from an index on, over the buffers from there on; a buffer
-- that the batch did not have before is empty.
unfoldable pub fill_batch : TrafficGeneratorConfig → ℕ → ℕ → ℕ → List Text → List (Option Text)
fill_batch config first_sequence index zero frames = []
fill_batch config first_sequence index (suc count) frames =
    (do
      written ← write_traffic_frame config ((first_sequence + index) % 2 ^ 64)
      some (overwrite written (resize config.frame_size (get_or frames 0 []))))
    ∷ fill_batch config first_sequence (suc index) count (drop 1 frames)

abbrev pub fill : TrafficGeneratorConfig → ℕ → ℕ → List Text → List (Option Text)
fill config first_sequence count frames = fill_batch config first_sequence 0 count frames
