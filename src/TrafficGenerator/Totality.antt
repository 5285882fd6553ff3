-- ===== src/TrafficGenerator/Totality.antt =====
-- The loops of src/traffic_generator.cpp, and the size of a frame.
use packet_switch.Prelude.{
  ℕ, Option, suc, zero, ◌≡◌, some, ◌<◌, length, arith, ◌≤◌, Bool-cases, drop, if◌then◌else◌, ltb,
  ◌-◌, ◌/◌, ◌^◌, length-append, leb, ◌∷◌, ◌||◌, [], refl, inl, ◌++◌, inr, ◌&&◌, ◌∙◌,
}
use packet_switch.Prelude.Texts.{Text}
use packet_switch.TrafficGenerator.{
  low_bytes, write_traffic_frame, fill_from, write_headers, fill_random_payload, overwrite,
  traffic_frame, udp_header,
}
use packet_switch.TrafficShape.{
  FrameShape, TrafficGeneratorConfig, splitmix64, shape_of, first_draw,
}
use packet_switch.TrafficGenerator.Checksum.{ipv4_header-checks}
use packet_switch.Frame.{mac_bytes}

-- A result of some length is computed.
abbrev pub Gives : ℕ → Option Text → Type 0
Gives n r = (t : Text) × (r ≡ some t) × (length t ≡ n)

length-low_bytes : (count value : ℕ) → length (low_bytes count value) ≡ count
unfolding low_bytes
length-low_bytes zero value = refl
length-low_bytes (suc count) value = omega (arith, length-low_bytes count (value / 2 ^ 8))

pub length-drop : (n : ℕ) (xs : Text) → length (drop n xs) ≡ length xs - n
length-drop zero xs = omega arith
length-drop (suc n) [] = omega arith
length-drop (suc n) (x ∷ xs) = omega (arith, length-drop n xs)

pub fill_from-Gives : (fuel state size : ℕ) → size < fuel → Gives size (fill_from fuel state size)
unfolding fill_from
fill_from-Gives zero state size enough = absurd (omega (arith, enough))
fill_from-Gives (suc fuel) state size enough =
    let drawn = splitmix64 state in
    elim (Bool-cases (leb 8 size)) [
      | inl eight ↦
          let (t, rest, long) =
            fill_from-Gives fuel drawn.1 (size - 8) (ground (arith, enough, eight)) in
          (
            low_bytes 8 drawn.0 ++ t,
            rw (eight, rest) refl,
            ground (
              arith,
              eight,
              long,
              length-append (low_bytes 8 drawn.0) t,
              length-low_bytes 8 drawn.0,
            ),
          )
      | inr short ↦ elim (Bool-cases (ltb 0 size)) [
        | inl left ↦ (low_bytes size drawn.0, rw (short, left) refl, length-low_bytes size drawn.0)
        | inr done ↦ ([], rw (short, done) refl, ground (arith, done))
      ]
    ]

length-overwrite :
    (written buffer : Text)
    → length written ≤ length buffer
    → length (overwrite written buffer) ≡ length buffer
length-overwrite written buffer fits = omega (
  arith,
  fits,
  length-append written (drop (length written) buffer),
  length-drop (length written) buffer,
)

write_headers-Gives :
    (shape : FrameShape) (size sequence : ℕ) (payload : Text)
    → length payload ≡ size
    → Gives size (write_headers shape size sequence payload)
unfolding write_headers
write_headers-Gives shape size sequence payload long =
    elim (Bool-cases (ltb size 20 || ltb (2 ^ 16 - 1) size)) [
      | inl none_fits ↦ (payload, rw none_fits refl, long)
      | inr fits ↦ elim (Bool-cases (shape.udp && leb 28 size)) [
        | inl with_udp ↦
            let (header, made, twenty, _, _) =
              ipv4_header-checks size sequence 17 shape.source_host shape.destination_host
                (omega arith) in
            let udp = udp_header (size - 20) shape.source_port shape.destination_port in
            (
              overwrite (header ++ udp) payload,
              rw (fits, with_udp, made) refl,
              length-overwrite (header ++ udp) payload
                    (ground (arith, with_udp, long, twenty, length-append header udp))
                  ∙ long,
            )
        | inr bare ↦
            let (header, made, twenty, _, _) =
              ipv4_header-checks size sequence 0 shape.source_host shape.destination_host
                (omega arith) in
            (
              overwrite header payload,
              rw (fits, bare, made) refl,
              length-overwrite header payload (ground (arith, fits, long, twenty)) ∙ long,
            )
      ]
    ]

-- A configuration with room for an Ethernet header and at least two hosts gives, for every number, a
-- frame of exactly the configured size; any other gives an empty one. So no loop runs out of fuel.
pub traffic_frame-Gives :
    (config : TrafficGeneratorConfig) (sequence : ℕ)
    → Gives
        (if ltb config.frame_size 14 || ltb config.host_count 2 then 0 else config.frame_size)
        (traffic_frame config sequence)
unfolding write_traffic_frame fill_random_payload
traffic_frame-Gives config sequence =
    elim (Bool-cases (ltb config.frame_size 14 || ltb config.host_count 2)) [
      | inl refused ↦ rw refused ([], refl, refl)
      | inr valid ↦
          let shape = shape_of config sequence in
          let size : ℕ = config.frame_size - 14 in
          let (payload, filled, long) =
            fill_from-Gives (suc size) (first_draw config sequence).1 size (omega arith) in
          let (written, made, whole) = write_headers-Gives shape size sequence payload long in
          rw valid (
            mac_bytes shape.destination_mac ++ mac_bytes shape.source_mac ++ 8 ∷ 0 ∷ written,
            rw (filled, made) refl,
            ground (arith, valid, whole),
          )
    ]
