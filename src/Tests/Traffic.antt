-- ===== src/Tests/Traffic.antt =====
-- The traffic generator at concrete inputs.
use packet_switch.Prelude.{◌≡◌, ℕ, ◌∷◌, if◌then◌else◌, [], ltb, ◌||◌, drop, ◌+◌, refl}
use packet_switch.Tests.{flooding, flooding_generator}
use packet_switch.TrafficGenerator.{new, traffic_frame, fill, generate}
use packet_switch.TrafficGenerator.Totality.{Gives, traffic_frame-Gives}
use packet_switch.Prelude.Texts.{ascii}
use packet_switch.TrafficGenerator.Serial.{fill-generate}

traffic_frame-Gives_example :
    let config = flooding in
    let sequence : ℕ = 5 in
    Gives
      (if ltb config.frame_size 14 || ltb config.host_count 2 then 0 else config.frame_size)
      (traffic_frame config sequence)
traffic_frame-Gives_example = traffic_frame-Gives flooding 5

fill-generate_example :
    let config = flooding in
    let g = flooding_generator in
    let first : ℕ = 2 in
    let count : ℕ = 3 in
    let frames = ascii "old" ∷ [] in
    fill config first count frames ≡ drop first (generate g (first + count)).1
unfolding new
fill-generate_example = fill-generate flooding flooding_generator 2 3 (ascii "old" ∷ []) refl
