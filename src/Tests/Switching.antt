-- ===== src/Tests/Switching.antt =====
-- The switch at concrete inputs.
use packet_switch.Prelude.{◌≡◌, true, unexpected, ◌⊎◌, none, inr, false, ok, [], refl}
use packet_switch.MacTable.{size}
use packet_switch.Tests.{counting, blocking, doubling, switching, two_passes, frame_ab, endpoint_a}
use packet_switch.Frame.{serialize, try_parse}
use packet_switch.VSwitch.Learning.{HasLearned, process_frame-blocked, start-HasLearned}
use packet_switch.VSwitch.{start, process_frame, already_running, inspect}
use packet_switch.Prelude.Int.{pos}
use packet_switch.VSwitch.Accounts.{HasHandled, frame_copies, process_frame-accounted}
use packet_switch.SwitchMetrics.{fetch_add}

process_frame-accounted_example :
    let net = counting in
    let gates = doubling in
    let s = switching in
    let frame_data = serialize frame_ab in
    let sender = endpoint_a in
    let now = pos 5000000 in
    HasHandled net gates now
      (elim (try_parse frame_data) [
        | unexpected _ ↦ none
        | ok frame ↦
            frame_copies net gates s.mac_table frame_data frame sender
              (inspect net gates s frame_data sender now).1
      ])
      s
      (process_frame net gates s frame_data sender now)
process_frame-accounted_example =
    process_frame-accounted counting doubling switching (serialize frame_ab) endpoint_a
      (pos 5000000)

process_frame-blocked_example :
    let net = counting in
    let gates = blocking in
    let s = switching in
    let frame_data = serialize frame_ab in
    let sender = endpoint_a in
    let now = pos 5000000 in
    ((process_frame net gates s frame_data sender now).mac_table ≡ s.mac_table)
    × ((process_frame net gates s frame_data sender now).pending ≡ s.pending)
    × ((process_frame net gates s frame_data sender now).socket ≡ s.socket)
    × ((process_frame net gates s frame_data sender now).metrics.dropped_packets
        ≡ fetch_add s.metrics.dropped_packets 1)
    × ((process_frame net gates s frame_data sender now).metrics.received_packets
        ≡ fetch_add s.metrics.received_packets 1)
process_frame-blocked_example =
    process_frame-blocked counting blocking switching (serialize frame_ab) endpoint_a (pos 5000000)
      (inr refl)

start-HasLearned_example :
    let net = counting in
    let gates = doubling in
    let s = switching in
    let passes = two_passes in
    HasLearned (start net gates s passes).0
    × (((s.running ≡ true)
          × ((start net gates s passes).0 ≡ s)
          × ((start net gates s passes).1 ≡ unexpected already_running))
        ⊎ ((s.running ≡ false)
            × ((start net gates s passes).0.pending ≡ [])
            × ((start net gates s passes).1 ≡ ok tt)))
unfolding size
start-HasLearned_example =
    start-HasLearned counting doubling switching two_passes (record { table = tt; counted = refl })
