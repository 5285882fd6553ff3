-- ===== src/VSwitch.antt =====
-- src/vswitch.cpp and include/wirelab/vswitch.hpp: learning, gating, forwarding and deferring frames,
-- and the receive loop. The operating system's socket is a parameter, and the frame gate an
-- interface. Printing at a log level is left out.
pub mod Accounts
pub mod Deferring
pub mod Learning
use packet_switch.Prelude.{
  ◌≡◌, List, if◌then◌else◌, Bool, ◌∷◌, Expected, some, none, select, take, false, [], Option, min,
  ◌/◌, not, ◌||◌, unexpected, ◌==◌, ◌++◌, true, length, ok, ◌+◌,
}
use packet_switch.Prelude.Texts.{Text}
use packet_switch.MacTable.{MacTable, Endpoint, insert, lookup, get_all_endpoints_except}
use packet_switch.Prelude.Int.{ℤ, pos, min_ℤ, lezb, ltzb, ◌-ℤ◌, negsuc}
use packet_switch.FaultEngine.{FaultDecision}
use packet_switch.Frame.{EthernetFrame, try_parse, is_broadcast, MacAddress}
use packet_switch.SwitchMetrics.{
  SwitchMetrics, record_forwarded, record_received, record_mac_learned, record_drop,
  record_malformed, record_broadcast, record_unknown_unicast,
}

pub data VSwitchError : Type 0 where
  already_running : VSwitchError

-- What the switch uses of `UdpSocket`: `send_to` says whether the datagram was handed over.
pub record UdpSocket (S : Type 0) : Type 0 where
  pub send_to : S → Text → Endpoint → S × Bool
  pub close : S → S

-- `FrameGate`.
pub record FrameGate (G : Type 0) : Type 0 where
  pub inspect : G → Text → Endpoint → ℤ → G × FaultDecision
  pub tick : G → ℤ → G
  pub tick_interval : G → ℤ

pub record ScheduledDelivery : Type 0 where
  pub due : ℤ
  pub frame_data : Text
  pub destination : Endpoint

pub record VSwitch (S G : Type 0) : Type 0 where
  pub socket : S
  pub mac_table : MacTable
  pub metrics : SwitchMetrics
  pub running : Bool
  pub gate : Option G
  pub pending : List ScheduledDelivery

abbrev pub is_due : ℤ → ScheduledDelivery → Bool
is_due now delivery = lezb delivery.due now

-- `duration_cast` from nanoseconds to milliseconds, toward zero.
abbrev pub to_milliseconds : ℤ → ℤ
to_milliseconds (pos n) = pos (n / 1000000)
to_milliseconds (negsuc n) = pos 0 -ℤ pos ((n + 1) / 1000000)

-- The loop of `wait_budget`.
unfoldable pub shorten : ℤ → ℤ → List ScheduledDelivery → ℤ
shorten now budget [] = budget
shorten now budget (delivery ∷ pending) =
    shorten now (min_ℤ budget (to_milliseconds (delivery.due -ℤ now))) pending

-- The decision for a frame when there is no gate.
abbrev pub at_once : ℤ → FaultDecision
at_once now = record { dropped = false; delivery_count = 1; delivery_times = now ∷ pos 0 ∷ [] }

abbrev pub is_blocked : FaultDecision → Bool
is_blocked decision = decision.dropped || decision.delivery_count == 0

-- What one pass of the receive loop finds: the wait failed, no datagram could be read, or one was;
-- and the times that the clock shows at its three readings.
pub data Wakeup : Type 0 where
  failed quiet : Wakeup
  received : Text → Endpoint → Wakeup

pub record Pass : Type 0 where
  pub drained_at : ℤ
  pub wakeup : Wakeup
  pub handled_at : ℤ
  pub ticked_at : ℤ

module _ {S G : Type 0} (net : UdpSocket S) (gates : FrameGate G) where
  unfoldable pub deliver : VSwitch S G → Text → Endpoint → VSwitch S G
  deliver s frame_data destination =
      let sent = net.send_to s.socket frame_data destination in
      if sent.1
      then record s { socket = sent.0; metrics = record_forwarded s.metrics (length frame_data) }
      else record s { socket = sent.0; metrics = record_drop s.metrics }

  abbrev pub schedule_copy : ℤ → Text → Endpoint → ℤ → VSwitch S G → VSwitch S G
  schedule_copy now frame_data destination due s =
      if lezb due now then deliver s frame_data destination else record s {
        pending =
            s.pending
            ++ record { due = due; frame_data = frame_data; destination = destination } ∷ [];
      }

  -- The loop of `schedule`, over the times of the copies.
  unfoldable pub schedule_copies : ℤ → Text → Endpoint → List ℤ → VSwitch S G → VSwitch S G
  schedule_copies now frame_data destination [] s = s
  schedule_copies now frame_data destination (due ∷ times) s =
      schedule_copies now frame_data destination times
        (schedule_copy now frame_data destination due s)

  abbrev pub copies : FaultDecision → List ℤ
  copies decision =
      take (min decision.delivery_count (length decision.delivery_times)) decision.delivery_times

  unfoldable pub schedule : VSwitch S G → Text → Endpoint → FaultDecision → ℤ → VSwitch S G
  schedule s frame_data destination decision now =
      schedule_copies now frame_data destination (copies decision) s

  -- The loop over the endpoints of a broadcast.
  unfoldable pub schedule_all : VSwitch S G → Text → List Endpoint → FaultDecision → ℤ → VSwitch S G
  schedule_all s frame_data [] decision now = s
  schedule_all s frame_data (endpoint ∷ endpoints) decision now =
      schedule_all (schedule s frame_data endpoint decision now) frame_data endpoints decision now

  -- The insertion of the sender in `process_frame`.
  abbrev pub learn : VSwitch S G → MacAddress → Endpoint → VSwitch S G
  learn s mac sender =
      let inserted = insert s.mac_table mac sender in
      record s {
        mac_table = inserted.0;
        metrics = if inserted.1 then record_mac_learned s.metrics else s.metrics;
      }

  -- `process_frame` from the gate's decision on.
  unfoldable pub admit :
      VSwitch S G → Text → EthernetFrame → Endpoint → FaultDecision → ℤ → VSwitch S G
  admit s frame_data frame sender decision now =
      let learned = learn s frame.src_mac sender in
      if is_blocked decision
      then record s { metrics = record_drop s.metrics }
      else elim (lookup learned.mac_table frame.dst_mac) [
        | some endpoint ↦ schedule learned frame_data endpoint decision now
        | none ↦
            if is_broadcast frame.dst_mac
            then schedule_all (record learned { metrics = record_broadcast learned.metrics })
                frame_data (get_all_endpoints_except learned.mac_table frame.src_mac) decision now
            else record learned { metrics = record_drop (record_unknown_unicast learned.metrics) }
      ]

  -- The gate's decision in `process_frame`, and the gate after it.
  abbrev pub inspect : VSwitch S G → Text → Endpoint → ℤ → Option G × FaultDecision
  inspect s frame_data sender now = elim s.gate [
    | none ↦ (none, at_once now)
    | some gate ↦ let judged = gates.inspect gate frame_data sender now in (some judged.0, judged.1)
  ]

  unfoldable pub process_frame : VSwitch S G → Text → Endpoint → ℤ → VSwitch S G
  process_frame s frame_data sender now =
      let counted : VSwitch S G = record s {
        metrics = record_received s.metrics (length frame_data);
      } in
      elim (try_parse frame_data) [
        | unexpected _ ↦ record counted { metrics = record_drop (record_malformed counted.metrics) }
        | ok frame ↦
            let judged = inspect s frame_data sender now in
            admit (record counted { gate = judged.0 }) frame_data frame sender judged.1 now
      ]

  unfoldable pub deliver_all : VSwitch S G → List ScheduledDelivery → VSwitch S G
  deliver_all s [] = s
  deliver_all s (delivery ∷ deliveries) =
      deliver_all (deliver s delivery.frame_data delivery.destination) deliveries

  unfoldable pub drain_due : VSwitch S G → ℤ → VSwitch S G
  drain_due s now = record (deliver_all s (select (is_due now) s.pending)) {
    pending = select (λ d. not (is_due now d)) s.pending;
  }

  abbrev pub longest_wait : VSwitch S G → ℤ
  longest_wait s = elim s.gate [ some gate ↦ gates.tick_interval gate | none ↦ pos 250 ]

  unfoldable pub wait_budget : VSwitch S G → ℤ → ℤ
  wait_budget s now =
      let budget = shorten now (longest_wait s) s.pending in
      if ltzb budget (pos 0) then pos 0 else budget

  unfoldable pub stop : VSwitch S G → VSwitch S G
  stop s = if s.running then record s { running = false; socket = net.close s.socket } else s

  abbrev pub tick_gate : VSwitch S G → ℤ → VSwitch S G
  tick_gate s now = record s {
    gate = elim s.gate [ none ↦ none | some gate ↦ some (gates.tick gate now) ];
  }

  -- The body of the loop of `start` once it was woken up.
  abbrev pub wake : VSwitch S G → Wakeup → ℤ → ℤ → VSwitch S G
  wake s failed handled_at ticked_at = stop s
  wake s quiet handled_at ticked_at = tick_gate s ticked_at
  wake s (received frame_data sender) handled_at ticked_at =
      tick_gate (process_frame s frame_data sender handled_at) ticked_at

  unfoldable pub pass : VSwitch S G → Pass → VSwitch S G
  pass s p = wake (drain_due s p.drained_at) p.wakeup p.handled_at p.ticked_at

  -- The loop of `start`, over the passes until it is stopped.
  unfoldable pub loop : VSwitch S G → List Pass → VSwitch S G
  loop s [] = s
  loop s (p ∷ passes) = let next = loop (pass s p) passes in if s.running then next else s

  unfoldable pub start : VSwitch S G → List Pass → VSwitch S G × Expected (Unit {0}) VSwitchError
  start s passes =
      if s.running
      then (s, unexpected already_running)
      else (record (loop (record s { running = true }) passes) { pending = [] }, ok tt)
