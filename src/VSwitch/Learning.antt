-- ===== src/VSwitch/Learning.antt =====
-- What the switch of src/vswitch.cpp learns from a frame.
use packet_switch.Prelude.{
  ◌≡◌, ◌∙◌, subst, refl, sym, List, ◌%◌, ◌∷◌, ◌^◌, Bool-cases, inl, [], arith, false, inr,
  Option-cases, is_ok, true, Expected-cases, select, ◌⊎◌, length, subst₂, ℕ, unexpected, ok, Bool,
  if◌then◌else◌,
}
use packet_switch.VSwitch.{
  UdpSocket, VSwitch, FrameGate, schedule_all, deliver, schedule_copies, admit, deliver_all,
  schedule, learn, ScheduledDelivery, is_blocked, copies, stop, loop, process_frame, Pass,
  drain_due, pass, is_due, inspect, failed, received, quiet, start, Wakeup, wake, already_running,
}
use packet_switch.MacTable.Entries.{IsTable, insert_lem}
use packet_switch.MacTable.{size, Endpoint, lookup, get_all_endpoints_except, MacTable}
use packet_switch.Frame.{MacAddress, EthernetFrame, is_broadcast, try_parse}
use packet_switch.Prelude.Int.{ℤ, lezb}
use packet_switch.Prelude.Texts.{Text}
use packet_switch.FaultEngine.{FaultDecision}
use packet_switch.SwitchMetrics.{record_broadcast, record_drop, fetch_add, record_received}

-- The counter of learned addresses is the size of the table (64 bits wide), and no address occurs twice.
pub record Counts (t : MacTable) (learned_macs : ℕ) : Type 0 where
  pub table : IsTable t
  pub counted : learned_macs ≡ size t % 2 ^ 64

abbrev pub HasLearned : {S G : Type 0} → VSwitch S G → Type 0
HasLearned s = Counts s.mac_table s.metrics.learned_macs

-- The table and its counter are as before.
pub record KeepsTable {S G : Type 0} (s s' : VSwitch S G) : Type 0 where
  pub mac_table : s'.mac_table ≡ s.mac_table
  pub learned_macs : s'.metrics.learned_macs ≡ s.metrics.learned_macs

module _ {S G : Type 0} where
  KeepsTable-refl : (s : VSwitch S G) → KeepsTable s s
  KeepsTable-refl s = record { mac_table = refl; learned_macs = refl }

  KeepsTable-trans :
      {s s' s'' : VSwitch S G} → KeepsTable s s' → KeepsTable s' s'' → KeepsTable s s''
  KeepsTable-trans h k = record {
    mac_table = k.mac_table ∙ h.mac_table;
    learned_macs = k.learned_macs ∙ h.learned_macs;
  }

  if-HasLearned :
      (b : Bool) (s s' : VSwitch S G)
      → HasLearned s
      → HasLearned s'
      → HasLearned (if b then s else s')
  if-HasLearned true s s' v w = v
  if-HasLearned false s s' v w = w

  HasLearned-keep : {s s' : VSwitch S G} → KeepsTable s s' → HasLearned s → HasLearned s'
  HasLearned-keep h v = subst₂ Counts (sym h.mac_table) (sym h.learned_macs) v

module _ {S G : Type 0} (net : UdpSocket S) (gates : FrameGate G) where
  deliver-KeepsTable :
      (s : VSwitch S G) (frame : Text) (to : Endpoint) → KeepsTable s (deliver net gates s frame to)
  unfolding deliver
  deliver-KeepsTable s frame to = elim (Bool-cases (net.send_to s.socket frame to).1) [
    | inl sent ↦ rw (sent, deliver) (record { mac_table = refl; learned_macs = refl })
    | inr lost ↦ rw (lost, deliver) (record { mac_table = refl; learned_macs = refl })
  ]

  schedule_copies-KeepsTable :
      (now : ℤ) (frame : Text) (to : Endpoint) (times : List ℤ) (s : VSwitch S G)
      → KeepsTable s (schedule_copies net gates now frame to times s)
  unfolding schedule_copies
  schedule_copies-KeepsTable now frame to [] s = KeepsTable-refl s
  schedule_copies-KeepsTable now frame to (due ∷ times) s = elim (Bool-cases (lezb due now)) [
    | inl early ↦
        rw (early, schedule_copies)
          (KeepsTable-trans (deliver-KeepsTable s frame to)
            (schedule_copies-KeepsTable now frame to times _))
    | inr late ↦
        rw (late, schedule_copies)
          (KeepsTable-trans (record { mac_table = refl; learned_macs = refl })
            (schedule_copies-KeepsTable now frame to times _))
  ]

  schedule_all-KeepsTable :
      (frame : Text) (endpoints : List Endpoint) (d : FaultDecision) (now : ℤ) (s : VSwitch S G)
      → KeepsTable s (schedule_all net gates s frame endpoints d now)
  unfolding schedule_all schedule
  schedule_all-KeepsTable frame [] d now s = KeepsTable-refl s
  schedule_all-KeepsTable frame (e ∷ endpoints) d now s =
      KeepsTable-trans (schedule_copies-KeepsTable now frame e (copies net gates d) s)
        (schedule_all-KeepsTable frame endpoints d now _)

  deliver_all-KeepsTable :
      (deliveries : List ScheduledDelivery) (s : VSwitch S G)
      → KeepsTable s (deliver_all net gates s deliveries)
  unfolding deliver_all
  deliver_all-KeepsTable [] s = KeepsTable-refl s
  deliver_all-KeepsTable (x ∷ xs) s =
      KeepsTable-trans (deliver-KeepsTable s x.frame_data x.destination)
        (deliver_all-KeepsTable xs _)

  learn-HasLearned :
      (s : VSwitch S G) (mac : MacAddress) (sender : Endpoint)
      → HasLearned s
      → HasLearned (learn net gates s mac sender)
  learn-HasLearned s mac sender v =
      let (table, _, fresh, grown) = insert_lem s.mac_table mac sender v.table in
      record { table = table; counted = ground (arith, v.counted) }

  -- A frame that the gate lets through and that is sent on, once its sender is learned.
  forward-KeepsTable :
      (s : VSwitch S G) (frame_data : Text) (frame : EthernetFrame) (sender : Endpoint)
      (d : FaultDecision) (now : ℤ)
      → is_blocked d ≡ false
      → KeepsTable
          (learn net gates s frame.src_mac sender)
          (admit net gates s frame_data frame sender d now)
  unfolding admit schedule
  forward-KeepsTable s frame_data frame sender d now through =
      let learned = learn net gates s frame.src_mac sender in
      elim (Option-cases (lookup learned.mac_table frame.dst_mac)) [
        | inr (e, known) ↦
            rw (through, known, admit)
              (schedule_copies-KeepsTable now frame_data e (copies net gates d) learned)
        | inl unknown ↦ elim (Bool-cases (is_broadcast frame.dst_mac)) [
          | inl everyone ↦
              rw (through, unknown, everyone, admit)
                (KeepsTable-trans (record { mac_table = refl; learned_macs = refl })
                  (schedule_all-KeepsTable frame_data
                    (get_all_endpoints_except learned.mac_table frame.src_mac) d now
                    (record learned { metrics = record_broadcast learned.metrics })))
          | inr nobody ↦
              rw (through, unknown, nobody, admit)
                (record { mac_table = refl; learned_macs = refl })
        ]
      ]

  -- A blocked frame is dropped: nothing is learned, sent or deferred.
  admit-blocked :
      (s : VSwitch S G) (frame_data : Text) (frame : EthernetFrame) (sender : Endpoint)
      (d : FaultDecision) (now : ℤ)
      → is_blocked d ≡ true
      → admit net gates s frame_data frame sender d now
        ≡ record s { metrics = record_drop s.metrics }
  unfolding admit
  admit-blocked s frame_data frame sender d now blocked = rw blocked refl

  -- A frame that is malformed or that the gate blocks teaches nothing, is not sent and is not
  -- deferred; it counts as received and dropped.
  pub process_frame-blocked :
      (s : VSwitch S G) (frame_data : Text) (sender : Endpoint) (now : ℤ)
      → is_ok (try_parse frame_data) ≡ false
        ⊎ is_blocked (inspect net gates s frame_data sender now).1 ≡ true
      → ((process_frame net gates s frame_data sender now).mac_table ≡ s.mac_table)
        × ((process_frame net gates s frame_data sender now).pending ≡ s.pending)
        × ((process_frame net gates s frame_data sender now).socket ≡ s.socket)
        × ((process_frame net gates s frame_data sender now).metrics.dropped_packets
            ≡ fetch_add s.metrics.dropped_packets 1)
        × ((process_frame net gates s frame_data sender now).metrics.received_packets
            ≡ fetch_add s.metrics.received_packets 1)
  unfolding process_frame
  process_frame-blocked s frame_data sender now h = elim (Expected-cases (try_parse frame_data)) [
    | inr (e, malformed) ↦ rw (malformed, process_frame) (refl, refl, refl, refl, refl)
    | inl (frame, parsed) ↦ elim h [
      | inl malformed ↦ absurd (ground arith)
      | inr blocked ↦
          let judged = inspect net gates s frame_data sender now in
          let counted : VSwitch S G = record s {
            metrics = record_received s.metrics (length frame_data);
            gate = judged.0;
          } in
          rw (parsed, process_frame)
            (rw (admit-blocked counted frame_data frame sender judged.1 now blocked)
              (refl, refl, refl, refl, refl))
    ]
  ]

  admit-HasLearned :
      (s : VSwitch S G) (frame_data : Text) (frame : EthernetFrame) (sender : Endpoint)
      (d : FaultDecision) (now : ℤ)
      → HasLearned s
      → HasLearned (admit net gates s frame_data frame sender d now)
  admit-HasLearned s frame_data frame sender d now v = elim (Bool-cases (is_blocked d)) [
    | inl blocked ↦ subst HasLearned (sym (admit-blocked s frame_data frame sender d now blocked)) v
    | inr through ↦
        HasLearned-keep (forward-KeepsTable s frame_data frame sender d now through)
          (learn-HasLearned s frame.src_mac sender v)
  ]

  process_frame-HasLearned :
      (s : VSwitch S G) (frame_data : Text) (sender : Endpoint) (now : ℤ)
      → HasLearned s
      → HasLearned (process_frame net gates s frame_data sender now)
  unfolding process_frame
  process_frame-HasLearned s frame_data sender now v =
      elim (Expected-cases (try_parse frame_data)) [
        | inr (e, malformed) ↦ rw (malformed, process_frame) v
        | inl (frame, parsed) ↦
            rw (parsed, process_frame) (admit-HasLearned _ frame_data frame sender _ now v)
      ]

  drain_due-HasLearned :
      (s : VSwitch S G) (now : ℤ) → HasLearned s → HasLearned (drain_due net gates s now)
  unfolding drain_due
  drain_due-HasLearned s now v =
      HasLearned-keep (deliver_all-KeepsTable (select (is_due now) s.pending) s) v

  stop-HasLearned : (s : VSwitch S G) → HasLearned s → HasLearned (stop net gates s)
  unfolding stop
  stop-HasLearned s v = elim (Bool-cases s.running) [
    | inl on ↦ rw (on, stop) v
    | inr off ↦ rw (off, stop) v
  ]

  wake-HasLearned :
      (s : VSwitch S G) (w : Wakeup) (handled_at ticked_at : ℤ)
      → HasLearned s
      → HasLearned (wake net gates s w handled_at ticked_at)
  wake-HasLearned s failed handled_at ticked_at v = stop-HasLearned s v
  wake-HasLearned s quiet handled_at ticked_at v = v
  wake-HasLearned s (received frame_data sender) handled_at ticked_at v =
      process_frame-HasLearned s frame_data sender handled_at v

  pass-HasLearned : (s : VSwitch S G) (p : Pass) → HasLearned s → HasLearned (pass net gates s p)
  unfolding pass
  pass-HasLearned s p v =
      wake-HasLearned _ p.wakeup p.handled_at p.ticked_at (drain_due-HasLearned s p.drained_at v)

  loop-HasLearned :
      (passes : List Pass) (s : VSwitch S G) → HasLearned s → HasLearned (loop net gates s passes)
  unfolding loop
  loop-HasLearned [] s v = v
  loop-HasLearned (p ∷ passes) s v =
      if-HasLearned s.running _ s
        (loop-HasLearned passes (pass net gates s p) (pass-HasLearned s p v)) v

  -- If the MAC table is free of duplicates and the counter of learned addresses is its size
  -- (modulo 2 ^ 64), this is so after the receive loop. A switch that runs already is not started
  -- again and stays as it is; else nothing is pending once the loop has ended.
  pub start-HasLearned :
      (s : VSwitch S G) (passes : List Pass)
      → HasLearned s
      → HasLearned (start net gates s passes).0
        × (((s.running ≡ true)
              × ((start net gates s passes).0 ≡ s)
              × ((start net gates s passes).1 ≡ unexpected already_running))
            ⊎ ((s.running ≡ false)
                × ((start net gates s passes).0.pending ≡ [])
                × ((start net gates s passes).1 ≡ ok tt)))
  unfolding start
  start-HasLearned s passes v = elim (Bool-cases s.running) [
    | inl on ↦ (rw (on, start) v, inl (on, ground arith, ground arith))
    | inr off ↦ (
      rw (off, start) (loop-HasLearned passes (record s { running = true }) v),
      inr (off, ground arith, ground arith),
    )
  ]
