-- ===== src/VSwitch/Deferring.antt =====
-- Deferred frames: what is delivered when, and how long the receive loop may wait.
use packet_switch.Prelude.{
  ◌≡◌, List, ◌∷◌, select, Bool-cases, [], not, inl, All, ◌∙◌, inr, refl, arith, if◌then◌else◌,
  All-map, ◌+◌, ◌/◌,
}
use packet_switch.VSwitch.{
  UdpSocket, FrameGate, drain_due, deliver_all, VSwitch, deliver, ScheduledDelivery, is_due,
  wait_budget, shorten, longest_wait, to_milliseconds,
}
use packet_switch.Prelude.Int.{ℤ, pos, ◌≤ℤ◌, max_ℤ, ◌<ℤ◌, ◌-ℤ◌, ltzb, negsuc, -ℤ_parts, min_ℤ}
use packet_switch.TopologyController.{nanoseconds}

late :
    (now : ℤ) (pending : List ScheduledDelivery)
    → All (λ d. now <ℤ d.due) (select (λ d. not (is_due now d)) pending)
late now [] = tt
late now (d ∷ pending) = ground (arith, late now pending)

min_left : (x a b : ℤ) → x ≤ℤ min_ℤ a b → x ≤ℤ a
min_left x a b h = ground arith

min_right : (x a b : ℤ) → x ≤ℤ min_ℤ a b → x ≤ℤ b
min_right x a b h = ground arith

shorten_lem :
    (now budget : ℤ) (pending : List ScheduledDelivery)
    → (shorten now budget pending ≤ℤ budget)
      × All (λ d. shorten now budget pending ≤ℤ to_milliseconds (d.due -ℤ now)) pending
unfolding shorten
shorten_lem now budget [] = (omega arith, tt)
shorten_lem now budget (d ∷ pending) =
    let next = to_milliseconds (d.due -ℤ now) in
    let rest = shorten_lem now (min_ℤ budget next) pending in
    let out = shorten now (min_ℤ budget next) pending in
    (min_left out budget next rest.0, (min_right out budget next rest.0, rest.1))

-- A wait of whole milliseconds that is within what remains is within it in nanoseconds.
budget-remaining :
    (budget remaining : ℤ)
    → budget ≤ℤ to_milliseconds remaining
    → nanoseconds (if ltzb budget (pos 0) then pos 0 else budget) ≤ℤ max_ℤ (pos 0) remaining
budget-remaining (negsuc m) remaining h = ground arith
budget-remaining (pos m) (pos n) h = ground arith
budget-remaining (pos m) (negsuc n) h = ground (arith, -ℤ_parts (pos 0) (pos ((n + 1) / 1000000)))

module _ {S G : Type 0} (net : UdpSocket S) (gates : FrameGate G) where
  -- The socket once the deliveries were sent one after another.
  abbrev pub send_all : S → List ScheduledDelivery → S
  send_all socket [] = socket
  send_all socket (x ∷ xs) = send_all (net.send_to socket x.frame_data x.destination).0 xs

  deliver_all-sends :
      (deliveries : List ScheduledDelivery) (s : VSwitch S G)
      → (deliver_all net gates s deliveries).socket ≡ send_all s.socket deliveries
  unfolding deliver_all deliver
  deliver_all-sends [] s = refl
  deliver_all-sends (x ∷ xs) s =
      elim (Bool-cases (net.send_to s.socket x.frame_data x.destination).1) [
        | inl sent ↦
            deliver_all-sends xs (deliver net gates s x.frame_data x.destination) ∙ rw sent refl
        | inr failed ↦
            deliver_all-sends xs (deliver net gates s x.frame_data x.destination) ∙ rw failed refl
      ]

  -- Draining sends exactly the frames that are due, in the order in which they were deferred, and keeps
  -- the others in their order.
  pub drain_due_lem :
      (s : VSwitch S G) (now : ℤ)
      → ((drain_due net gates s now).socket ≡ send_all s.socket (select (is_due now) s.pending))
        × ((drain_due net gates s now).pending ≡ select (λ d. not (is_due now d)) s.pending)
        × All (λ d. now <ℤ d.due) (drain_due net gates s now).pending
  unfolding drain_due
  drain_due_lem s now = (deliver_all-sends _ s, refl, late now s.pending)

  -- The wait is not negative, does not pass the time at which a deferred frame is due, and is no longer
  -- than the gate's tick interval (250 milliseconds without a gate), if that is not negative.
  pub wait_budget_lem :
      (s : VSwitch S G) (now : ℤ)
      → (pos 0 ≤ℤ wait_budget net gates s now)
        × (wait_budget net gates s now ≤ℤ max_ℤ (pos 0) (longest_wait net gates s))
        × All
            (λ d. nanoseconds (wait_budget net gates s now) ≤ℤ max_ℤ (pos 0) (d.due -ℤ now))
            s.pending
  unfolding wait_budget
  wait_budget_lem s now =
      let (most, within) = shorten_lem now (longest_wait net gates s) s.pending in
      (
        ground arith,
        ground (arith, most),
        All-map (λ d h. budget-remaining _ (d.due -ℤ now) h) s.pending within,
      )
