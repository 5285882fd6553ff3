-- ===== src/FaultEngine/Decisions.antt =====
-- What a fault decides of a frame, and when the copies of the frame leave.
use packet_switch.Prelude.{
  subst, ◌==◌, ℕ, ◌^◌, ◌<◌, ◌≡◌, refl, sym, false≢true, ◌≢◌, ◌⊎◌, inl, inr, ite, Bool, true, false,
  ◌||◌, none, some, arith, get_or, Bool-cases, Option-cases, if◌then◌else◌, ltb,
}
use packet_switch.Prelude.Int.{
  neg_part, ltzb, add_i64, add_i64_exact, int64_max, max_ℤ, ℤ, pos, ◌+ℤ◌, ◌≤ℤ◌, pos_part, to_u64,
  to_i64, int_laws,
}
use packet_switch.Prelude.Maps.{find, find-assign}
use packet_switch.Prelude.Texts.{Text, text_discrete}
use packet_switch.FaultEngine.{
  FaultEngine, FaultConfiguration, FaultDecision, FaultState, bounded_random, transmission_time,
  deliveries, slots, pass_frame, evaluate_state, evaluate, fault_for, drop_frame, deliver_now,
}
use packet_switch.FaultEngine.Random.{bounded_random-le}
use packet_switch.FaultEngine.Faults.{IsConfiguration}

abbrev pub first_delivery : FaultDecision → ℤ
first_delivery d = get_or d.delivery_times 0 (pos 0)

abbrev pub second_delivery : FaultDecision → ℤ
second_delivery d = get_or d.delivery_times 1 (pos 0)

-- The contract of a frame that passes: one or two copies, not before the latency is over; without
-- a bandwidth not after the jitter either; with one, a copy at a time on the link.
pub record Passes (c : FaultConfiguration) (next : ℤ) (n : ℕ) (arrival : ℤ) (s' : FaultState)
    (d : FaultDecision) : Type 0 where
  pub kept : d.dropped ≡ false
  pub counted : (d.delivery_count ≡ 1) ⊎ (d.delivery_count ≡ 2)
  pub late : arrival +ℤ c.latency ≤ℤ first_delivery d
  pub unlimited :
      c.bandwidth_bits_per_second ≡ 0
      → (first_delivery d ≤ℤ arrival +ℤ c.latency +ℤ c.jitter) × (s'.next_transmit_time ≡ next)
  pub limited :
      c.bandwidth_bits_per_second ≢ 0
      → (next ≤ℤ first_delivery d)
        × (d.delivery_count ≡ 1
            → s'.next_transmit_time
              ≡ first_delivery d +ℤ transmission_time n c.bandwidth_bits_per_second)
        × (d.delivery_count ≡ 2
            → (first_delivery d +ℤ transmission_time n c.bandwidth_bits_per_second
                ≤ℤ second_delivery d)
              × (s'.next_transmit_time
                  ≡ second_delivery d +ℤ transmission_time n c.bandwidth_bits_per_second))

-- The times of `k` copies, from the earliest one allowed and the link's next free time.
record Spaced (c : FaultConfiguration) (n k : ℕ) (earliest next : ℤ) : Type 0 where
  from : earliest ≤ℤ get_or (deliveries k c n earliest next).0 0 (pos 0)
  unlimited :
      c.bandwidth_bits_per_second ≡ 0
      → (get_or (deliveries k c n earliest next).0 0 (pos 0) ≡ earliest)
        × ((deliveries k c n earliest next).1 ≡ next)
  limited :
      c.bandwidth_bits_per_second ≢ 0
      → (next ≤ℤ get_or (deliveries k c n earliest next).0 0 (pos 0))
        × (k ≡ 1
            → (deliveries k c n earliest next).1
              ≡ get_or (deliveries k c n earliest next).0 0 (pos 0)
                +ℤ transmission_time n c.bandwidth_bits_per_second)
        × (k ≡ 2
            → (get_or (deliveries k c n earliest next).0 0 (pos 0)
                  +ℤ transmission_time n c.bandwidth_bits_per_second
                ≤ℤ get_or (deliveries k c n earliest next).0 1 (pos 0))
              × ((deliveries k c n earliest next).1
                  ≡ get_or (deliveries k c n earliest next).0 1 (pos 0)
                    +ℤ transmission_time n c.bandwidth_bits_per_second))

-- How long a copy keeps the link busy: not at all where the bandwidth is not limited.
abbrev pub air_time : FaultConfiguration → ℕ → ℤ
air_time c n =
    if c.bandwidth_bits_per_second == 0
    then pos 0
    else transmission_time n c.bandwidth_bits_per_second

-- The sums of times do not overflow: two copies of the frame leave the link before 2 ^ 63.
pub record IsTimely (c : FaultConfiguration) (next : ℤ) (n : ℕ) (arrival : ℤ) : Type 0 where
  pub arrived : pos 0 ≤ℤ arrival
  pub started : pos 0 ≤ℤ next
  pub due : arrival +ℤ c.latency +ℤ c.jitter +ℤ air_time c n +ℤ air_time c n ≤ℤ int64_max
  pub free : next +ℤ air_time c n +ℤ air_time c n ≤ℤ int64_max

transmission_time_positive : (n bits : ℕ) → pos 0 ≤ℤ transmission_time n bits
unfolding transmission_time
transmission_time_positive n bits = ground arith

air_time_positive : (c : FaultConfiguration) (n : ℕ) → pos 0 ≤ℤ air_time c n
air_time_positive c n = ground (arith, transmission_time_positive n c.bandwidth_bits_per_second)

max_positive : (a b : ℤ) → pos 0 ≤ℤ a → pos 0 ≤ℤ b → pos 0 ≤ℤ max_ℤ a b
max_positive a b h k = elim (Bool-cases (ltzb a b)) [ inl e ↦ rw e k | inr e ↦ rw e h ]

max_add : (a b t m : ℤ) → a +ℤ t ≤ℤ m → b +ℤ t ≤ℤ m → max_ℤ a b +ℤ t ≤ℤ m
max_add a b t m h k = elim (Bool-cases (ltzb a b)) [ inl e ↦ rw e k | inr e ↦ rw e h ]

no_neg_part : (a : ℤ) → pos 0 ≤ℤ a → neg_part a ≡ 0
no_neg_part a h = ground arith

-- A sum of times that are not negative is exact up to the largest time.
add_i64_positive : (a b : ℤ) → pos 0 ≤ℤ a → pos 0 ≤ℤ b → a +ℤ b ≤ℤ int64_max → add_i64 a b ≡ a +ℤ b
add_i64_positive a b h k l = add_i64_exact a b l (omega (int_laws, h, k))

module _ (c : FaultConfiguration) (n : ℕ) (earliest next : ℤ) (start : pos 0 ≤ℤ earliest)
    (started : pos 0 ≤ℤ next) (due : earliest +ℤ air_time c n +ℤ air_time c n ≤ℤ int64_max)
    (free : next +ℤ air_time c n +ℤ air_time c n ≤ℤ int64_max) where
  first_busy :
      c.bandwidth_bits_per_second ≢ 0
      → let air = transmission_time n c.bandwidth_bits_per_second in
        let time = max_ℤ earliest next in
        let next_time = max_ℤ earliest (time +ℤ air) in
        (add_i64 time air ≡ time +ℤ air) × (add_i64 next_time air ≡ next_time +ℤ air)
  first_busy limited =
      let air : air_time c n ≡ transmission_time n c.bandwidth_bits_per_second = ground arith in
      let long = transmission_time_positive n c.bandwidth_bits_per_second in
      exact _ long (rw (sym air) due) (rw (sym air) free)
    where
      exact :
          (air : ℤ)
          → pos 0 ≤ℤ air
          → earliest +ℤ air +ℤ air ≤ℤ int64_max
          → next +ℤ air +ℤ air ≤ℤ int64_max
          → let time = max_ℤ earliest next in
            let next_time = max_ℤ earliest (time +ℤ air) in
            (add_i64 time air ≡ time +ℤ air) × (add_i64 next_time air ≡ next_time +ℤ air)
      exact air long h k =
          let from = max_positive earliest next start started in
          let short =
            max_add earliest next air int64_max (omega (int_laws, h, long))
              (omega (int_laws, k, long)) in
          let twice : max_ℤ earliest next +ℤ air +ℤ air ≤ℤ int64_max =
            elim (Bool-cases (ltzb earliest next)) [ inl e ↦ rw e k | inr e ↦ rw e h ] in
          (
            add_i64_positive _ _ from long short,
            add_i64_positive _ _ (max_positive _ _ start (omega (int_laws, from, long))) long (
                max_add earliest (max_ℤ earliest next +ℤ air) air int64_max
                  (omega (int_laws, h, long)) twice),
          )

  one-Spaced : Spaced c n 1 earliest next
  unfolding deliveries
  one-Spaced = record {
    from = ground arith;
    unlimited = ground arith;
    limited = λ h. ground (arith, first_busy h);
  }

  two-Spaced : Spaced c n 2 earliest next
  unfolding deliveries
  two-Spaced = record {
    from = ground arith;
    unlimited = ground arith;
    limited = λ h. ground (arith, first_busy h);
  }

  copies-Spaced : (twice : Bool) → Spaced c n (if twice then 2 else 1) earliest next
  copies-Spaced true = two-Spaced
  copies-Spaced false = one-Spaced

module _ (s : FaultState) (n : ℕ) (arrival : ℤ) where
  jitter_range :
      (state : ℕ)
      → pos 0 ≤ℤ s.configuration.jitter
      → pos_part s.configuration.jitter < 2 ^ 63
      → let k = to_i64 (bounded_random state (to_u64 s.configuration.jitter)).0 in
        (pos 0 ≤ℤ k) × (k ≤ℤ s.configuration.jitter)
  jitter_range state positive fits =
      ground (arith, bounded_random-le state (to_u64 s.configuration.jitter))

  Spaced-Passes :
      (k state : ℕ) (jitter : ℤ)
      → (k ≡ 1) ⊎ (k ≡ 2)
      → (pos 0 ≤ℤ jitter) × (jitter ≤ℤ s.configuration.jitter)
      → let earliest = arrival +ℤ s.configuration.latency +ℤ jitter in
        let out = deliveries k s.configuration n earliest s.next_transmit_time in
        Spaced s.configuration n k earliest s.next_transmit_time
        → Passes s.configuration s.next_transmit_time n arrival
            (record s { random_state = state; next_transmit_time = out.1 })
            (record { dropped = false; delivery_count = k; delivery_times = slots out.0 })
  Spaced-Passes k state jitter counted range spaced = record {
    kept = refl;
    counted = counted;
    late = omega (int_laws, range.0, spaced.from);
    unlimited = λ free.
        let (first, next) = spaced.unlimited free in (rw first (omega (int_laws, range.1)), next);
    limited = spaced.limited;
  }

  jitter_fits :
      IsConfiguration s.configuration
      → IsTimely s.configuration s.next_transmit_time n arrival
      → pos_part s.configuration.jitter < 2 ^ 63
  jitter_fits v fits = omega (
    int_laws,
    no_neg_part s.configuration.jitter v.jitter,
    v.latency,
    fits.arrived,
    fits.due,
    air_time_positive s.configuration n,
  )

  -- The earliest time of a copy is the sum that it is meant to be, and leaves room for two copies.
  earliest_exact :
      (jitter : ℤ)
      → IsConfiguration s.configuration
      → IsTimely s.configuration s.next_transmit_time n arrival
      → (pos 0 ≤ℤ jitter) × (jitter ≤ℤ s.configuration.jitter)
      → let c = s.configuration in
        let earliest = arrival +ℤ c.latency +ℤ jitter in
        (add_i64 (add_i64 arrival c.latency) jitter ≡ earliest)
        × (pos 0 ≤ℤ earliest)
        × (earliest +ℤ air_time c n +ℤ air_time c n ≤ℤ int64_max)
  earliest_exact jitter v fits range =
      let long = air_time_positive s.configuration n in
      let due : arrival
            +ℤ s.configuration.latency
            +ℤ jitter
            +ℤ air_time s.configuration n
            +ℤ air_time s.configuration n
          ≤ℤ int64_max =
        omega (int_laws, fits.due, range.1) in
      let first =
        add_i64_positive arrival s.configuration.latency fits.arrived v.latency
          (omega (int_laws, v.jitter, fits.due, long)) in
      (
        rw first (
            add_i64_positive _ _ (omega (int_laws, fits.arrived, v.latency)) range.0
              (omega (int_laws, due, long))),
        omega (int_laws, fits.arrived, v.latency, range.0),
        due,
      )

  one_or_two : (twice : Bool) → let k : ℕ = if twice then 2 else 1 in (k ≡ 1) ⊎ (k ≡ 2)
  one_or_two true = inr refl
  one_or_two false = inl refl

  pub pass_frame-Passes :
      IsConfiguration s.configuration
      → IsTimely s.configuration s.next_transmit_time n arrival
      → Passes s.configuration s.next_transmit_time n arrival
          (pass_frame s n arrival).0
          (pass_frame s n arrival).1
  unfolding pass_frame
  pass_frame-Passes v fits =
      let duplicated = bounded_random s.random_state 9999 in
      let twice = ltb duplicated.0 s.configuration.duplication_basis_points in
      let k = if twice then 2 else 1 in
      let jitter = bounded_random duplicated.1 (to_u64 s.configuration.jitter) in
      let range = jitter_range duplicated.1 v.jitter (jitter_fits v fits) in
      let (exact, start, due) = earliest_exact (to_i64 jitter.0) v fits range in
      subst
        (λ earliest.
          let out = deliveries k s.configuration n earliest s.next_transmit_time in
          Passes s.configuration s.next_transmit_time n arrival
            (record s { random_state = jitter.1; next_transmit_time = out.1 })
            (record { dropped = false; delivery_count = k; delivery_times = slots out.0 }))
        (sym exact)
        (Spaced-Passes k _ _ (one_or_two twice) range
          (copies-Spaced s.configuration n _ _ start fits.started due fits.free twice))

  pass_frame_counts :
      let d = (pass_frame s n arrival).1 in
      (s.configuration.duplication_basis_points ≡ 10000 → d.delivery_count ≡ 2)
      × (s.configuration.duplication_basis_points ≡ 0 → d.delivery_count ≡ 1)
  unfolding pass_frame
  pass_frame_counts = ground (arith, bounded_random-le s.random_state 9999)

pub pass_frame_keeps :
    (s : FaultState) (n : ℕ) (arrival : ℤ)
    → (pass_frame s n arrival).0.configuration ≡ s.configuration
unfolding pass_frame
pass_frame_keeps s n arrival = refl

module _ (s : FaultState) (n : ℕ) (arrival : ℤ) where
  -- With a configuration in range, times that are not negative, and two copies of the frame off the
  -- link before 2 ^ 63 nanoseconds, evaluating keeps the configuration. A blackholed or isolated target drops every frame and does not change; another
  -- one drops the frame, never at a loss of 0, or lets it pass as its configuration says, never at
  -- a loss of 100 percent, always in two copies at 100 percent duplication and in one at 0.
  pub evaluate_state_lem :
      IsConfiguration s.configuration
      → IsTimely s.configuration s.next_transmit_time n arrival
      → let c = s.configuration in
        let s' = (evaluate_state s n arrival).0 in
        let d = (evaluate_state s n arrival).1 in
        (s'.configuration ≡ c)
        × (((c.blackhole || c.isolated) ≡ true → (d ≡ drop_frame) × (s' ≡ s)))
        × ((c.blackhole || c.isolated) ≡ false
            → ((d ≡ drop_frame) × (0 < c.loss_basis_points))
              ⊎ (Passes s.configuration s.next_transmit_time n arrival s' d
                  × (c.loss_basis_points < 10000)
                  × (c.duplication_basis_points ≡ 10000 → d.delivery_count ≡ 2)
                  × (c.duplication_basis_points ≡ 0 → d.delivery_count ≡ 1)))
  unfolding evaluate_state
  evaluate_state_lem v fits =
      let lost = bounded_random s.random_state 9999 in
      let s' = record s { random_state = lost.1 } in
      let passes = pass_frame-Passes s' n arrival v fits in
      let counts = pass_frame_counts s' n arrival in
      let keeps = pass_frame_keeps s' n arrival in
      let roll = bounded_random-le s.random_state 9999 in
      elim (Bool-cases (s.configuration.blackhole || s.configuration.isolated)) [
        | inl e ↦ rw e (refl, (λ _. (refl, refl)), λ f. absurd (false≢true (sym f)))
        | inr e ↦ elim (Bool-cases (ltb lost.0 s.configuration.loss_basis_points)) [
          | inl f ↦ rw (e, f) (refl, (λ t. absurd (false≢true t)), λ _. inl (refl, ground arith))
          | inr f ↦
              rw (e, f)
                (
                  keeps,
                  (λ t. absurd (false≢true t)),
                  λ _. inr (passes, ground (arith, roll), counts.0, counts.1),
                )
        ]
      ]

-- Evaluating a target changes no other target's state; without a fault the frame is delivered
-- once, at its arrival, and the engine stays as it was; with one the decision is that of its
-- state, and the state after it is stored.
pub evaluate_lem :
    (e : FaultEngine) (target : Text) (n : ℕ) (arrival : ℤ)
    → ((fault_for e target ≡ none) × (evaluate e target n arrival ≡ (e, deliver_now arrival)))
      ⊎ ((s : FaultState) × (find text_discrete target e.states ≡ some s)
          × ((evaluate e target n arrival).1 ≡ (evaluate_state s n arrival).1)
          × ((j : Text)
              → find text_discrete j (evaluate e target n arrival).0.states
                ≡ ite
                    (text_discrete target j)
                    (some (evaluate_state s n arrival).0)
                    (find text_discrete j e.states)))
unfolding evaluate fault_for
evaluate_lem e target n arrival = elim (Option-cases (find text_discrete target e.states)) [
  | inl miss ↦ inl (ground arith, ground arith)
  | inr (s, hit) ↦ inr (
    s,
    hit,
    ground arith,
    λ j. ground (arith, find-assign text_discrete j target (evaluate_state s n arrival).0 e.states),
  )
]
