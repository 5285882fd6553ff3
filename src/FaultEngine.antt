-- ===== src/FaultEngine.antt =====
-- src/fault_engine.cpp and include/wirelab/fault_engine.hpp: the faults configured by target, and
-- the decision that they make of a frame. Times count nanoseconds in an `int64_t`, whose
-- overflow, undefined in C++, wraps around as the machine's does; `uint64_t` wraps.
pub mod Random
pub mod Transmission
pub mod Faults
pub mod Decisions
use packet_switch.Prelude.{
  ℕ, zero, suc, ◌+◌, ◌-◌, ◌*◌, ◌/◌, ◌%◌, ◌^◌, Bool, true, false, not, ◌||◌, Option, none, some,
  List, [], ◌∷◌, map, ◌==◌, ltb, if◌then◌else◌, Expected, ok, unexpected, is_some, get_or, bit_xor,
}
use packet_switch.Prelude.Int.{ℤ, pos, add_i64, ltzb, max_ℤ, to_u64, to_i64, int64_max}
use packet_switch.Prelude.Maps.{find, assign, erase}
use packet_switch.Prelude.Sorting.{sort}
use packet_switch.Prelude.Texts.{Text, text_discrete, text_lt, is_empty}

pub data FaultConfigurationError : Type 0 where
  missing_target negative_latency invalid_loss_percentage : FaultConfigurationError
  invalid_duplication_percentage : FaultConfigurationError

pub record FaultConfiguration : Type 0 where
  pub latency : ℤ
  pub jitter : ℤ
  pub loss_basis_points : ℕ
  pub duplication_basis_points : ℕ
  pub bandwidth_bits_per_second : ℕ
  pub blackhole : Bool
  pub isolated : Bool

-- `FaultConfiguration{}`.
abbrev pub no_fault : FaultConfiguration
no_fault = record {
  latency = pos 0;
  jitter = pos 0;
  loss_basis_points = 0;
  duplication_basis_points = 0;
  bandwidth_bits_per_second = 0;
  blackhole = false;
  isolated = false;
}

pub record ActiveFault : Type 0 where
  pub target : Text
  pub configuration : FaultConfiguration

-- `delivery_times` has two entries; `time_point{}` is the time 0.
pub record FaultDecision : Type 0 where
  pub dropped : Bool
  pub delivery_count : ℕ
  pub delivery_times : List ℤ

pub record FaultState : Type 0 where
  pub configuration : FaultConfiguration
  pub random_state : ℕ
  pub next_transmit_time : ℤ

pub record FaultEngine : Type 0 where
  pub seed : ℕ
  pub states : List (Text × FaultState)

abbrev pub basis_points_per_percentage : ℕ
basis_points_per_percentage = 10000

abbrev pub nanoseconds_per_second : ℕ
nanoseconds_per_second = 1000000000

-- `FaultEngine(seed)`.
unfoldable pub init : ℕ → FaultEngine
init seed = record { seed = seed; states = [] }

seed_from : ℕ → Text → ℕ
seed_from hash [] = hash
seed_from hash (c ∷ t) = seed_from (bit_xor hash c * 1099511628211 % 2 ^ 64) t

unfoldable pub target_seed : ℕ → Text → ℕ
unfolding seed_from
target_seed seed target = seed_from (bit_xor 14695981039346656037 seed) target

-- The random number, and the state after it.
unfoldable pub next_random : ℕ → ℕ × ℕ
next_random state =
    let state' = (state + 0x9E3779B97F4A7C15) % 2 ^ 64 in
    let value = bit_xor state' (state' / 2 ^ 30) * 0xBF58476D1CE4E5B9 % 2 ^ 64 in
    let value' = bit_xor value (value / 2 ^ 27) * 0x94D049BB133111EB % 2 ^ 64 in
    (bit_xor value' (value' / 2 ^ 31), state')

unfoldable pub bounded_random : ℕ → ℕ → ℕ × ℕ
unfolding next_random
bounded_random state upper_inclusive =
    if upper_inclusive == 0
    then (0, state)
    else ((next_random state).0 % ((upper_inclusive + 1) % 2 ^ 64), (next_random state).1)

unfoldable pub transmission_time : ℕ → ℕ → ℤ
transmission_time frame_bytes bits_per_second =
    let bits = frame_bytes * 8 % 2 ^ 64 in
    let seconds = bits / bits_per_second in
    let remainder = bits % bits_per_second in
    let nanoseconds =
      (seconds * nanoseconds_per_second
        + (remainder * nanoseconds_per_second + bits_per_second - 1) % 2 ^ 64 / bits_per_second)
      % 2 ^ 64 in
    if bits == 0
    then pos 0
    else if ltb ((2 ^ 64 - 1) / nanoseconds_per_second) seconds
    then int64_max
    else if ltb (2 ^ 63 - 1) nanoseconds
    then int64_max
    else pos nanoseconds

unfoldable pub validate : Text → FaultConfiguration → Expected (Unit {0}) FaultConfigurationError
validate target c =
    if is_empty target
    then unexpected missing_target
    else if ltzb c.latency (pos 0) || ltzb c.jitter (pos 0)
    then unexpected negative_latency
    else if ltb basis_points_per_percentage c.loss_basis_points
    then unexpected invalid_loss_percentage
    else if ltb basis_points_per_percentage c.duplication_basis_points
    then unexpected invalid_duplication_percentage
    else ok tt

abbrev pub fresh_state : ℕ → Text → FaultConfiguration → FaultState
fresh_state seed target c = record {
  configuration = c;
  random_state = target_seed seed target;
  next_transmit_time = pos 0;
}

-- A method that changes the engine returns the new engine beside its result.
unfoldable pub set_fault :
    FaultEngine
    → Text
    → FaultConfiguration
    → FaultEngine × Expected (Unit {0}) FaultConfigurationError
set_fault e target c = elim (validate target c) [
  | unexpected error ↦ (e, unexpected error)
  | ok _ ↦ (
    record e { states = assign text_discrete target (fresh_state e.seed target c) e.states },
    ok tt,
  )
]

unfoldable pub has_fault : FaultEngine → Text → Bool
has_fault e target = is_some (find text_discrete target e.states)

unfoldable pub clear_fault : FaultEngine → Text → FaultEngine × Bool
clear_fault e target = (
  record e { states = erase text_discrete target e.states },
  is_some (find text_discrete target e.states),
)

unfoldable pub fault_for : FaultEngine → Text → Option FaultConfiguration
fault_for e target = elim (find text_discrete target e.states) [
  | none ↦ none
  | some s ↦ some s.configuration
]

abbrev pub fault_less : ActiveFault → ActiveFault → Bool
fault_less left right = text_lt left.target right.target

abbrev pub listed : Text × FaultState → ActiveFault
listed (target, s) = record { target = target; configuration = s.configuration }

unfoldable pub active_faults : FaultEngine → List ActiveFault
active_faults e = sort fault_less (map listed e.states)

-- The loop of `evaluate` over the copies of a frame: their times, and the link's next free time.
unfoldable pub deliveries : ℕ → FaultConfiguration → ℕ → ℤ → ℤ → List ℤ × ℤ
deliveries zero c frame_bytes earliest next_transmit = ([], next_transmit)
deliveries (suc copies) c frame_bytes earliest next_transmit =
    let limited = not (c.bandwidth_bits_per_second == 0) in
    let time = if limited then max_ℤ earliest next_transmit else earliest in
    let busy = add_i64 time (transmission_time frame_bytes c.bandwidth_bits_per_second) in
    let rest = deliveries copies c frame_bytes earliest (if limited then busy else next_transmit) in
    (time ∷ rest.0, rest.1)

abbrev pub slots : List ℤ → List ℤ
slots times = get_or times 0 (pos 0) ∷ get_or times 1 (pos 0) ∷ []

abbrev pub drop_frame : FaultDecision
drop_frame = record { dropped = true; delivery_count = 0; delivery_times = slots [] }

-- The frame is not lost: copies, jitter and bandwidth.
unfoldable pub pass_frame : FaultState → ℕ → ℤ → FaultState × FaultDecision
pass_frame s frame_bytes arrival =
    let c = s.configuration in
    let duplicated = bounded_random s.random_state (basis_points_per_percentage - 1) in
    let count = if ltb duplicated.0 c.duplication_basis_points then 2 else 1 in
    let jitter = bounded_random duplicated.1 (to_u64 c.jitter) in
    let earliest = add_i64 (add_i64 arrival c.latency) (to_i64 jitter.0) in
    let out = deliveries count c frame_bytes earliest s.next_transmit_time in
    (
      record s { random_state = jitter.1; next_transmit_time = out.1 },
      record { dropped = false; delivery_count = count; delivery_times = slots out.0 },
    )

-- `evaluate` at a target with a fault.
unfoldable pub evaluate_state : FaultState → ℕ → ℤ → FaultState × FaultDecision
evaluate_state s frame_bytes arrival =
    let c = s.configuration in
    let lost = bounded_random s.random_state (basis_points_per_percentage - 1) in
    if c.blackhole || c.isolated
    then (s, drop_frame)
    else if ltb lost.0 c.loss_basis_points
    then (record s { random_state = lost.1 }, drop_frame)
    else pass_frame (record s { random_state = lost.1 }) frame_bytes arrival

abbrev pub deliver_now : ℤ → FaultDecision
deliver_now arrival = record {
  dropped = false;
  delivery_count = 1;
  delivery_times = slots (arrival ∷ []);
}

unfoldable pub evaluate : FaultEngine → Text → ℕ → ℤ → FaultEngine × FaultDecision
evaluate e target frame_bytes arrival = elim (find text_discrete target e.states) [
  | none ↦ (e, deliver_now arrival)
  | some s ↦ (
    record e {
      states = assign text_discrete target (evaluate_state s frame_bytes arrival).0 e.states;
    },
    (evaluate_state s frame_bytes arrival).1,
  )
]
