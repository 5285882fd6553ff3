-- ===== src/FaultEngine/Random.antt =====
-- The bounded random numbers of the fault engine.
use packet_switch.Prelude.{ℕ, ◌-◌, ◌^◌, ◌≤◌, ◌<◌, arith}
use packet_switch.FaultEngine.{bounded_random}

-- A bounded random number does not exceed its bound, for every bound below the largest `uint64_t`.
pub bounded_random-le :
    (state upper : ℕ) → upper < 2 ^ 64 - 1 → (bounded_random state upper).0 ≤ upper
unfolding bounded_random
bounded_random-le state upper h = ground arith
