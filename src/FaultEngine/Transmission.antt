-- ===== src/FaultEngine/Transmission.antt =====
-- The time that a frame takes on a link of a given bandwidth.
use native.Mathlib.Nat.{div-add-mod', mod-lt, mod-le}
use packet_switch.Prelude.{
  ℕ, suc, ◌+◌, ◌-◌, ◌*◌, ◌/◌, ◌%◌, ◌^◌, ◌≤◌, ◌<◌, ◌≡◌, refl, zero, if◌then◌else◌, ltb, ◌==◌, arith,
}
use packet_switch.Prelude.Int.{pos, int64_max}
use packet_switch.FaultEngine.{transmission_time}

le-mul_pos : (a b : ℕ) → 0 < b → a ≤ a * b
le-mul_pos a b h = grind arith

-- Whole seconds and a rounded-up remainder are the rounded-up whole.
ceiling :
    (bits bps scale : ℕ)
    → 0 < bps
    → let t = bits / bps * scale + (bits % bps * scale + bps - 1) / bps in
      (bits * scale ≤ t * bps) × (t * bps < bits * scale + bps)
ceiling bits bps scale h =
    let q = bits / bps in
    let r = bits % bps in
    let top = r * scale + bps - 1 in
    let split : q * bps + r ≡ bits = div-add-mod' bits bps in
    let scaled : (q * bps + r) * scale ≡ bits * scale = rw split in
    let up : top / bps * bps + top % bps ≡ top = div-add-mod' top bps in
    let less : top % bps < bps = mod-lt top h in (omega arith, omega arith)

no_bits : (t bps : ℕ) → 0 < bps → t * bps < 0 * 1000000000 + bps → t ≡ 0
no_bits zero bps h k = refl
no_bits (suc t) bps h k = absurd (omega arith)

in_range :
    (bits seconds t : ℕ)
    → (bits ≡ 0 → t ≡ 0)
    → seconds * 1000000000 ≤ t
    → t < 2 ^ 63
    → (if bits == 0
        then pos 0
        else if ltb 18446744073 seconds
        then int64_max
        else if ltb (2 ^ 63 - 1) t
        then int64_max
        else pos t)
      ≡ pos t
in_range bits seconds t z s h = ground arith

-- Where nothing overflows, the result is the least number of nanoseconds in which the link carries
-- every bit of the frame.
pub transmission_time_ceiling :
    (frame_bytes bps : ℕ)
    → 0 < bps
    → frame_bytes * 8 * 1000000000 + bps < 2 ^ 63
    → (t : ℕ) × (transmission_time frame_bytes bps ≡ pos t)
      × (frame_bytes * 8 * 1000000000 ≤ t * bps)
      × (t * bps < frame_bytes * 8 * 1000000000 + bps)
unfolding transmission_time
transmission_time_ceiling frame_bytes bps h fits =
    let bits = frame_bytes * 8 in
    let q = bits / bps in
    let r = bits % bps in
    let t = q * 1000000000 + (r * 1000000000 + bps - 1) / bps in
    let bounds = ceiling bits bps 1000000000 h in
    let small : bits % 2 ^ 64 ≡ bits = omega arith in
    let top : (r * 1000000000 + bps - 1) % 2 ^ 64 ≡ r * 1000000000 + bps - 1 =
      omega (arith, mod-le bits bps) in
    let below : t < 2 ^ 63 = omega (arith, le-mul_pos t bps h, bounds) in
    let whole : t % 2 ^ 64 ≡ t = omega arith in
    let zero_time : bits ≡ 0 → t ≡ 0 = λ e. no_bits t bps h (omega (arith, e, bounds.1)) in
    (t, rw (small, top, whole, transmission_time) (ground arith), bounds.0, bounds.1)
