-- ===== src/Prelude/Bits.antt =====
-- `|` of a shifted number and one below the shift, and tests of every number below a bound.
use Prim.Native.Nat.{
  ℕ, zero, suc, ◌+◌, ◌*◌, ◌/◌, ◌%◌, ◌≤◌, ◌<◌, max, bit_or, digits, bit_or-bitwise,
}
use mathlib.Core.Path.{◌≡◌, refl}
use mathlib.Core.Bool.{Bool, true, false}
use native.Mathlib.Omega.{arith}
use packet_switch.Prelude.Tests.{if◌then◌else◌}

-- `bit_or` on the binary digits of its arguments, with fuel.
abbrev ors : ℕ → ℕ → ℕ → ℕ
ors fuel = digits (λ y. y) max fuel

-- Fuel beyond the first argument changes nothing.
more_fuel : (x less more y : ℕ) → x ≤ less → less ≤ more → ors more x y ≡ ors less x y
more_fuel zero zero zero y k l = refl
more_fuel zero zero (suc more) y k l = refl
more_fuel zero (suc less) zero y k l = refl
more_fuel zero (suc less) (suc more) y k l = refl
more_fuel (suc x) zero more y k l = absurd (omega arith)
more_fuel (suc x) (suc less) zero y k l = absurd (omega arith)
more_fuel (suc x) (suc less) (suc more) y k l =
    omega (arith, more_fuel (suc x / 2) less more (y / 2) (omega arith) (omega arith))

-- The lowest digit of `|`, and the rest.
bit_or_digit : (y x : ℕ) → bit_or x y ≡ bit_or (x / 2) (y / 2) * 2 + max (x % 2) (y % 2)
bit_or_digit y zero = omega (arith, bit_or-bitwise 0 y, bit_or-bitwise 0 (y / 2))
bit_or_digit y (suc x) = omega (
  arith,
  bit_or-bitwise (suc x) y,
  bit_or-bitwise (suc x / 2) (y / 2),
  more_fuel (suc x / 2) (suc x / 2) x (y / 2) (omega arith) (omega arith),
)

bit_or-zero : (bound x : ℕ) → x ≤ bound → bit_or x 0 ≡ x
bit_or-zero bound zero k = refl
bit_or-zero zero (suc x) k = absurd (omega arith)
bit_or-zero (suc bound) (suc x) k =
    omega (arith, bit_or_digit 0 (suc x), bit_or-zero bound (suc x / 2) (omega arith))

-- The value of a shift by `k`.
abbrev pub pow2 : ℕ → ℕ
pow2 zero = 1
pow2 (suc k) = 2 * pow2 k

-- `(high << k) | low`, where `low` stays below the shifted bits.
pub or_disjoint : (low high k : ℕ) → low < pow2 k → bit_or (high * pow2 k) low ≡ high * pow2 k + low
or_disjoint zero high zero fits = omega (arith, bit_or-zero (high * 1) (high * 1) (omega arith))
or_disjoint (suc low) high zero fits = absurd (omega arith)
or_disjoint low high (suc k) fits =
    let shift : high * (2 * pow2 k) / 2 ≡ high * pow2 k = omega arith in
    let rest : bit_or (high * (2 * pow2 k) / 2) (low / 2) ≡ high * pow2 k + low / 2 =
      rw shift (or_disjoint (low / 2) high k (omega arith)) in
    omega (arith, bit_or_digit low (high * (2 * pow2 k)), rest)

-- A test holds of every number below `top`, found by trying each.
unfoldable pub passes_below : (ℕ → Bool) → ℕ → Bool
passes_below test zero = true
passes_below test (suc top) = let lower = passes_below test top in if test top then lower else false

pub passes_below_lem :
    (test : ℕ → Bool) (v top : ℕ) → v < top → passes_below test top ≡ true → test v ≡ true
unfolding passes_below
passes_below_lem test v zero below all = absurd (omega arith)
passes_below_lem test v (suc top) below all = ground (arith, passes_below_lem test v top)
