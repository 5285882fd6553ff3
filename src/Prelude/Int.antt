-- ===== src/Prelude/Int.antt =====
-- Signed integers over the native numbers: the source's `std::chrono` counts.
use Prim.Native.Nat.{ℕ, suc, ◌+◌, ◌-◌, ◌≤◌, ◌<◌, ◌^◌}
use mathlib.Core.Path.{◌≡◌}
use mathlib.Core.Bool.{Bool}
use native.Mathlib.Omega.{arith}
use packet_switch.Prelude.Tests.{ltb, leb, if◌then◌else◌}

-- `negsuc n` is -(n + 1).
pub data ℤ : Type 0 where
  pos : ℕ → ℤ
  negsuc : ℕ → ℤ

abbrev pub pos_part : ℤ → ℕ
pos_part (pos n) = n
pos_part (negsuc n) = 0

abbrev pub neg_part : ℤ → ℕ
neg_part (pos n) = 0
neg_part (negsuc n) = suc n

-- a - b, as an integer.
abbrev pub sub_ℕ : ℕ → ℕ → ℤ
sub_ℕ a b = if leb b a then pos (a - b) else negsuc (b - a - 1)

infixl 65 ◌+ℤ◌ ◌-ℤ◌
infix 50 ◌≤ℤ◌ ◌<ℤ◌
unfoldable pub ◌+ℤ◌ : ℤ → ℤ → ℤ
a +ℤ b = sub_ℕ (pos_part a + pos_part b) (neg_part a + neg_part b)

unfoldable pub ◌-ℤ◌ : ℤ → ℤ → ℤ
a -ℤ b = sub_ℕ (pos_part a + neg_part b) (neg_part a + pos_part b)

abbrev pub ◌≤ℤ◌ : ℤ → ℤ → Type 0
a ≤ℤ b = pos_part a + neg_part b ≤ pos_part b + neg_part a

abbrev pub ◌<ℤ◌ : ℤ → ℤ → Type 0
a <ℤ b = pos_part a + neg_part b < pos_part b + neg_part a

abbrev pub ltzb : ℤ → ℤ → Bool
ltzb a b = ltb (pos_part a + neg_part b) (pos_part b + neg_part a)

abbrev pub lezb : ℤ → ℤ → Bool
lezb a b = leb (pos_part a + neg_part b) (pos_part b + neg_part a)

-- `std::max(a, b)`: `b` where `a < b`, else `a`.
abbrev pub max_ℤ : ℤ → ℤ → ℤ
max_ℤ a b = if ltzb a b then b else a

-- `std::min(a, b)`: `b` where `b < a`, else `a`.
abbrev pub min_ℤ : ℤ → ℤ → ℤ
min_ℤ a b = if ltzb b a then b else a

-- The bit pattern of an `int64_t` as a `uint64_t`, and back.
abbrev pub to_u64 : ℤ → ℕ
to_u64 (pos n) = n
to_u64 (negsuc n) = 2 ^ 64 - 1 - n

abbrev pub to_i64 : ℕ → ℤ
to_i64 n = if ltb n (2 ^ 63) then pos n else negsuc (2 ^ 64 - 1 - n)

-- `std::numeric_limits<int64_t>::max()`.
abbrev pub int64_max : ℤ
int64_max = pos (2 ^ 63 - 1)

-- The sum of two `int64_t`, which wraps around as the machine's does.
unfoldable pub add_i64 : ℤ → ℤ → ℤ
add_i64 a b = to_i64 (to_u64 (a +ℤ b))

-- One lemma for each operation lets `omega` work with the operations shut.
pub +ℤ_parts :
    (a b : ℤ)
    → pos_part (a +ℤ b) + neg_part a + neg_part b ≡ neg_part (a +ℤ b) + pos_part a + pos_part b
unfolding ◌+ℤ◌
+ℤ_parts a b = ground arith

pub -ℤ_parts :
    (a b : ℤ)
    → pos_part (a -ℤ b) + neg_part a + pos_part b ≡ neg_part (a -ℤ b) + pos_part a + neg_part b
unfolding ◌-ℤ◌
-ℤ_parts a b = ground arith

-- A sum that an `int64_t` holds is exact.
pub add_i64_exact :
    (a b : ℤ) → a +ℤ b ≤ℤ int64_max → negsuc (2 ^ 63 - 1) ≤ℤ a +ℤ b → add_i64 a b ≡ a +ℤ b
unfolding add_i64
add_i64_exact a b h k = ground arith

pub eq_of_parts : (a b : ℤ) → pos_part a + neg_part b ≡ pos_part b + neg_part a → a ≡ b
eq_of_parts a b h = ground arith

pub ruleset int_laws = (arith, +ℤ_parts, -ℤ_parts, eq_of_parts)
