-- ===== src/Base/Int.antt =====
-- Signed integers over the native numbers, and the bounds of int64_t.
use Prim.Native.Nat.{ℕ, suc, ◌+◌, ◌-◌, ◌%◌, ◌≤◌, ◌<◌}
use mathlib.Core.Path.{◌≡◌}
use mathlib.Core.Logic.{◌⊎◌, ◌≢◌}
use mathlib.Core.Bool.{Bool, true, false}
use native.Mathlib.Omega.{arith}
use mw_streamer.Base.Tests.{ltb, leb, ◌==◌, if◌then◌else◌}

-- `negsuc n` is -(n + 1).
pub data ℤ : Type 0 where
  pos : ℕ → ℤ
  negsuc : ℕ → ℤ

abbrev pub pos_part : ℤ → ℕ
pos_part (pos n) = n
pos_part (negsuc n) = 0

abbrev pub neg_part : ℤ → ℕ
neg_part (pos n) = 0
neg_part (negsuc n) = suc n

-- a - b, as an integer.
abbrev pub sub_ℕ : ℕ → ℕ → ℤ
sub_ℕ a b = if leb b a then pos (a - b) else negsuc (b - a - 1)

infixl 65 ◌+ℤ◌ ◌-ℤ◌
infix 50 ◌≤ℤ◌ ◌<ℤ◌
unfoldable pub ◌+ℤ◌ : ℤ → ℤ → ℤ
a +ℤ b = sub_ℕ (pos_part a + pos_part b) (neg_part a + neg_part b)

unfoldable pub ◌-ℤ◌ : ℤ → ℤ → ℤ
a -ℤ b = sub_ℕ (pos_part a + neg_part b) (neg_part a + pos_part b)

unfoldable pub -ℤ◌ : ℤ → ℤ
-ℤ◌ a = sub_ℕ (neg_part a) (pos_part a)

abbrev pub ◌≤ℤ◌ : ℤ → ℤ → Type 0
a ≤ℤ b = pos_part a + neg_part b ≤ pos_part b + neg_part a

abbrev pub ◌<ℤ◌ : ℤ → ℤ → Type 0
a <ℤ b = pos_part a + neg_part b < pos_part b + neg_part a

unfoldable pub ltb_ℤ : ℤ → ℤ → Bool
ltb_ℤ a b = ltb (pos_part a + neg_part b) (pos_part b + neg_part a)

unfoldable pub leb_ℤ : ℤ → ℤ → Bool
leb_ℤ a b = leb (pos_part a + neg_part b) (pos_part b + neg_part a)

unfoldable pub eqb_ℤ : ℤ → ℤ → Bool
eqb_ℤ a b = (pos_part a + neg_part b) == (pos_part b + neg_part a)

-- std::min and std::max: the first argument on a tie.
abbrev pub min_ℤ : ℤ → ℤ → ℤ
min_ℤ a b = if ltb_ℤ b a then b else a

abbrev pub max_ℤ : ℤ → ℤ → ℤ
max_ℤ a b = if ltb_ℤ a b then b else a

pub +ℤ_parts :
    (a b : ℤ)
    → pos_part (a +ℤ b) + neg_part a + neg_part b ≡ neg_part (a +ℤ b) + pos_part a + pos_part b
unfolding ◌+ℤ◌
+ℤ_parts a b = ground arith

pub -ℤ_parts :
    (a b : ℤ)
    → pos_part (a -ℤ b) + neg_part a + pos_part b ≡ neg_part (a -ℤ b) + pos_part a + neg_part b
unfolding ◌-ℤ◌
-ℤ_parts a b = ground arith

pub negℤ_parts : (a : ℤ) → pos_part (-ℤ◌ a) + pos_part a ≡ neg_part (-ℤ◌ a) + neg_part a
unfolding -ℤ◌
negℤ_parts a = ground arith

pub eq_of_parts : (a b : ℤ) → pos_part a + neg_part b ≡ pos_part b + neg_part a → a ≡ b
eq_of_parts a b h = ground arith

pub parts_of_eq : (a b : ℤ) → a ≡ b → pos_part a + neg_part b ≡ pos_part b + neg_part a
parts_of_eq a b h = ground (arith, h)

pub ruleset int_laws = (arith, +ℤ_parts, -ℤ_parts, negℤ_parts, eq_of_parts)

-- A test with the order that its outcome states.
pub ltb_ℤ_cases : (a b : ℤ) → ((ltb_ℤ a b ≡ true) × (a <ℤ b)) ⊎ ((ltb_ℤ a b ≡ false) × (b ≤ℤ a))
unfolding ltb_ℤ
ltb_ℤ_cases a b = ground arith

pub leb_ℤ_cases : (a b : ℤ) → ((leb_ℤ a b ≡ true) × (a ≤ℤ b)) ⊎ ((leb_ℤ a b ≡ false) × (b <ℤ a))
unfolding leb_ℤ
leb_ℤ_cases a b = ground arith

pub min_ℤ_cases : (a b : ℤ) → ((min_ℤ a b ≡ b) × (b ≤ℤ a)) ⊎ ((min_ℤ a b ≡ a) × (a ≤ℤ b))
unfolding ltb_ℤ
min_ℤ_cases a b = ground arith

pub min_ℤ-eq_right : (a b : ℤ) → b <ℤ a → min_ℤ a b ≡ b
unfolding ltb_ℤ
min_ℤ-eq_right a b h = ground arith

pub eqb_ℤ_cases : (a b : ℤ) → ((eqb_ℤ a b ≡ true) × (a ≡ b)) ⊎ ((eqb_ℤ a b ≡ false) × (a ≢ b))
unfolding eqb_ℤ
eqb_ℤ_cases a b = ground arith

pub eqb_ℤ_self : (a : ℤ) → eqb_ℤ a a ≡ true
unfolding eqb_ℤ
eqb_ℤ_self a = ground arith

-- std::numeric_limits<std::int64_t>.
abbrev pub int64_max : ℤ
int64_max = pos 9223372036854775807

abbrev pub int64_min : ℤ
int64_min = negsuc 9223372036854775807

pub record IsInt64 (a : ℤ) : Type 0 where
  pub above : int64_min ≤ℤ a
  pub below : a ≤ℤ int64_max

-- static_cast<std::uint64_t>, and the difference of two std::uint64_t.
abbrev pub uint64_mod : ℕ
uint64_mod = 18446744073709551616

unfoldable pub to_uint64 : ℤ → ℕ
to_uint64 (pos n) = n % uint64_mod
to_uint64 (negsuc n) = uint64_mod - 1 - n % uint64_mod

unfoldable pub sub_uint64 : ℕ → ℕ → ℕ
sub_uint64 a b = (a + uint64_mod - b) % uint64_mod

pub to_uint64-nonneg : (a : ℤ) → pos 0 ≤ℤ a → a ≤ℤ int64_max → pos (to_uint64 a) ≡ a
unfolding to_uint64
to_uint64-nonneg a h k = ground arith

-- The unsigned difference of two ordered int64_t is the exact one, also over the whole range.
pub sub_uint64-exact :
    (a b : ℤ)
    → IsInt64 a
    → IsInt64 b
    → a ≤ℤ b
    → pos (sub_uint64 (to_uint64 b) (to_uint64 a)) ≡ b -ℤ a
unfolding sub_uint64 to_uint64 ◌-ℤ◌
sub_uint64-exact a b ha hb h = ground arith
