-- ===== src/Ffmpeg/Plain.antt =====
-- Concrete time arithmetic, for tests and instances of the theorems.
use mw_streamer.Base.{
  ℕ, ◌+◌, ◌*◌, ◌/◌, suc, ℤ, pos, negsuc, pos_part, -ℤ◌, ◌-ℤ◌, int_laws, arith, leb_ℤ, leb_ℤ_cases,
  int64_min, int64_max, IsInt64, ◌&&◌, if◌then◌else◌,
}
use mw_streamer.Ffmpeg.{AvRational, TimeMath, IsOrder, IsBounded}

-- n * k / d, rounded to the nearest number, halves up.
abbrev round_div : ℕ → ℕ → ℕ
round_div n d = (2 * n + d) / (2 * d)

abbrev rescale_nat : ℕ → AvRational → AvRational → ℕ
rescale_nat n p q =
    round_div (n * pos_part p.num * pos_part q.den) (pos_part p.den * pos_part q.num)

-- Rounds to the nearest number, halves away from 0.
abbrev rescale_near : ℤ → AvRational → AvRational → ℤ
rescale_near (pos n) p q = pos (rescale_nat n p q)
rescale_near (negsuc n) p q = -ℤ◌ (pos (rescale_nat (suc n) p q))

abbrev compare_num : AvRational → AvRational → ℤ
compare_num p q = pos (pos_part p.num * pos_part q.den) -ℤ pos (pos_part q.num * pos_part p.den)

abbrev pub swap_q : AvRational → AvRational
swap_q q = record { num = q.den; den = q.num }

-- All tracks count in one unit: a moment is its timestamp.
abbrev pub plain : TimeMath
plain = record {
  rescale_q = rescale_near;
  compare_ts = λ a p b q. a -ℤ b;
  cmp_q = compare_num;
  inv_q = swap_q;
}

-- As `plain`, but with the results of an int64_t.
abbrev pub clamp : ℤ → ℤ
clamp a = if leb_ℤ int64_min a && leb_ℤ a int64_max then a else int64_min

abbrev pub clamped : TimeMath
clamped = record plain { rescale_q = λ a p q. clamp (rescale_near a p q) }

clamp-IsInt64 : (a : ℤ) → IsInt64 (clamp a)
clamp-IsInt64 a = ground (arith, leb_ℤ_cases int64_min a, leb_ℤ_cases a int64_max)

pub clamped-IsBounded : IsBounded clamped
clamped-IsBounded = record { rescale_bounds = λ a p q. clamp-IsInt64 (rescale_near a p q) }

pub plain-IsOrder : IsOrder plain
plain-IsOrder = record {
  compare_swap = λ a p b q _ _. omega int_laws;
  compare_trans = λ a p b q c r _ _ _ h k. omega int_laws;
  compare_mono = λ a b p q _ _ _ h. (omega int_laws, omega int_laws);
}
