-- ===== src/ForceFps/Jump.antt =====
-- The test for a discontinuity, without machine arithmetic.
use mw_streamer.Base.{
  ◌≡◌, ◌⊎◌, inl, inr, ◌↔◌, true, some, ℤ, pos, ◌-ℤ◌, ◌<ℤ◌, ◌≤ℤ◌, ltb_ℤ_cases, int64_max, IsInt64,
  to_uint64, sub_uint64, sub_uint64-exact, arith,
}
use mw_streamer.Ffmpeg.{TimeMath, AvRational}
use mw_streamer.ForceFps.{is_discontinuity, half_second}

module _ (m : TimeMath) (time_base : AvRational) where
  -- A step back; a step that no int64_t holds; or a step that is longer than one period of the
  -- output and half a second.
  abbrev pub Jumps : ℤ → ℤ → Type 0
  Jumps last pts =
      (pts <ℤ last)
      ⊎ ((int64_max <ℤ pts -ℤ last)
          ⊎ ((pos 1 <ℤ pts -ℤ last)
              × (pos 0 <ℤ m.compare_ts (pts -ℤ last -ℤ pos 1) time_base (pos 1) half_second)))

  exact_above :
      (last pts : ℤ)
      → pos (sub_uint64 (to_uint64 pts) (to_uint64 last)) ≡ pts -ℤ last
      → last ≤ℤ pts
      → (is_discontinuity m time_base (some last) pts ≡ true) ↔ Jumps last pts
  unfolding is_discontinuity
  exact_above last pts e h = rw e (
      ground (
        arith,
        ltb_ℤ_cases pts last,
        ltb_ℤ_cases int64_max (pts -ℤ last),
        ltb_ℤ_cases (pos 1) (pts -ℤ last),
        ltb_ℤ_cases (pos 0) (m.compare_ts (pts -ℤ last -ℤ pos 1) time_base (pos 1) half_second),
      ))

  exact_below :
      (last pts : ℤ)
      → pts <ℤ last
      → (is_discontinuity m time_base (some last) pts ≡ true) ↔ Jumps last pts
  unfolding is_discontinuity
  exact_below last pts h = ground (arith, ltb_ℤ_cases pts last)

  -- For timestamps that are int64_t, the test that works on unsigned differences is the exact one.
  pub is_discontinuity-exact :
      (last pts : ℤ)
      → IsInt64 last
      → IsInt64 pts
      → (is_discontinuity m time_base (some last) pts ≡ true) ↔ Jumps last pts
  is_discontinuity-exact last pts hl hp = elim (ltb_ℤ_cases pts last) [
    | inl (_, h) ↦ exact_below last pts h
    | inr (_, h) ↦ exact_above last pts (sub_uint64-exact last pts hl hp h) h
  ]
