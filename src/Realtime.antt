-- ===== src/Realtime.antt =====
-- src/streamer/scheduler/realtime_timing.cc: the shared realtime clock of both tracks.
pub mod Schedule
pub mod Laws
pub mod Examples
use mw_streamer.Base.{
  ◌≡◌, refl, Bool, true, false, not, ◌||◌, ◌&&◌, Option, none, some, ℤ, pos, -ℤ◌, ◌+ℤ◌, ◌-ℤ◌, ◌<ℤ◌,
  ltb_ℤ, leb_ℤ, min_ℤ, int64_max, int64_min, Result, ok, err, invalid_argument, overflow_error,
  ◌>>=◌, ◌>>◌, throw_if, is_some, if◌then◌else◌,
}

pub record RealtimeConfig : Type 0 where
  pub negative_time_tolerance : ℤ
  pub negative_time_discard : Option ℤ
  pub discontinuity_threshold : ℤ
  pub jitter_margin : ℤ

pub record RealtimeTiming : Type 0 where
  pub config : RealtimeConfig
  pub open config use *
  pub offset_us : Option ℤ

pub record Decision : Type 0 where
  pub ready : Bool
  pub discard : Bool
  pub wake_us : ℤ

-- The int64_t difference, checked before it is taken.
unfoldable pub subtract : ℤ → ℤ → Result ℤ
subtract a b =
    if (ltb_ℤ (pos 0) b && ltb_ℤ a (int64_min +ℤ b))
      || (ltb_ℤ b (pos 0) && ltb_ℤ (int64_max +ℤ b) a)
    then err overflow_error
    else ok (a -ℤ b)

abbrev pub bad_discard : Option ℤ → ℤ → Bool
bad_discard none tolerance = false
bad_discard (some d) tolerance = ltb_ℤ d (pos 0) || leb_ℤ tolerance d

unfoldable pub make : RealtimeConfig → Result RealtimeTiming
make c =
    if ltb_ℤ c.negative_time_tolerance (pos 0)
      || (leb_ℤ c.discontinuity_threshold (pos 0)
          || (ltb_ℤ c.jitter_margin (pos 0)
              || (leb_ℤ c.discontinuity_threshold c.jitter_margin
                  || bad_discard c.negative_time_discard c.negative_time_tolerance)))
    then err invalid_argument
    else ok (record { config = c; offset_us = none })

abbrev pick_offset : Option ℤ → Bool → ℤ → ℤ
pick_offset none forward_jump candidate = candidate
pick_offset (some offset) true candidate = candidate
pick_offset (some offset) false candidate = min_ℤ offset candidate

-- The block under `if (reset)`, and the `return` after it.
establish : RealtimeTiming → Bool → ℤ → ℤ → Result (Decision × RealtimeTiming)
establish t forward_jump pts_us now_us = do
  elapsed ← subtract pts_us now_us
  candidate ← subtract elapsed t.jitter_margin
  ok (
    record { ready = true; discard = false; wake_us = now_us },
    record t { offset_us = some (pick_offset t.offset_us forward_jump candidate) },
  )

pub late_for_discard : Option ℤ → ℤ → Bool
late_for_discard none difference_us = false
late_for_discard (some d) difference_us = ltb_ℤ difference_us (-ℤ◌ d)

-- The ladder of tests on a mapping that stands.
compare_due : RealtimeTiming → ℤ → ℤ → ℤ → ℤ → Result (Decision × RealtimeTiming)
compare_due t pts_us now_us due_us difference_us =
    if ltb_ℤ difference_us (-ℤ◌ t.negative_time_tolerance)
    then establish t false pts_us now_us
    else if leb_ℤ t.discontinuity_threshold difference_us
    then establish t true pts_us now_us
    else if late_for_discard t.negative_time_discard difference_us
    then ok (record { ready = false; discard = true; wake_us = now_us }, t)
    else if ltb_ℤ (pos 0) difference_us
    then ok (record { ready = false; discard = false; wake_us = due_us }, t)
    else ok (record { ready = true; discard = false; wake_us = now_us }, t)

pub schedule_at : Option ℤ → RealtimeTiming → ℤ → ℤ → Result (Decision × RealtimeTiming)
schedule_at none t pts_us now_us = establish t false pts_us now_us
schedule_at (some offset) t pts_us now_us = do
  due_us ← subtract pts_us offset
  difference_us ← subtract due_us now_us
  compare_due t pts_us now_us due_us difference_us

unfoldable pub schedule : RealtimeTiming → ℤ → ℤ → Result (Decision × RealtimeTiming)
unfolding schedule_at compare_due late_for_discard establish subtract ltb_ℤ leb_ℤ ◌+ℤ◌ ◌-ℤ◌ -ℤ◌
schedule t pts_us now_us = schedule_at t.offset_us t pts_us now_us

unfoldable pub reset : RealtimeTiming → RealtimeTiming
reset t = record t { offset_us = none }
