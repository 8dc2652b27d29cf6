-- ===== src/Realtime/Examples.antt =====
-- The realtime clock at concrete inputs.
use mw_streamer.Base.{
  ◌≡◌, refl, ◌⊎◌, none, some, ℤ, pos, negsuc, ok, err, invalid_argument, overflow_error, arith,
  ◌<ℤ◌, ◌≤ℤ◌, ◌+ℤ◌, ltb_ℤ, leb_ℤ, int64_max, IsInt64, ◌-ℤ◌,
}
use mw_streamer.Realtime.{RealtimeConfig, RealtimeTiming, make, schedule, reset, subtract}
use mw_streamer.Realtime.Schedule.{
  IsValid, ready_at, drop_at, wait_until, lead, remap, Outcome, schedule-Outcome, make-IsValid,
  subtract-exact,
}
use mw_streamer.Realtime.Laws.{wait_ends, offset_moves}

abbrev config : RealtimeConfig
config = record {
  negative_time_tolerance = pos 250000;
  negative_time_discard = some (pos 100000);
  discontinuity_threshold = pos 1000000;
  jitter_margin = pos 50;
}

abbrev pub timing : RealtimeTiming
timing = record { config = config; offset_us = some (pos 1000) }

config-IsValid : IsValid config
config-IsValid = omega arith

first_frame :
    schedule (reset timing) (pos 2000) (pos 500)
    ≡ ok (ready_at (pos 500), record timing { offset_us = some (pos 1450) })
unfolding schedule reset
first_frame = refl

late_frame :
    schedule timing (pos 2000) (pos 500000)
    ≡ ok (ready_at (pos 500000), record timing { offset_us = some (negsuc 498049) })
unfolding schedule
late_frame = refl

stale_frame : schedule timing (pos 2000) (pos 200000) ≡ ok (drop_at (pos 200000), timing)
unfolding schedule
stale_frame = refl

no_mapping_change : schedule timing int64_max (negsuc 500) ≡ err overflow_error
unfolding schedule
no_mapping_change = refl

bad_margin : make (record config { jitter_margin = pos 1000000 }) ≡ err invalid_argument
unfolding make ltb_ℤ leb_ℤ
bad_margin = refl

abbrev fresh : RealtimeTiming
fresh = record { config = config; offset_us = none }

make-IsValid_example :
    (IsValid config × (make config ≡ ok fresh))
    ⊎ ((¬ IsValid config) × (make config ≡ err invalid_argument))
make-IsValid_example = make-IsValid config

subtract-exact_example :
    ((subtract int64_max (negsuc 0) ≡ ok (int64_max -ℤ negsuc 0)) × IsInt64 (int64_max -ℤ negsuc 0))
    ⊎ ((subtract int64_max (negsuc 0) ≡ err overflow_error) × ¬ IsInt64 (int64_max -ℤ negsuc 0))
subtract-exact_example = subtract-exact int64_max (negsuc 0) (omega arith) (omega arith)

schedule-Outcome_example :
    Outcome (some (pos 1000)) timing (pos 2000) (pos 200000) (drop_at (pos 200000)) timing
schedule-Outcome_example =
    schedule-Outcome timing (pos 2000) (pos 200000) (drop_at (pos 200000)) timing stale_frame

wait_ends_example :
    (timing ≡ timing)
    × (pos 500 <ℤ pos 1000)
    × (pos 1000 <ℤ pos 500 +ℤ pos 1000000)
    × (schedule timing (pos 2000) (pos 1000) ≡ ok (ready_at (pos 1000), timing))
wait_ends_example =
    wait_ends timing (pos 2000) (pos 500) (wait_until (pos 1000)) timing config-IsValid
      (unfold schedule in refl) refl refl

offset_moves_example :
    let u = remap timing (negsuc 498049) in
    (u ≡ timing)
    ⊎ ((o : ℤ) × (u ≡ remap timing o)
        × (ready_at (pos 500000) ≡ ready_at (pos 500000))
        × (lead (pos 2000) o (pos 500000) ≡ pos 50)
        × ((o <ℤ pos 1000) ⊎ (pos 1000000 ≤ℤ lead (pos 2000) (pos 1000) (pos 500000))))
offset_moves_example =
    offset_moves timing (pos 2000) (pos 500000) (pos 1000) _ _ config-IsValid refl late_frame
