-- ===== src/ForceFps/Examples.antt =====
-- The frame-rate conversion at concrete inputs.
use mw_streamer.Base.{
  ◌≡◌, refl, ◌↔◌, true, false, none, some, [], ◌∷◌, ℤ, pos, ◌+ℤ◌, ◌-ℤ◌, ltb_ℤ, leb_ℤ, eqb_ℤ,
  int64_max, int64_min, to_uint64, sub_uint64, ok, arith,
}
use mw_streamer.Ffmpeg.{AvRational}
use mw_streamer.Ffmpeg.Plain.{clamped, clamped-IsBounded}
use mw_streamer.Media.{AvFrame, ReadResult}
use mw_streamer.Media.ReadStatus.{frame_read}
use mw_streamer.ForceFps.{
  ForceFps, make, rescale, check_input, try_push_frame, try_read_frame, is_discontinuity, stamp,
}
use mw_streamer.ForceFps.Accepted.{Timed}
use mw_streamer.ForceFps.Jump.{Jumps, is_discontinuity-exact}
use mw_streamer.ForceFps.Slots.{Run, ReadsNext, Run-ReadsNext}
use mw_streamer.ForceFps.Gap.{reads, repeats, Due, fill_gap}

abbrev pub tick : AvRational
tick = record { num = pos 1; den = pos 25 }

abbrev pub frame_at : ℤ → AvFrame
frame_at pts = record {
  pts = pts;
  best_effort_timestamp = pts;
  pkt_dts = pts;
  time_base = tick;
  duration = pos 1;
  nb_samples = pos 0;
  width = pos 2;
  height = pos 2;
  format = pos 0;
  sample_rate = pos 0;
  has_data = true;
  closed_captions = true;
  picture = 7;
}

abbrev pub input_at : ℤ → ReadResult
input_at pts = record {
  status = frame_read;
  frame = some (some (frame_at pts));
  stream_index = pos 0;
  time_base = tick;
  end_pts = int64_min;
}

abbrev fresh : ForceFps
fresh = record {
  capacity = 2;
  time_base = tick;
  stopped = false;
  inputs = [];
  last = none;
  last_used = false;
  last_input_pts = none;
  next_pts = none;
}

abbrev one : ForceFps
one = record fresh { inputs = input_at (pos 5) ∷ [] }

-- Slot 6 is due, and the frame at the front belongs in slot 7.
abbrev waiting : ForceFps
waiting = record fresh {
  inputs = input_at (pos 7) ∷ [];
  last = some (input_at (pos 5));
  last_used = true;
  last_input_pts = some (pos 5);
  next_pts = some (pos 6);
}

abbrev reduce : ℤ → ℤ → AvRational
reduce num den = record { num = num; den = den }

make-fresh : make reduce (record { num = pos 25; den = pos 1 }) 2 ≡ ok fresh
unfolding make ltb_ℤ
make-fresh = refl

push-one : try_push_frame clamped fresh (input_at (pos 5)) ≡ ok (true, one)
unfolding try_push_frame check_input rescale eqb_ℤ leb_ℤ ltb_ℤ
push-one = refl

seven : Timed clamped tick (input_at (pos 7))
seven = record {
  frame = frame_at (pos 7);
  found = refl;
  pts = pos 7;
  scaled = unfold rescale eqb_ℤ leb_ℤ in refl;
}

waiting-Due :
    Due clamped waiting (pos 6) (input_at (pos 5)) (frame_at (pos 5)) (input_at (pos 7)) [] seven
unfolding seven
waiting-Due = record {
  open_yet = refl;
  front = refl;
  kept_is = refl;
  picture_is = refl;
  slot_is = refl;
  is_frame = refl;
  continues = unfold is_discontinuity ltb_ℤ to_uint64 sub_uint64 ◌-ℤ◌ in refl;
}

Run-ReadsNext_example : ReadsNext clamped one
Run-ReadsNext_example = Run-ReadsNext clamped clamped-IsBounded reduce one (
    Run.pushed (input_at (pos 5)) true
      (Run.made (record { num = pos 25; den = pos 1 }) 2 make-fresh) push-one)

fill_gap_example :
    (mid u : ForceFps) × (reads clamped 1 waiting
      ≡ ok (repeats clamped tick (input_at (pos 5)) (frame_at (pos 5)) true (pos 6) 1, mid))
    × (try_read_frame clamped mid
        ≡ ok (
          record (input_at (pos 7)) {
            frame = some (some (stamp clamped tick (pos 7) false (frame_at (pos 7))));
            time_base = tick;
          },
          u,
        ))
    × (u.inputs ≡ [])
unfolding seven
fill_gap_example =
    fill_gap clamped (input_at (pos 5)) (frame_at (pos 5)) (input_at (pos 7)) [] 1 waiting (pos 6)
      seven waiting-Due (unfold ◌+ℤ◌ in refl)

is_discontinuity-exact_example :
    (is_discontinuity clamped tick (some int64_min) int64_max ≡ true)
    ↔ Jumps clamped tick int64_min int64_max
is_discontinuity-exact_example =
    is_discontinuity-exact clamped tick int64_min int64_max (omega arith) (omega arith)
