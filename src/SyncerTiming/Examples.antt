-- ===== src/SyncerTiming/Examples.antt =====
-- The first real frame of a video track.
use mw_streamer.Base.{
  ◌≡◌, refl, true, false, none, some, pos, negsuc, ok, ltb_ℤ, leb_ℤ, eqb_ℤ, ◌+ℤ◌, ◌-ℤ◌, -ℤ◌,
}
use mw_streamer.Ffmpeg.{microseconds}
use mw_streamer.Ffmpeg.Plain.{clamped}
use mw_streamer.ForceFps.Examples.{tick, frame_at, input_at}
use mw_streamer.SyncerTiming.{
  SyncerConfig, SyncerStep, Track, SyncerTiming, Platform, add, subtract, clock_now, clock_update,
  stamp,
}
use mw_streamer.SyncerTiming.Output.{rescale, video_duration, real}
use mw_streamer.SyncerTiming.Sentinel.{make, correct, correct_first, step_track, step}
use mw_streamer.SyncerTiming.Runs.{Run, Run-Stepped, Stepped}
use mw_streamer.SyncerTiming.Fillers.{Filling, Short, Filling-Short}

abbrev pub config : SyncerConfig
config = record {
  encoder = record {
    video_pixel_format = some (pos 0);
    width = pos 2;
    height = pos 2;
    fps = record { num = pos 25; den = pos 1 };
    audio_sample_format = none;
    audio_sample_rate = pos 0;
  };
  backup_video = some (frame_at (pos 0));
  options = record {
    initial_timeout = pos 4000000;
    timeout = pos 1000000;
    freeze = pos 5000000;
    max_streams_diff = pos 1000;
    start_ts = pos 0;
    forward_start_shift = false;
  };
}

abbrev pub platform : Platform
platform = record { allocate = λ f. some f; known_format = λ f. true }

abbrev quiet : Track
quiet = record {
  time_base = microseconds;
  next = some (pos 0);
  shift = none;
  last_real = none;
  last_real_pts = pos 0;
  last_success = true;
  has_output = false;
  wait_until = pos 4000000;
  try_without_filling = false;
  fill_until = none;
  forward_fill = false;
  filled = 0;
  filled_us = pos 0;
  pending_real_pts = none;
  suspended_until = pos 0;
}

abbrev pub initial : SyncerTiming
initial = record {
  config = config;
  clock = record { start = pos 0; pts = none; wall = pos 0; shift = none };
  video = record quiet { time_base = tick };
  audio = quiet;
}

abbrev pub sent : SyncerStep
sent = record {
  consumed = true;
  frame = some (stamp (record quiet { time_base = tick }) (pos 0) (pos 1) (frame_at (pos 5)));
  wake_us = pos 10;
  blocked = false;
}

abbrev pub after : SyncerTiming
after = record initial {
  clock = record { start = pos 0; pts = some (pos 0); wall = pos 10; shift = some (negsuc 199999) };
  video = record quiet {
    time_base = tick;
    next = some (pos 1);
    shift = some (negsuc 4);
    last_real = sent.frame;
    last_success = true;
    has_output = true;
    wait_until = pos 1000010;
  };
}

pub make-initial : make clamped platform config ≡ ok initial
unfolding make rescale eqb_ℤ leb_ℤ
make-initial = refl

pub step-after :
    step clamped platform initial true (some (input_at (pos 5))) (pos 10) none ≡ ok (sent, after)
unfolding step step_track correct correct_first real video_duration rescale add subtract clock_now
    clock_update ltb_ℤ leb_ℤ eqb_ℤ ◌+ℤ◌ ◌-ℤ◌ -ℤ◌
step-after = refl

Filling-Short_example :
    Short clamped platform config after.video 0 × Short clamped platform config after.audio 0
Filling-Short_example = Filling-Short clamped platform config (
    Filling.stepped true (some (input_at (pos 5))) (pos 10) none sent (Filling.made make-initial)
      step-after refl refl)

Run-Stepped_example : Stepped clamped platform initial true (some (input_at (pos 5))) sent after
Run-Stepped_example =
    Run-Stepped clamped platform config initial after true (some (input_at (pos 5))) (pos 10) none
      sent (Run.made make-initial) step-after
