-- ===== src/Syncer/Examples.antt =====
-- The first real frame of a video track, through the checks.
use mw_streamer.Base.{
  ◌≡◌, refl, ◌⊎◌, true, false, ℤ, pos, ok, err, overflow_error, ◌<ℤ◌, ltb_ℤ, leb_ℤ, eqb_ℤ,
}
use mw_streamer.Ffmpeg.Plain.{clamped}
use mw_streamer.ForceFps.Examples.{input_at}
use mw_streamer.SyncerTiming.Output.{video_duration}
use mw_streamer.SyncerTiming.Examples.{config, initial}
use mw_streamer.Syncer.{Formats, validate_input}
use mw_streamer.Syncer.Period.{video_duration-checked}

abbrev pub formats : Formats
formats = record {
  known_pixels = λ f. true;
  hardware = λ f. false;
  known_samples = λ f. true;
  valid_layout = true;
  same_layout = λ f. true;
}

input-checked : validate_input clamped formats (input_at (pos 5)) true config ≡ ok tt
unfolding validate_input ltb_ℤ leb_ℤ eqb_ℤ
input-checked = refl

video_duration-checked_example :
    ((duration : ℤ) × (video_duration clamped config initial.video ≡ ok duration)
      × (pos 0 <ℤ duration))
    ⊎ (video_duration clamped config initial.video ≡ err overflow_error)
video_duration-checked_example =
    video_duration-checked clamped formats (input_at (pos 5)) config initial.video input-checked
      refl refl
