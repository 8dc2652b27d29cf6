-- ===== src/Syncer.antt =====
-- src/streamer/syncer/syncer.cc: the checks around the timing, and the reset.
pub mod Period
pub mod Examples
use mw_streamer.Base.{
  ◌≡◌, Bool, true, false, not, ◌&&◌, ◌||◌, Option, none, some, ℤ, pos, ltb_ℤ, leb_ℤ, eqb_ℤ,
  int64_max, Result, ok, err, invalid_argument, overflow_error, ◌>>=◌, ◌>>◌, throw_if,
  if◌then◌else◌, is_some,
}
use mw_streamer.Ffmpeg.{TimeMath, AvRational, nopts_value, microseconds}
use mw_streamer.Media.{AvFrame, Frame, ReadStatus, ReadResult, raw_of}
use mw_streamer.Media.ReadStatus.{frame_read, eof, null_read}
use mw_streamer.SyncerTiming.{SyncerConfig, Encoder, SyncerStep, SyncerTiming, Platform, OnOutput}
use mw_streamer.SyncerTiming.Sentinel

-- What FFmpeg knows of formats and layouts: whether a pixel or sample format exists, whether a
-- pixel format is of hardware, whether the layout of the configuration is valid, and whether a
-- frame has that layout.
pub record Formats : Type 0 where
  pub known_pixels : ℤ → Bool
  pub hardware : ℤ → Bool
  pub known_samples : ℤ → Bool
  pub valid_layout : Bool
  pub same_layout : AvFrame → Bool

module _ (m : TimeMath) (formats : Formats) where
  abbrev valid_video_frame : AvFrame → Bool
  valid_video_frame f =
      f.has_data
      && (ltb_ℤ (pos 0) f.width
          && (ltb_ℤ (pos 0) f.height
              && (eqb_ℤ f.nb_samples (pos 0) && formats.known_pixels f.format)))

  abbrev check_backup : Option AvFrame → Encoder → ℤ → Result (Unit {0})
  check_backup (some f) encoder format = throw_if (not (valid_video_frame f)) invalid_argument
  check_backup none encoder format =
      throw_if
        (leb_ℤ encoder.width (pos 0)
          || (leb_ℤ encoder.height (pos 0)
              || (not (formats.known_pixels format) || formats.hardware format)))
        invalid_argument

  abbrev check_video : Option ℤ → SyncerConfig → Result (Unit {0})
  check_video none config = ok tt
  check_video (some format) config = do
    throw_if
        (leb_ℤ config.encoder.fps.num (pos 0)
          || (leb_ℤ config.encoder.fps.den (pos 0)
              || leb_ℤ (m.rescale_q (pos 1) (m.inv_q config.encoder.fps) microseconds) (pos 0)))
        invalid_argument
    check_backup config.backup_video config.encoder format

  abbrev check_audio : Option ℤ → SyncerConfig → Result (Unit {0})
  check_audio none config = ok tt
  check_audio (some format) config =
      throw_if
        (leb_ℤ config.encoder.audio_sample_rate (pos 0)
          || (not (formats.known_samples format) || not formats.valid_layout))
        invalid_argument

  unfoldable pub validate_config : SyncerConfig → Result (Unit {0})
  validate_config config = do
    throw_if
        ((not (is_some config.encoder.video_pixel_format)
            && not (is_some config.encoder.audio_sample_format))
          || (leb_ℤ config.options.initial_timeout (pos 0)
              || (leb_ℤ config.options.timeout (pos 0)
                  || (ltb_ℤ config.options.freeze (pos 0)
                      || leb_ℤ config.options.max_streams_diff (pos 0)))))
        invalid_argument
    check_video config.encoder.video_pixel_format config
    check_audio config.encoder.audio_sample_format config

  abbrev pub disabled : Bool → SyncerConfig → Bool
  disabled true config = not (is_some config.encoder.video_pixel_format)
  disabled false config = not (is_some config.encoder.audio_sample_format)

  abbrev is_format : Option ℤ → ℤ → Bool
  is_format none format = false
  is_format (some f) format = eqb_ℤ format f

  abbrev pub check_kind : Bool → AvFrame → ReadResult → SyncerConfig → Result (Unit {0})
  check_kind true f input config =
      throw_if
        (not (valid_video_frame f)
          || leb_ℤ (m.rescale_q (pos 1) (m.inv_q config.encoder.fps) input.time_base) (pos 0))
        invalid_argument
  check_kind false f input config =
      throw_if
        (leb_ℤ f.nb_samples (pos 0)
          || (not (is_format config.encoder.audio_sample_format f.format)
              || (not (eqb_ℤ f.sample_rate config.encoder.audio_sample_rate)
                  || not (formats.same_layout f))))
        invalid_argument

  abbrev pub check_frame : Option AvFrame → Bool → ReadResult → SyncerConfig → Result (Unit {0})
  check_frame none video input config = err invalid_argument
  check_frame (some f) video input config = do
    throw_if
        (not f.has_data
          || (leb_ℤ input.time_base.num (pos 0)
              || (leb_ℤ input.time_base.den (pos 0) || eqb_ℤ f.pts nopts_value)))
        invalid_argument
    let pts_us = m.rescale_q f.pts input.time_base microseconds
    throw_if (eqb_ℤ pts_us nopts_value || eqb_ℤ pts_us int64_max) overflow_error
    check_kind video f input config

  abbrev pub check_status : ReadStatus → Bool → ReadResult → SyncerConfig → Result (Unit {0})
  check_status eof video input config = throw_if (is_some input.frame) invalid_argument
  check_status frame_read video input config = check_frame (raw_of input.frame) video input config
  check_status null_read video input config = err invalid_argument

  unfoldable pub validate_input : ReadResult → Bool → SyncerConfig → Result (Unit {0})
  validate_input input video config = do
    throw_if (disabled video config) invalid_argument
    check_status input.status video input config

-- Syncer::Impl: the configuration that was given, and the timing.
pub record Syncer : Type 0 where
  pub config : SyncerConfig
  pub timing : SyncerTiming

module _ (m : TimeMath) (platform : Platform) (formats : Formats) where
  -- `Reset` makes a fresh timing, as the constructor does.
  unfoldable pub reset : Syncer → Result Syncer
  reset s = do timing ← Sentinel.make m platform s.config; ok (record s { timing = timing })

  unfoldable pub make : SyncerConfig → Result Syncer
  make config = do
    validate_config m formats config
    timing ← Sentinel.make m platform config
    ok (record { config = config; timing = timing })

  abbrev pub check_head : Option ReadResult → Bool → SyncerConfig → Result (Unit {0})
  check_head none video config = ok tt
  check_head (some input) video config = validate_input m formats input video config

  -- `Syncer::Step`, without the measurement of its latency.
  unfoldable pub step :
      Syncer → Bool → Option ReadResult → ℤ → OnOutput → Result (SyncerStep × Syncer)
  step s video head now on_output = do
    throw_if (disabled m formats video s.config) invalid_argument
    throw_if (ltb_ℤ now (pos 0)) invalid_argument
    check_head head video s.config
    (out, timing) ← Sentinel.step m platform s.timing video head now on_output
    ok (out, record s { timing = timing })
