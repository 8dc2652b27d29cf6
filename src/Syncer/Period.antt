-- ===== src/Syncer/Period.antt =====
-- The check of a video frame, and the frame period that it needs.
use mw_streamer.Base.{
  ◌≡◌, sym, subst, ◌⊎◌, inl, inr, true, false, Bool-cases, refl, ◌||◌, not, Option, none, some, ℤ,
  pos, ◌<ℤ◌, leb_ℤ, eqb_ℤ, leb_ℤ_cases, ok, err, invalid_argument, overflow_error, throw_if,
  >>=-eq-ok, arith, int64_max,
}
use mw_streamer.Ffmpeg.{TimeMath, nopts_value, microseconds}
use mw_streamer.Media.{AvFrame, ReadResult, raw_of}
use mw_streamer.Media.ReadStatus.{frame_read}
use mw_streamer.SyncerTiming.{SyncerConfig, Track}
use mw_streamer.SyncerTiming.Output.{rescale, video_duration}
use mw_streamer.Syncer.{Formats, disabled, check_status, check_frame, validate_input}

module _ (m : TimeMath) (formats : Formats) where
  frame_lem :
      (f : Option AvFrame) (input : ReadResult) (config : SyncerConfig)
      → check_frame m formats f true input config ≡ ok tt
      → pos 0 <ℤ m.rescale_q (pos 1) (m.inv_q config.encoder.fps) input.time_base
  frame_lem none input config h = ground (arith, h)
  frame_lem (some f) input config h =
      let (_, _, h) =
        >>=-eq-ok
          (throw_if
            (not f.has_data
              || (leb_ℤ input.time_base.num (pos 0)
                  || (leb_ℤ input.time_base.den (pos 0) || eqb_ℤ f.pts nopts_value)))
            invalid_argument)
          _ h in
      let (_, _, h) =
        >>=-eq-ok
          (throw_if
            (eqb_ℤ (m.rescale_q f.pts input.time_base microseconds) nopts_value
              || eqb_ℤ (m.rescale_q f.pts input.time_base microseconds) int64_max)
            overflow_error)
          _ h in
      ground (
        arith,
        h,
        leb_ℤ_cases (m.rescale_q (pos 1) (m.inv_q config.encoder.fps) input.time_base) (pos 0),
      )

  checked_lem :
      (input : ReadResult) (config : SyncerConfig)
      → validate_input m formats input true config ≡ ok tt
      → input.status ≡ frame_read
      → pos 0 <ℤ m.rescale_q (pos 1) (m.inv_q config.encoder.fps) input.time_base
  unfolding validate_input
  checked_lem input config h e =
      let (_, _, h) = >>=-eq-ok (throw_if (disabled m formats true config) invalid_argument) _ h in
      frame_lem (raw_of input.frame) input config
        (subst (λ s. check_status m formats s true input config ≡ ok tt) e h)

  period_lem :
      (config : SyncerConfig) (t : Track)
      → pos 0 <ℤ m.rescale_q (pos 1) (m.inv_q config.encoder.fps) t.time_base
      → ((duration : ℤ) × (video_duration m config t ≡ ok duration) × (pos 0 <ℤ duration))
        ⊎ (video_duration m config t ≡ err overflow_error)
  unfolding video_duration rescale
  period_lem config t p =
      let period = m.rescale_q (pos 1) (m.inv_q config.encoder.fps) t.time_base in
      let above : leb_ℤ period (pos 0) ≡ false = ground (arith, p, leb_ℤ_cases period (pos 0)) in
      elim (Bool-cases (eqb_ℤ period nopts_value || eqb_ℤ period int64_max)) [
        | inl o ↦ inr (rw o refl)
        | inr o ↦ inl (period, rw (o, above) refl, p)
      ]

  -- Where a video frame has passed the checks of Syncer::Step, the period of the output's frame
  -- rate in the frame's time base is positive: a track in that time base finds its duration, or
  -- overflows, and does not refuse the time base.
  pub video_duration-checked :
      (input : ReadResult) (config : SyncerConfig) (t : Track)
      → validate_input m formats input true config ≡ ok tt
      → input.status ≡ frame_read
      → t.time_base ≡ input.time_base
      → ((duration : ℤ) × (video_duration m config t ≡ ok duration) × (pos 0 <ℤ duration))
        ⊎ (video_duration m config t ≡ err overflow_error)
  video_duration-checked input config t h e b = period_lem config t (
      subst (λ q. pos 0 <ℤ m.rescale_q (pos 1) (m.inv_q config.encoder.fps) q) (sym b)
        (checked_lem input config h e))
