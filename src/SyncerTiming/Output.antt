-- ===== src/SyncerTiming/Output.antt =====
-- src/streamer/syncer/syncer_timing.cc: Adjust, Backup, Real, Fill and FinishFill.
use mw_streamer.Base.{
  Bool, true, false, not, ◌&&◌, ◌||◌, Option, none, some, suc, ◌==◌, ℤ, pos, negsuc, ltb_ℤ, leb_ℤ,
  eqb_ℤ, min_ℤ, max_ℤ, int64_max, Result, ok, err, invalid_argument, overflow_error, ◌>>=◌, ◌>>◌,
  throw_if, if◌then◌else◌, is_some,
}
use mw_streamer.Ffmpeg.{TimeMath, AvRational, nopts_value, microseconds}
use mw_streamer.Media.{AvFrame, ReadResult}
use mw_streamer.SyncerTiming.{
  SyncerConfig, ContinuityClock, Track, add, subtract, half, the, frame_of, deref, head_of,
  clock_update, Platform, blank_frame, allocated, stamp, OnOutput, admit, Moved,
}

module _ (m : TimeMath) where
  unfoldable pub rescale : ℤ → AvRational → AvRational → Result ℤ
  rescale value from to =
      let result = m.rescale_q value from to in
      if eqb_ℤ result nopts_value || eqb_ℤ result int64_max then err overflow_error else ok result

  abbrev pub to_us : ℤ → Track → Result ℤ
  to_us value t = rescale value t.time_base microseconds

  abbrev pub from_us : ℤ → Track → Result ℤ
  from_us value t = rescale value microseconds t.time_base

  abbrev pub convert : AvRational → AvRational → Option ℤ → Result (Option ℤ)
  convert from to none = ok none
  convert from to (some value) = do converted ← rescale value from to; ok (some converted)

  -- `last_real_pts` is only meaningful, and only converted, with a real frame.
  abbrev pub convert_last : AvRational → AvRational → Option AvFrame → ℤ → Result ℤ
  convert_last from to none value = ok value
  convert_last from to (some f) value = rescale value from to

  unfoldable pub change_time_base : Track → AvRational → Result Track
  change_time_base t time_base = do
    next ← convert t.time_base time_base t.next
    shift ← convert t.time_base time_base t.shift
    fill_until ← convert t.time_base time_base t.fill_until
    pending ← convert t.time_base time_base t.pending_real_pts
    last ← convert_last t.time_base time_base t.last_real t.last_real_pts
    ok (record t {
      next = next;
      shift = shift;
      fill_until = fill_until;
      pending_real_pts = pending;
      last_real_pts = last;
      time_base = time_base;
    })

  -- Both shifts move so that the input's PTS is the slot that is due.
  unfoldable pub adjust : Track → ContinuityClock → ℤ → Result (Track × ContinuityClock)
  adjust t c original = do
    next ← the t.next
    shift ← subtract next original
    shared ← to_us shift t
    ok (record t { shift = some shift }, record c { shift = some shared })

  module _ (config : SyncerConfig) where
    unfoldable pub video_duration : Track → Result ℤ
    video_duration t = do
      duration ← rescale (pos 1) (m.inv_q config.encoder.fps) t.time_base
      throw_if (leb_ℤ duration (pos 0)) invalid_argument
      ok duration

    -- Whether the last real picture is recent enough to be shown again.
    abbrev freezes : Track → Option AvFrame → Result Bool
    freezes t none = ok false
    freezes t (some last) = do
      next ← the t.next
      next_us ← to_us next t
      last_us ← to_us t.last_real_pts t
      age ← subtract next_us last_us
      ok (ltb_ℤ age config.options.freeze)

    abbrev sample_format : Option ℤ → ℤ
    sample_format none = negsuc 0
    sample_format (some format) = format

    unfoldable pub backup : Platform → Track → Bool → ℤ → Result AvFrame
    backup platform t true count = do
      frozen ← freezes t t.last_real
      if frozen then deref t.last_real else deref config.backup_video
    backup platform t false count = allocated (
        platform.allocate (record blank_frame {
          format = sample_format config.encoder.audio_sample_format;
          sample_rate = config.encoder.audio_sample_rate;
          nb_samples = min_ℤ (pos 1024) count;
        }))

    abbrev pub duration_of : Track → Bool → AvFrame → Result ℤ
    duration_of t true f = video_duration t
    duration_of t false f = ok f.nb_samples

    abbrev pub last_picture : Bool → AvFrame → Option AvFrame → Option AvFrame
    last_picture true f last = some f
    last_picture false f last = last

    abbrev pub real_accepted : Bool → Track → Bool → AvFrame → ℤ → ℤ → ℤ → ContinuityClock → Moved
    real_accepted false t video f pts duration now c =
        ok (record { consumed = false; frame = none; wake_us = now; blocked = true }, t, c)
    real_accepted true t video f pts duration now c = do
      next ← add pts duration
      wait_until ← add now config.options.timeout
      ok (
        record { consumed = true; frame = some f; wake_us = now; blocked = false },
        record t {
          next = some next;
          has_output = true;
          last_real = last_picture video f t.last_real;
          last_real_pts = pts;
          last_success = true;
          wait_until = wait_until;
          pending_real_pts = none;
        },
        c,
      )

    unfoldable pub real : Track → ContinuityClock → Bool → ReadResult → ℤ → ℤ → OnOutput → Moved
    real t c video input pts now on_output = do
      f ← frame_of input
      duration ← duration_of t video f
      us ← to_us pts t
      accepted ← admit on_output (stamp t pts duration f)
      real_accepted accepted t video (stamp t pts duration f) pts duration now
          (clock_update c us now)

    abbrev pub anchor_fill : Bool → Track → ContinuityClock → ℤ → ℤ → Result ContinuityClock
    anchor_fill false t c last_pts now = ok c
    anchor_fill true t c last_pts now = do us ← to_us last_pts t; ok (clock_update c us now)

    abbrev pub resume_time : Bool → Track → ℤ → Result ℤ
    resume_time false t now = ok now
    resume_time true t now = add now (max_ℤ (pos 1000) (half t.filled_us))

    -- The end of a batch: the time to wake at, the track and the clock.
    unfoldable pub finish_fill :
        Track
        → ContinuityClock
        → Option ReadResult
        → ℤ
        → ℤ
        → Bool
        → Result (ℤ × Track × ContinuityClock)
    finish_fill t c head last_pts now blocked =
        if t.forward_fill
        then (do
          c ← anchor_fill (t.filled == 5 || blocked) t c last_pts now
          input ← head_of head
          f ← frame_of input
          original ← rescale f.pts input.time_base t.time_base
          (t, c) ← adjust t c original
          resume ← resume_time (t.filled == 5 && not blocked) t now
          ok (
            resume,
            record t {
              try_without_filling = true;
              pending_real_pts = t.next;
              suspended_until = resume;
              fill_until = none;
            },
            c,
          ))
        else let wait_until = if blocked then now else t.wait_until in
          ok (
            if is_some head then now else wait_until,
            record t { wait_until = wait_until; fill_until = none },
            c,
          )

    abbrev pub fill_end :
        Bool
        → Track
        → ContinuityClock
        → Option ReadResult
        → ℤ
        → ℤ
        → Result (ℤ × Track × ContinuityClock)
    fill_end false t c head pts now = ok (now, t, c)
    fill_end true t c head pts now = finish_fill t c head pts now false

    abbrev pub fill_accepted :
        Bool → Track → ContinuityClock → Option ReadResult → AvFrame → ℤ → ℤ → ℤ → ℤ → Moved
    fill_accepted false t c head f pts until duration now = do
      (wake, t, c) ← finish_fill t c head pts now true
      ok (record { consumed = false; frame = none; wake_us = wake; blocked = true }, t, c)
    fill_accepted true t c head f pts until duration now = do
      next ← add pts duration
      duration_us ← to_us duration t
      filled_us ← add t.filled_us duration_us
      (wake, t, c) ←
          fill_end (leb_ℤ until next || suc t.filled == 5)
            (record t {
              next = some next;
              has_output = true;
              filled = suc t.filled;
              filled_us = filled_us;
            })
            c head pts now
      ok (record { consumed = false; frame = some f; wake_us = wake; blocked = false }, t, c)

    unfoldable pub fill :
        Platform → Track → ContinuityClock → Bool → Option ReadResult → ℤ → OnOutput → Moved
    fill platform t c video head now on_output = do
      pts ← the t.next
      until ← the t.fill_until
      count ← subtract until pts
      f ← backup platform t video count
      duration ← duration_of t video f
      accepted ← admit on_output (stamp t pts duration f)
      fill_accepted accepted t c head (stamp t pts duration f) pts until duration now
