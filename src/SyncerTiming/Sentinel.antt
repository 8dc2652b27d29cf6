-- ===== src/SyncerTiming/Sentinel.antt =====
-- src/streamer/syncer/syncer_timing.cc: the constructor, Correct and Step.
use mw_streamer.Base.{
  Bool, true, false, not, ◌&&◌, ◌||◌, Option, none, some, ℤ, pos, ltb_ℤ, leb_ℤ, eqb_ℤ, max_ℤ,
  Result, ok, err, invalid_argument, ◌>>=◌, ◌>>◌, throw_if, if◌then◌else◌, is_some,
}
use mw_streamer.Ffmpeg.{TimeMath, AvRational, microseconds}
use mw_streamer.Media.{AvFrame, ReadStatus, ReadResult}
use mw_streamer.Media.ReadStatus.{eof}
use mw_streamer.SyncerTiming.{
  SyncerConfig, SyncerStep, ContinuityClock, Track, SyncerTiming, add, subtract, apart, the,
  frame_of, head_of, clock_now, Platform, blank_frame, allocated, begin_fill, OnOutput, Moved,
}
use mw_streamer.SyncerTiming.Output.{rescale, to_us, from_us, change_time_base, adjust, real, fill}

module _ (m : TimeMath) (platform : Platform) (config : SyncerConfig) where
  abbrev black_frame : Option ℤ → Result AvFrame
  black_frame none = err invalid_argument
  black_frame (some format) = do
    throw_if
        (not (platform.known_format format)
          || (leb_ℤ config.encoder.width (pos 0) || leb_ℤ config.encoder.height (pos 0)))
        invalid_argument
    allocated (
        platform.allocate (record blank_frame {
          width = config.encoder.width;
          height = config.encoder.height;
          format = format;
        }))

  abbrev pub backup_of : Option ℤ → Option AvFrame → Result (Option AvFrame)
  backup_of none backup = ok backup
  backup_of (some format) (some backup) = ok (some backup)
  backup_of (some format) none = do f ← black_frame (some format); ok (some f)

  abbrev pub first_slot : Bool → AvRational → Result (Option ℤ)
  first_slot true time_base = ok none
  first_slot false time_base = do
    next ← rescale m config.options.start_ts microseconds time_base
    ok (some next)

  abbrev pub fresh_track : AvRational → Option ℤ → Track
  fresh_track time_base next = record {
    time_base = time_base;
    next = next;
    shift = none;
    last_real = none;
    last_real_pts = pos 0;
    last_success = true;
    has_output = false;
    wait_until = config.options.initial_timeout;
    try_without_filling = false;
    fill_until = none;
    forward_fill = false;
    filled = 0;
    filled_us = pos 0;
    pending_real_pts = none;
    suspended_until = pos 0;
  }

  -- The constructor. The copy of the audio layout, which can only run out of memory, is left out.
  unfoldable pub make : Result SyncerTiming
  make = do
    backup ← backup_of config.encoder.video_pixel_format config.backup_video
    let video_base =
        if is_some config.encoder.video_pixel_format
        then m.inv_q config.encoder.fps
        else microseconds
    let audio_base =
        if is_some config.encoder.audio_sample_format
        then record { num = pos 1; den = config.encoder.audio_sample_rate }
        else microseconds
    video_next ← first_slot config.options.forward_start_shift video_base
    audio_next ← first_slot config.options.forward_start_shift audio_base
    ok (record {
      config = record config { backup_video = backup };
      clock = record { start = config.options.start_ts; pts = none; wall = pos 0; shift = none };
      video = fresh_track video_base video_next;
      audio = fresh_track audio_base audio_next;
    })

  abbrev pub rebase : Bool → Track → AvRational → Result Track
  rebase false t time_base = ok t
  rebase true t time_base = change_time_base m t time_base

  abbrev pub first_pts : Track → ℤ → Result ℤ
  first_pts t pts = if t.has_output then (do next ← the t.next; ok (max_ℤ pts next)) else ok pts

  -- The branch of `Correct` before a shared shift exists: the track anchors both shifts.
  unfoldable pub correct_first :
      Track → ContinuityClock → Bool → ReadResult → ℤ → ℤ → OnOutput → Moved
  correct_first t c video input original now on_output = do
    (rtc, c) ← clock_now c now
    mapped ← from_us m rtc t
    pts ← first_pts t mapped
    shift ← subtract pts original
    shared ← to_us m shift t
    real m config (record t { shift = some shift }) (record c { shift = some shared }) video input
        pts now on_output

  abbrev pub desynced : Track → Option ℤ → ℤ → Result Bool
  desynced t none shared = ok false
  desynced t (some shift) shared = do
    us ← to_us m shift t
    tolerance ← add config.options.max_streams_diff (pos 1)
    apart us shared tolerance

  abbrev pub adopted : Track → Option ℤ → Bool → ℤ → Result ℤ
  adopted t none desync shared = from_us m shared t
  adopted t (some shift) true shared = from_us m shared t
  adopted t (some shift) false shared = ok shift

  -- Whether `pts` is a discontinuity: not the slot that is due, nor within the tolerance of it.
  unfoldable pub jumped : Track → Option ℤ → ℤ → Result Bool
  jumped t none pts = ok false
  jumped t (some next) pts = if eqb_ℤ pts next then ok false else do
    us ← to_us m pts t
    next_us ← to_us m next t
    apart us next_us config.options.max_streams_diff

  -- A forward jump after a batch: the input moves to the slot that is due, a millisecond later.
  abbrev pub retry : Track → ContinuityClock → ℤ → ℤ → Moved
  retry t c original now = do
    (t, c) ← adjust m (record t { try_without_filling = false }) c original
    resume ← add now (pos 1000)
    ok (
      record { consumed = false; frame = none; wake_us = resume; blocked = false },
      record t { pending_real_pts = t.next; suspended_until = resume },
      c,
    )

  abbrev pub jump_forward :
      Bool → Track → ContinuityClock → Bool → ReadResult → ℤ → ℤ → ℤ → OnOutput → Moved
  jump_forward true t c video input original pts now on_output = retry t c original now
  jump_forward false t c video input original pts now on_output =
      fill m config platform (begin_fill t pts true) c video (some input) now on_output

  -- `Correct` on a discontinuity.
  unfoldable pub correct_jump :
      Track → ContinuityClock → Bool → ReadResult → ℤ → ℤ → ℤ → ℤ → OnOutput → Moved
  correct_jump t c video input original pts next now on_output =
      if ltb_ℤ next pts
      then jump_forward t.try_without_filling t c video input original pts now on_output
      else (do (t, c) ← adjust m t c original; real m config t c video input next now on_output)

  abbrev pub republish : Bool → Track → ContinuityClock → ℤ → Result ContinuityClock
  republish false t c shift = ok c
  republish true t c shift = do shared ← to_us m shift t; ok (record c { shift = some shared })

  -- The end of `Correct`, with a shift, and a PTS that jumps or not.
  abbrev pub settle :
      Bool → Bool → Track → ContinuityClock → ℤ → ℤ → Bool → ReadResult → ℤ → ℤ → OnOutput → Moved
  settle true desync t c shift pts video input original now on_output = do
    next ← the t.next
    correct_jump (record t { shift = some shift }) c video input original pts next now on_output
  settle false desync t c shift pts video input original now on_output = do
    c ← republish desync t c shift
    real m config (record t { shift = some shift }) c video input pts now on_output

  -- The branch of `Correct` with a shared shift.
  unfoldable pub correct_shared :
      Track → ContinuityClock → ℤ → Bool → ReadResult → ℤ → ℤ → OnOutput → Moved
  correct_shared t c shared video input original now on_output = do
    desync ← desynced t t.shift shared
    shift ← adopted t t.shift desync shared
    pts ← add original shift
    jump ← jumped t t.next pts
    settle jump desync t c shift pts video input original now on_output

  abbrev pub correct_by :
      Option ℤ → Track → ContinuityClock → Bool → ReadResult → ℤ → ℤ → OnOutput → Moved
  correct_by none t c video input original now on_output =
      correct_first t c video input original now on_output
  correct_by (some shared) t c video input original now on_output =
      correct_shared t c shared video input original now on_output

  unfoldable pub correct : Track → ContinuityClock → Bool → ReadResult → ℤ → OnOutput → Moved
  correct t c video input now on_output = do
    t ←
        rebase (video && not (eqb_ℤ (m.cmp_q t.time_base input.time_base) (pos 0))) t
          input.time_base
    f ← frame_of input
    original ← rescale m f.pts input.time_base t.time_base
    correct_by c.shift t c video input original now on_output

  abbrev pub seeded : Option ℤ → Track → Result ℤ
  seeded none t = from_us m config.options.start_ts t
  seeded (some next) t = ok next

  abbrev pub overdue : Bool → Track → ℤ → ℤ → Result Bool
  overdue false t next rtc = ok true
  overdue true t next rtc = do
    next_us ← to_us m next t
    late ← subtract rtc next_us
    ok (ltb_ℤ config.options.timeout late)

  abbrev pub expire : Bool → Track → ContinuityClock → Bool → ℤ → ℤ → OnOutput → Moved
  expire true t c video target now on_output =
      fill m config platform (begin_fill t target false) c video none now on_output
  expire false t c video target now on_output =
      ok (record { consumed = false; frame = none; wake_us = t.wait_until; blocked = false }, t, c)

  -- `Step` without an input, after the wait for it has ended.
  unfoldable pub time_out : Track → ContinuityClock → Bool → ℤ → OnOutput → Moved
  time_out t c video now on_output = do
    (rtc, c) ← clock_now c now
    next ← seeded t.next t
    late ← overdue t.last_success t next rtc
    wait_until ← add now (pos 22000)
    target ← from_us m rtc t
    expire (late && ltb_ℤ next target)
        (record t { next = some next; last_success = false; wait_until = wait_until }) c video
        target now on_output

  abbrev pub waits : Track → ContinuityClock → ℤ → Moved
  waits t c wake =
      ok (record { consumed = false; frame = none; wake_us = wake; blocked = false }, t, c)

  abbrev pub step_head :
      Track → ContinuityClock → Bool → ReadResult → ReadStatus → ℤ → OnOutput → Moved
  step_head t c video input eof now on_output =
      ok (record { consumed = true; frame = none; wake_us = now; blocked = false }, t, c)
  step_head t c video input _ now on_output = correct t c video input now on_output

  abbrev pub step_input : Track → ContinuityClock → Bool → Option ReadResult → ℤ → OnOutput → Moved
  step_input t c video none now on_output =
      if ltb_ℤ now t.wait_until then waits t c t.wait_until else time_out t c video now on_output
  step_input t c video (some input) now on_output =
      step_head t c video input input.status now on_output

  abbrev pub step_pending :
      Option ℤ → Track → ContinuityClock → Bool → Option ReadResult → ℤ → OnOutput → Moved
  step_pending none t c video head now on_output = step_input t c video head now on_output
  step_pending (some pending) t c video head now on_output =
      if ltb_ℤ now t.suspended_until then waits t c t.suspended_until else do
        input ← head_of head
        correct (record t { pending_real_pts = none }) c video input now on_output

  abbrev pub step_fill :
      Option ℤ → Track → ContinuityClock → Bool → Option ReadResult → ℤ → OnOutput → Moved
  step_fill none t c video head now on_output =
      step_pending t.pending_real_pts t c video head now on_output
  step_fill (some until) t c video head now on_output =
      fill m config platform t c video head now on_output

  unfoldable pub step_track :
      Track → ContinuityClock → Bool → Option ReadResult → ℤ → OnOutput → Moved
  step_track t c video head now on_output = step_fill t.fill_until t c video head now on_output

module _ (m : TimeMath) (platform : Platform) where
  -- `SyncerTiming::Step`.
  unfoldable pub step :
      SyncerTiming → Bool → Option ReadResult → ℤ → OnOutput → Result (SyncerStep × SyncerTiming)
  step s true head now on_output = do
    (out, t, c) ← step_track m platform s.config s.video s.clock true head now on_output
    ok (out, record s { video = t; clock = c })
  step s false head now on_output = do
    (out, t, c) ← step_track m platform s.config s.audio s.clock false head now on_output
    ok (out, record s { audio = t; clock = c })
