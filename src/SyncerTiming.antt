-- ===== src/SyncerTiming.antt =====
-- src/streamer/syncer/syncer_timing.cc: the continuous output timeline of both tracks.
pub mod Output
pub mod Sentinel
pub mod Delivery
pub mod Batch
pub mod Timeline
pub mod Correction
pub mod Steps
pub mod Runs
pub mod Fillers
pub mod Examples
use mw_streamer.Base.{
  ◌≡◌, Bool, true, false, not, ◌&&◌, ◌||◌, Option, none, some, ℕ, suc, ◌/◌, ◌==◌, ℤ, pos, negsuc,
  -ℤ◌, ◌+ℤ◌, ◌-ℤ◌, ltb_ℤ, leb_ℤ, eqb_ℤ, min_ℤ, max_ℤ, int64_max, int64_min, Result, ok, err,
  invalid_argument, overflow_error, runtime_error, undefined, ◌>>=◌, ◌>>◌, throw_if, if◌then◌else◌,
}
use mw_streamer.Ffmpeg.{TimeMath, AvRational, nopts_value, microseconds}
use mw_streamer.Media.{AvFrame, ReadStatus, ReadResult, raw_of}
use mw_streamer.Media.ReadStatus.{eof}

pub record SyncerOptions : Type 0 where
  pub initial_timeout : ℤ
  pub timeout : ℤ
  pub freeze : ℤ
  pub max_streams_diff : ℤ
  pub start_ts : ℤ
  pub forward_start_shift : Bool

-- The fields of AvEncoderConfig that are read here. A format of NONE disables its track.
pub record Encoder : Type 0 where
  pub video_pixel_format : Option ℤ
  pub width : ℤ
  pub height : ℤ
  pub fps : AvRational
  pub audio_sample_format : Option ℤ
  pub audio_sample_rate : ℤ

pub record SyncerConfig : Type 0 where
  pub encoder : Encoder
  pub backup_video : Option AvFrame
  pub options : SyncerOptions

pub record SyncerStep : Type 0 where
  pub consumed : Bool
  pub frame : Option AvFrame
  pub wake_us : ℤ
  pub blocked : Bool

-- `shift` is the shared shift. `start` is the PTS that the clock starts from.
pub record ContinuityClock : Type 0 where
  pub start : ℤ
  pub pts : Option ℤ
  pub wall : ℤ
  pub shift : Option ℤ

-- Without the two members that only the log lines read.
pub record Track : Type 0 where
  pub time_base : AvRational
  pub next : Option ℤ
  pub shift : Option ℤ
  pub last_real : Option AvFrame
  pub last_real_pts : ℤ
  pub last_success : Bool
  pub has_output : Bool
  pub wait_until : ℤ
  pub try_without_filling : Bool
  pub fill_until : Option ℤ
  pub forward_fill : Bool
  pub filled : ℕ
  pub filled_us : ℤ
  pub pending_real_pts : Option ℤ
  pub suspended_until : ℤ

pub record SyncerTiming : Type 0 where
  pub config : SyncerConfig
  pub clock : ContinuityClock
  pub video : Track
  pub audio : Track

-- `Add` and `Subtract` of std::int64_t.
unfoldable pub add : ℤ → ℤ → Result ℤ
add a b =
    if (ltb_ℤ (pos 0) b && ltb_ℤ (int64_max -ℤ b) a)
      || (ltb_ℤ b (pos 0) && ltb_ℤ a (int64_min -ℤ b))
    then err overflow_error
    else ok (a +ℤ b)

unfoldable pub subtract : ℤ → ℤ → Result ℤ
subtract a b = if eqb_ℤ b int64_min then err overflow_error else add a (-ℤ◌ b)

unfoldable pub apart : ℤ → ℤ → ℤ → Result Bool
apart a b tolerance = do
  difference ← subtract a b
  ok (leb_ℤ tolerance difference || leb_ℤ difference (-ℤ◌ tolerance))

-- Division by two, towards 0.
abbrev pub half : ℤ → ℤ
half (pos n) = pos (n / 2)
half (negsuc n) = -ℤ◌ (pos (suc n / 2))

abbrev pub the : Option ℤ → Result ℤ
the none = err undefined
the (some v) = ok v

abbrev pub deref : Option AvFrame → Result AvFrame
deref none = err undefined
deref (some f) = ok f

abbrev pub head_of : Option ReadResult → Result ReadResult
head_of none = err undefined
head_of (some input) = ok input

abbrev pub frame_of : ReadResult → Result AvFrame
frame_of input = deref (raw_of input.frame)

-- ContinuityClock::Update and ContinuityClock::Now.
abbrev update_from : Option ℤ → ContinuityClock → ℤ → ℤ → ContinuityClock
update_from none c pts now = record c { pts = some pts; wall = now }
update_from (some last) c pts now =
    if ltb_ℤ last pts then record c { pts = some pts; wall = now } else c

unfoldable pub clock_update : ContinuityClock → ℤ → ℤ → ContinuityClock
clock_update c pts now = update_from c.pts c pts now

abbrev pub now_from : Option ℤ → ContinuityClock → ℤ → Result (ℤ × ContinuityClock)
now_from none c now = err undefined
now_from (some pts) c now = do
  elapsed ← subtract now c.wall
  value ← (if ltb_ℤ elapsed (pos 2000000) then ok pts else add pts elapsed)
  ok (value, c)

abbrev pub started : Option ℤ → ContinuityClock → ℤ → ContinuityClock
started none c now = clock_update c c.start now
started (some pts) c now = c

unfoldable pub clock_now : ContinuityClock → ℤ → Result (ℤ × ContinuityClock)
clock_now c now = let c = started c.pts c now in now_from c.pts c now

-- What the calls of FFmpeg do that allocate: buffers for a frame, or none if that fails; and
-- whether a pixel format is known.
pub record Platform : Type 0 where
  pub allocate : AvFrame → Option AvFrame
  pub known_format : ℤ → Bool

abbrev pub blank_frame : AvFrame
blank_frame = record {
  pts = nopts_value;
  best_effort_timestamp = nopts_value;
  pkt_dts = nopts_value;
  time_base = record { num = pos 0; den = pos 1 };
  duration = pos 0;
  nb_samples = pos 0;
  width = pos 0;
  height = pos 0;
  format = negsuc 0;
  sample_rate = pos 0;
  has_data = false;
  closed_captions = false;
  picture = 0;
}

abbrev allocated : Option AvFrame → Result AvFrame
allocated none = err runtime_error
allocated (some f) = ok f

abbrev pub stamp : Track → ℤ → ℤ → AvFrame → AvFrame
stamp t pts duration f = record f {
  pts = pts;
  best_effort_timestamp = pts;
  pkt_dts = nopts_value;
  time_base = t.time_base;
  duration = duration;
}

abbrev pub begin_fill : Track → ℤ → Bool → Track
begin_fill t target forward = record t {
  fill_until = some target;
  forward_fill = forward;
  filled = 0;
  filled_us = pos 0;
}

-- Syncer::OnOutput: empty, or a function that accepts a frame, refuses it, or throws.
abbrev pub OnOutput : Type 0
OnOutput = Option (AvFrame → Result Bool)

abbrev pub admit : OnOutput → AvFrame → Result Bool
admit none f = ok true
admit (some on_output) f = on_output f

-- The result of a call that changes a track and the shared clock.
abbrev pub Moved : Type 0
Moved = Result (SyncerStep × Track × ContinuityClock)
