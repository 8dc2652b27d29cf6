-- ===== src/Recorder.antt =====
-- src/streamer/recorder/recorder.cc: the recorder's session, its queue and its worker.
pub mod Ledger
pub mod Steps
pub mod Submission
pub mod Runs
pub mod Admission
pub mod Examples
pub mod Draining
use mw_streamer.Base.{
  Bool, true, false, not, ◌&&◌, ◌||◌, Option, none, some, List, [], ◌∷◌, ◌++◌, ℕ, ◌+◌, ◌%◌, ltb,
  ◌==◌, length, any, ℤ, pos, leb_ℤ, eqb_ℤ, uint64_mod, to_uint64, sub_uint64, Result, ok, err,
  invalid_argument, undefined, ◌>>=◌, ◌>>◌, throw_if, if◌then◌else◌,
}
use mw_streamer.Ffmpeg.{
  StreamInfo, CodecParameters, CodecType, same_type, validate_stream, AvPacket, Packet, nopts_value,
}

-- What FFmpeg's headers say: the codec ids, and sizeof(AVPacket).
pub record Headers : Type 0 where
  pub h264 : ℕ
  pub hevc : ℕ
  pub aac : ℕ
  pub packet_header : ℕ

-- The path is its bytes.
pub record RecorderConfig : Type 0 where
  pub path : List ℕ
  pub max_queue_bytes : ℕ

pub data RecorderState : Type 0 where
  stopped running stopping failed : RecorderState

-- `what()` of an exception is a name for it.
pub data RecorderError : Type 0 where
  no_error no_thread : RecorderError
  thrown : ℕ → RecorderError

pub record RecorderStatus : Type 0 where
  pub state : RecorderState
  pub queue_bytes : ℕ
  pub written_packets : ℕ
  pub dropped_packets : ℕ
  pub error : RecorderError

-- Where the worker's thread stands: before its file is open, waiting, with a packet in the writer,
-- in the writer's Finish, or at its end but not joined.
pub data Worker : Type 0 where
  absent opening waiting finishing done : Worker
  writing : AvPacket → Worker

pub record Recorder : Type 0 where
  pub queue : List AvPacket
  pub streams : List StreamInfo
  pub config : RecorderConfig
  pub status : RecorderStatus
  pub on_error : Option ℕ
  pub worker : Worker

abbrev pub fresh_status : RecorderStatus
fresh_status = record {
  state = RecorderState.stopped;
  queue_bytes = 0;
  written_packets = 0;
  dropped_packets = 0;
  error = RecorderError.no_error;
}

abbrev pub initial : Recorder
initial = record {
  queue = [];
  streams = [];
  config = record { path = []; max_queue_bytes = 67108864 };
  status = fresh_status;
  on_error = none;
  worker = Worker.absent;
}

-- A new session, unless its thread could not be created.
abbrev pub begin : Recorder → List StreamInfo → RecorderConfig → Bool → Recorder
begin s streams config true = record s {
  streams = streams;
  config = config;
  status = record fresh_status { state = RecorderState.running };
  worker = Worker.opening;
}
begin s streams config false = record s {
  streams = streams;
  config = config;
  status = record fresh_status { state = RecorderState.failed; error = RecorderError.no_thread };
}

abbrev pub is_running : RecorderState → Bool
is_running RecorderState.running = true
is_running _ = false

abbrev pub joinable : Worker → Bool
joinable Worker.absent = false
joinable _ = true

-- The checks of a path.
abbrev pub starts : List ℕ → List ℕ → Bool
starts [] text = true
starts (x ∷ xs) [] = false
starts (x ∷ xs) (y ∷ ys) = (x == y) && starts xs ys

abbrev pub contains : List ℕ → List ℕ → Bool
contains part [] = starts part []
contains part (y ∷ ys) = starts part (y ∷ ys) || contains part ys

-- std::filesystem::path::filename: what follows the last slash.
abbrev pub filename : List ℕ → List ℕ → List ℕ
filename name [] = name
filename name (x ∷ xs) = filename (if x == b'/' then [] else name ++ x ∷ []) xs

-- What stands from the last dot on, if there is a dot.
abbrev pub from_dot : List ℕ → Option (List ℕ)
from_dot [] = none
from_dot (x ∷ xs) = elim (from_dot xs) [
  | some rest ↦ some rest
  | none ↦ if x == b'.' then some (x ∷ xs) else none
]

abbrev pub or_empty : Option (List ℕ) → List ℕ
or_empty none = []
or_empty (some text) = text

-- std::filesystem::path::extension: none for a name whose only dot is its first byte, and for `..`.
abbrev pub extension_of : List ℕ → List ℕ
extension_of [] = []
extension_of (x ∷ []) = []
extension_of (x ∷ y ∷ []) = if (x == b'.') && (y == b'.') then [] else or_empty (from_dot (y ∷ []))
extension_of (x ∷ rest) = or_empty (from_dot rest)

abbrev pub same_text : List ℕ → List ℕ → Bool
same_text a b = starts a b && (length a == length b)

abbrev pub mp4 : List ℕ
mp4 = b'.' ∷ b'm' ∷ b'p' ∷ b'4' ∷ []

abbrev pub scheme : List ℕ
scheme = b':' ∷ b'/' ∷ b'/' ∷ []

unfoldable pub bad_path : List ℕ → Bool
bad_path path =
    (length path == 0)
    || (contains (0 ∷ []) path
        || (contains scheme path || not (same_text (extension_of (filename [] path)) mp4)))

abbrev pub has_index : ℤ → List StreamInfo → Bool
has_index index streams = any (λ s. eqb_ℤ s.stream_index index) streams

abbrev pub sum_of : List ℕ → ℕ
sum_of [] = 0
sum_of (n ∷ ns) = n + sum_of ns

module _ (h : Headers) where
  -- Whether a video and an audio track were seen, with this one.
  abbrev pub take_kind : Bool → Bool → Option CodecParameters → Result (Bool × Bool)
  take_kind video audio none = err undefined
  take_kind video audio (some c) =
      if same_type c.codec_type CodecType.video
        && (not video && ((c.codec_id == h.h264) || (c.codec_id == h.hevc)))
      then ok (true, audio)
      else if same_type c.codec_type CodecType.audio && (not audio && (c.codec_id == h.aac))
      then ok (video, true)
      else err invalid_argument

  unfoldable pub check_tracks : List StreamInfo → Bool → Bool → List StreamInfo → Result (Unit {0})
  check_tracks earlier video audio [] = ok tt
  check_tracks earlier video audio (s ∷ rest) = do
    validate_stream s
    kinds ← take_kind video audio s.codec_parameters
    throw_if (has_index s.stream_index earlier) invalid_argument
    check_tracks (earlier ++ s ∷ []) kinds.0 kinds.1 rest

  -- `Validate`.
  unfoldable pub validate : List StreamInfo → RecorderConfig → Result (Unit {0})
  validate streams config = do
    throw_if (bad_path config.path || (config.max_queue_bytes == 0)) invalid_argument
    throw_if ((length streams == 0) || ltb 2 (length streams)) invalid_argument
    check_tracks [] false false streams

  -- `Start`. `thread`: whether the worker's thread could be created.
  unfoldable pub start :
      Recorder → List StreamInfo → RecorderConfig → Bool → Result (Bool × Recorder)
  start s streams config thread =
      if joinable s.worker
      then ok (false, s)
      else do validate streams config; ok (thread, begin s streams config thread)

  -- `PacketBytes`, in std::size_t.
  unfoldable pub packet_bytes : AvPacket → ℕ
  packet_bytes p = (h.packet_header + to_uint64 p.size + sum_of p.side_data) % uint64_mod

  abbrev pub bad_packet : List StreamInfo → AvPacket → Bool
  bad_packet streams p =
      leb_ℤ p.size (pos 0)
      || (not p.has_data
          || ((eqb_ℤ p.dts nopts_value && eqb_ℤ p.pts nopts_value)
              || not (has_index p.stream_index streams)))

  -- A packet for which there is no room is dropped.
  abbrev pub admit_if : Bool → Recorder → AvPacket → Bool × Recorder
  admit_if true s p = (
    false,
    record s {
      status = record s.status { dropped_packets = (s.status.dropped_packets + 1) % uint64_mod };
    },
  )
  admit_if false s p = (
    true,
    record s {
      queue = s.queue ++ p ∷ [];
      status = record s.status {
        queue_bytes = (s.status.queue_bytes + packet_bytes p) % uint64_mod;
      };
    },
  )

  abbrev pub is_full : Recorder → AvPacket → Bool
  is_full s p = ltb (sub_uint64 s.config.max_queue_bytes s.status.queue_bytes) (packet_bytes p)

  abbrev pub admit : Recorder → AvPacket → Bool × Recorder
  admit s p = admit_if (is_full s p) s p

  abbrev pub submit_raw : Recorder → Packet → Result (Bool × Recorder)
  submit_raw s none = err invalid_argument
  submit_raw s (some p) = do throw_if (bad_packet s.streams p) invalid_argument; ok (admit s p)

  -- `TrySubmitPacket`.
  unfoldable pub try_submit : Recorder → Packet → Result (Bool × Recorder)
  try_submit s packet = if is_running s.status.state then submit_raw s packet else ok (false, s)

  abbrev pub take_front : List AvPacket → Recorder → Option Recorder
  take_front [] s =
      if is_running s.status.state then none else some (record s { worker = Worker.finishing })
  take_front (p ∷ rest) s = some (record s {
    queue = rest;
    status = record s.status { queue_bytes = sub_uint64 s.status.queue_bytes (packet_bytes p) };
    worker = Worker.writing p;
  })

  -- `Fail`, at the end of the worker.
  unfoldable pub fail : Recorder → ℕ → Recorder
  fail s what = record s {
    queue = [];
    status = record s.status {
      state = RecorderState.failed;
      queue_bytes = 0;
      error = RecorderError.thrown what;
    };
    worker = Worker.done;
  }

  -- A call of the writer that returns, or that throws what it names.
  abbrev pub then_fail : Option ℕ → Recorder → Recorder → Option Recorder
  then_fail none s next = some next
  then_fail (some what) s next = some (fail s what)

  abbrev pub advance_from : Worker → Recorder → Option ℕ → Option Recorder
  advance_from Worker.absent s what = none
  advance_from Worker.opening s what = then_fail what s (record s { worker = Worker.waiting })
  advance_from Worker.waiting s what = take_front s.queue s
  advance_from (Worker.writing p) s what = then_fail what s (record s {
    status = record s.status { written_packets = (s.status.written_packets + 1) % uint64_mod };
    worker = Worker.waiting;
  })
  advance_from Worker.finishing s what = then_fail what s (record s {
    status = record s.status { state = RecorderState.stopped };
    worker = Worker.done;
  })
  advance_from Worker.done s what = none

  -- One section of `Run`: the file is opened, a packet is taken, written, or the file is finished.
  -- None while the worker waits for a packet or the end, or where there is no worker.
  unfoldable pub advance : Recorder → Option ℕ → Option Recorder
  advance s what = advance_from s.worker s what

-- `Drain`.
unfoldable pub drain : Recorder → Recorder
drain s =
    if is_running s.status.state
    then record s { status = record s.status { state = RecorderState.stopping } }
    else s

abbrev pub join_from : Worker → Recorder → Option Recorder
join_from Worker.absent s = some s
join_from Worker.done s = some (record s { worker = Worker.absent })
join_from _ s = none

-- The join in `Stop`, which waits for the end of the worker.
unfoldable pub join : Recorder → Option Recorder
join s = join_from s.worker s

-- `SetOnError`.
unfoldable pub set_on_error : Recorder → Option ℕ → Recorder
set_on_error s callback = record s { on_error = callback }
