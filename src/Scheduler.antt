-- ===== src/Scheduler.antt =====
-- src/streamer/scheduler/scheduler.cc: one track between the driver and its worker.
pub mod Flow
pub mod Driver
pub mod Ledger
pub mod Rounds
pub mod Runs
pub mod Examples
use mw_streamer.Base.{
  Bool, true, false, not, ◌&&◌, ◌||◌, Option, none, some, List, [], ◌∷◌, ℕ, ◌==◌, ℤ, pos, ◌+ℤ◌,
  ltb_ℤ, leb_ℤ, eqb_ℤ, int64_max, Result, ok, err, invalid_argument, overflow_error, undefined,
  ◌>>=◌, ◌>>◌, throw_if, if◌then◌else◌, is_some,
}
use mw_streamer.Ffmpeg.{TimeMath, AvRational, nopts_value, microseconds}
use mw_streamer.Media.{AvFrame, Frame, ReadStatus, ReadResult, no_result}
use mw_streamer.Media.ReadStatus.{frame_read, eof, null_read}
use mw_streamer.Realtime
use mw_streamer.Realtime.{RealtimeTiming, Decision}
use mw_streamer.SyncerTiming.{SyncerStep, OnOutput}

pub record Track : Type 0 where
  pub busy : Bool
  pub requested : Bool
  pub completed : Bool
  pub task : ReadResult
  pub result : ReadResult
  pub needs_input : Bool
  pub source_head : ReadResult
  pub head : ReadResult
  pub syncer_wake_us : ℤ
  pub output_blocked : Bool
  pub blocked_revision : ℕ
  pub output_retry_us : ℤ

-- `Track::Clear`.
abbrev pub cleared : Track
cleared = record {
  busy = false;
  requested = false;
  completed = false;
  task = no_result;
  result = no_result;
  needs_input = true;
  source_head = no_result;
  head = no_result;
  syncer_wake_us = pos 0;
  output_blocked = false;
  blocked_revision = 0;
  output_retry_us = pos 0;
}

-- The locals of `Process`: what waits for the converter, and the input that it has taken.
pub record Worker : Type 0 where
  pub pending : ReadResult
  pub holding : Option ReadResult

abbrev pub idle : Worker
idle = record { pending = no_result; holding = none }

abbrev status_is_null : ReadStatus → Bool
status_is_null null_read = true
status_is_null _ = false

abbrev pub is_null : ReadResult → Bool
is_null r = status_is_null r.status

abbrev pub no_wake : ℤ
no_wake = int64_max

abbrev pub complete : Track → ℤ → Track
complete t now =
    if t.completed
    then record t {
      head = t.result;
      result = no_result;
      completed = false;
      syncer_wake_us = if is_null t.result then t.syncer_wake_us else now;
    }
    else t

abbrev pub dispatch : Bool → Track → ReadResult → Track
dispatch stopping t input =
    if stopping then t else record t { task = input; busy = true; requested = true }

module _ (m : TimeMath) where
  abbrev bad_time_base : AvRational → Bool
  bad_time_base q = leb_ℤ q.num (pos 0) || leb_ℤ q.den (pos 0)

  abbrev input_time : Option Frame → AvRational → Result ℤ
  input_time none time_base = err invalid_argument
  input_time (some none) time_base = do
    throw_if (bad_time_base time_base) invalid_argument
    err undefined
  input_time (some (some f)) time_base = do
    throw_if (bad_time_base time_base || eqb_ℤ f.pts nopts_value) invalid_argument
    let pts = m.rescale_q f.pts time_base microseconds
    throw_if (eqb_ℤ pts nopts_value || eqb_ℤ pts no_wake) overflow_error
    ok pts

  unfoldable pub input_pts : ReadResult → Result ℤ
  input_pts input = input_time input.frame input.time_base

  abbrev pub released : Bool → Track → RealtimeTiming → Result (ℤ × Track × RealtimeTiming)
  released stopping t realtime =
      ok (no_wake, record (dispatch stopping t t.source_head) { source_head = no_result }, realtime)

  abbrev pub by_decision :
      Bool → Track → Decision → RealtimeTiming → ℤ → Result (ℤ × Track × RealtimeTiming)
  by_decision stopping t decision realtime now =
      if decision.discard
      then ok (now, record t { source_head = no_result }, realtime)
      else if decision.ready
      then released stopping t realtime
      else ok (decision.wake_us, t, realtime)

  -- What happens to the item that the driver looks ahead at.
  abbrev pub release :
      ReadStatus → Bool → Track → RealtimeTiming → ℤ → Result (ℤ × Track × RealtimeTiming)
  release null_read stopping t realtime now = ok (no_wake, t, realtime)
  release eof stopping t realtime now = released stopping t realtime
  release frame_read stopping t realtime now = do
    pts_us ← input_pts t.source_head
    (decision, realtime) ← Realtime.schedule realtime pts_us now
    by_decision stopping t decision realtime now

  -- `read` is what a read of the source returns now; it is used only where there is no lookahead.
  abbrev pub look_ahead : Track → ReadResult → Track
  look_ahead t read = if is_null t.source_head then record t { source_head = read } else t

  abbrev pub from_source : Bool → Track → RealtimeTiming → ℤ → Result (ℤ × Track × RealtimeTiming)
  from_source stopping t realtime now = release t.source_head.status stopping t realtime now

  unfoldable pub prepare :
      Bool → Track → RealtimeTiming → ReadResult → ℤ → Result (ℤ × Track × RealtimeTiming)
  prepare stopping t realtime read now =
      if t.busy || (t.completed || not (is_null t.head))
      then ok (no_wake, t, realtime)
      else if t.needs_input
      then from_source stopping (look_ahead t read) realtime now
      else ok (no_wake, dispatch stopping t no_result, realtime)

  -- A call of the Syncer on the state that it keeps.
  abbrev pub SyncerCall : Type 0 → Type 0
  SyncerCall S = S → Bool → Option ReadResult → ℤ → OnOutput → Result (SyncerStep × S)

  abbrev pub head_of : Track → Option ReadResult
  head_of t = if is_null t.head then none else some t.head

  abbrev pub delivered : Track → SyncerStep → ℕ → ℤ → Track
  delivered t out space later = record t {
    head = if out.consumed then no_result else t.head;
    syncer_wake_us = out.wake_us;
    output_blocked = out.blocked;
    blocked_revision = if out.blocked then space else t.blocked_revision;
    output_retry_us = if out.blocked then later +ℤ pos 20000 else t.output_retry_us;
  }

  -- Whether a track has to wait: for room or the retry time after a refusal, else for its wake time.
  abbrev pub holds_back : Track → ℕ → ℤ → Bool
  holds_back t space now =
      if t.output_blocked
      then (space == t.blocked_revision) && ltb_ℤ now t.output_retry_us
      else ltb_ℤ now t.syncer_wake_us

  -- `call` is `Syncer::Step` (Syncer.step), `space` the revision of the output's signal, `later`
  -- the time after the call. With what the Syncer returned, where it was called.
  unfoldable pub deliver :
      {S : Type 0}
      → SyncerCall S
      → Bool
      → Track
      → S
      → ℕ
      → ℤ
      → ℤ
      → OnOutput
      → Result (Option SyncerStep × Track × S)
  deliver call video t syncer space now later on_output =
      if holds_back t space now then ok (none, t, syncer) else do
        (out, syncer) ← call syncer video (head_of t) now on_output
        ok (some out, delivered t out space later, syncer)

-- A frame-rate converter or a resampler, as `Process` uses it.
pub record Converter {ℓ} (S : Type ℓ) : Type ℓ where
  pub try_push : S → ReadResult → Result (Bool × S)
  pub try_read : S → Result (ReadResult × S)

-- The first section of the loop in `Process`: the worker takes its task.
unfoldable pub take : Track → Worker → Option (Track × Worker)
take t w =
    if t.requested && not (is_some w.holding)
    then some (record t { task = no_result; requested = false }, record w { holding = some t.task })
    else none

module _ {ℓ} {S : Type ℓ} (converter : Converter S)
    (filter_in filter_out : ReadResult → Result ReadResult) where
  abbrev pub filtered : Bool → ReadResult → ReadResult → Result ReadResult
  filtered true input pending = ok pending
  filtered false input pending = filter_in input

  abbrev pub offer : Bool → S → ReadResult → Result (Bool × S)
  offer true s pending = ok (false, s)
  offer false s pending = converter.try_push s pending

  abbrev pub refine : Bool → ReadResult → Result ReadResult
  refine true output = ok output
  refine false output = filter_out output

  -- What one round of the loop leaves.
  pub record Round : Type ℓ where
    pub track : Track
    pub worker : Worker
    pub state : S

  -- The rest of a round, with the input that was taken. `filter_in` is ProcessVideo, or nothing
  -- for audio; `filter_out` is ProcessAudio, or nothing for video.
  unfoldable pub finish : Track → Worker → S → ReadResult → Result Round
  finish t w s input = do
    pending ← filtered (is_null input) input w.pending
    (pushed, s) ← offer (is_null pending) s pending
    raw ← converter.try_read s
    let (output, s) = raw
    output ← refine (is_null output) output
    let rest = if pushed then no_result else pending
    ok (record {
      track = record t {
        needs_input = is_null rest && is_null output;
        result = output;
        busy = false;
        completed = true;
      };
      worker = record { pending = rest; holding = none };
      state = s;
    })
