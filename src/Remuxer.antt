-- ===== src/Remuxer.antt =====
-- src/streamer/remuxer/remuxer.cc: one session of the remuxer, from Start to the end of Stop.
pub mod Shape
pub mod Steps
pub mod Handing
pub mod Producers
pub mod Poller
pub mod Finishing
pub mod Closing
pub mod Sections
pub mod Runs
pub mod Draining
pub mod Others
pub mod Ending
pub mod Handoff
pub mod Examples
use mw_streamer.Base.{
  Bool, true, false, not, ◌&&◌, ◌||◌, Option, none, some, List, [], ◌∷◌, ◌++◌, ℕ, zero, suc, ◌+◌,
  Error, logic_error, Result, ok, err, ◌>>=◌, ◌>>◌, throw_if, if◌then◌else◌,
}
use mw_streamer.Ffmpeg.{TimeMath, StreamInfo, AvPacket, Packet}
use mw_streamer.BlockingQueue as Queue
use mw_streamer.BlockingQueue.{BlockingQueue, QueueResult, Outcome, Done}
use mw_streamer.Timestamps
use mw_streamer.Interleaver
use mw_streamer.Interleaver.{Interleaver}

-- An exception: one of the sources' own, or what an output or FFmpeg has thrown.
pub data Thrown : Type 0 where
  raised : Error → Thrown
  foreign : ℕ → Thrown

-- What the remuxer posts to its poller: Process, Finish, and the last task of Finish.
pub data Task : Type 0 where
  process finish last : Task

-- Where the poller stands between two sections of the mutex: between two tasks; in Process with
-- the packets that are ready, and whether the session is to finish; after the packets; and in the
-- Flush of the end.
pub data Stage : Type 0 where
  idle ending flushing : Stage
  delivering : List AvPacket → Bool → Stage

-- `attached`: packets_ is not null. `pushing` holds the packets of the producers that were admitted
-- and have not passed the handoff, `entering` counts the producers between the handoff and
-- Schedule, `reports` the calls of OnError.
pub record Session : Type 0 where
  pub running : Bool
  pub accepting : Bool
  pub draining : Bool
  pub closing : Bool
  pub scheduled : Bool
  pub error_reported : Bool
  pub error : Option Thrown
  pub reports : ℕ
  pub attached : Bool
  pub packets : BlockingQueue AvPacket
  pub interleaver : Interleaver
  pub record_only : Bool
  pub tasks : List Task
  pub stage : Stage
  pub pushing : List AvPacket
  pub entering : ℕ

-- The state that Start commits.
abbrev pub begin : BlockingQueue AvPacket → Interleaver → Bool → Session
begin packets interleaver record_only = record {
  running = true;
  accepting = true;
  draining = false;
  closing = false;
  scheduled = false;
  error_reported = false;
  error = none;
  reports = 0;
  attached = true;
  packets = packets;
  interleaver = interleaver;
  record_only = record_only;
  tasks = [];
  stage = Stage.idle;
  pushing = [];
  entering = 0;
}

abbrev pub schedule : Session → Session
schedule s =
    if s.scheduled || s.closing
    then s
    else record s { scheduled = true; tasks = s.tasks ++ Task.process ∷ [] }

-- `if (packets_) packets_->Close()`.
abbrev pub close_packets : Bool → BlockingQueue AvPacket → BlockingQueue AvPacket
close_packets true packets = (Queue.close packets).after
close_packets false packets = packets

unfoldable pub drain : Session → Session
drain s =
    if not s.running || s.closing
    then s
    else schedule (record s {
      accepting = false;
      packets = close_packets s.attached s.packets;
      draining = true;
    })

abbrev pub or_else : Option Thrown → Thrown → Option Thrown
or_else none e = some e
or_else (some first) e = some first

-- `Error`: the first error of a session is kept and reported, and drains the session.
unfoldable pub on_error : Session → Thrown → Session
on_error s e =
    if not s.running
    then s
    else if s.error_reported
    then s
    else schedule (record s {
      error_reported = true;
      error = or_else s.error e;
      accepting = false;
      packets = close_packets s.attached s.packets;
      draining = true;
      reports = s.reports + 1;
    })

abbrev pub given_error : Option Thrown → Session → Session
given_error none s = s
given_error (some e) s = on_error s e

-- The second section of SubmitPacket: one of the producers passes the handoff, or is refused since
-- it was closed. None while it waits for room.
abbrev pub passed : Outcome → Session → Session
passed (Outcome.returned QueueResult.success) s = record s { entering = s.entering + 1 }
passed _ s = s

abbrev pub hand_done : Option (Done AvPacket) → Session → Option Session
hand_done none s = none
hand_done (some done) s = some (passed done.outcome (record s { packets = done.after }))

-- `throws`: the copy of the packet throws, and SubmitPacket with it.
unfoldable pub hand_over :
    Session → List AvPacket → AvPacket → List AvPacket → Bool → Option Session
hand_over s before p after throws =
    hand_done (Queue.push s.packets p throws false) (record s { pushing = before ++ after })

-- Its third section: the session is scheduled, unless it is over.
abbrev pub enter_from : ℕ → Session → Option Session
enter_from zero s = none
enter_from (suc n) s = some (
    if s.attached && s.running
    then schedule (record s { entering = n })
    else record s { entering = n })

unfoldable pub enter : Session → Option Session
enter s = enter_from s.entering s

-- The end of the wait in Stop.
unfoldable pub release : Session → Option Session
release s = if s.running then none else some (record s { draining = false; closing = false })

abbrev pub next_packet : Session → Done AvPacket
next_packet s = Queue.try_pop s.packets false

abbrev pub after_packets : Option Thrown → Bool → Session → Session
after_packets none true s = record s { stage = Stage.ending }
after_packets none false s = record s { stage = Stage.idle }
after_packets (some e) finishes s = record (on_error s e) { stage = Stage.ending }

abbrev pub to_deliver : Result (List AvPacket × Interleaver) → Session → Session
to_deliver (err e) s = record (on_error s (Thrown.raised e)) { stage = Stage.ending }
to_deliver (ok (items, interleaver)) s = record s {
  interleaver = interleaver;
  scheduled = false;
  stage = Stage.delivering items s.draining;
}

abbrev pub started_by : Option Error → Session → Result Session
started_by none s = ok s
started_by (some e) s = err e

-- Start, up to what the outputs throw while they start.
unfoldable pub start : List StreamInfo → Bool → Option Error → Result Session
start streams record_only what = do
  packets ← Queue.make 1
  interleaver ← Interleaver.make streams
  timestamps ← Timestamps.make streams
  started_by what (begin packets interleaver record_only)

module _ (m : TimeMath) where
  abbrev pub admitted : Session → Packet → Result (Bool × Session)
  admitted s packet = do
    p ← Timestamps.validate m s.interleaver.validation packet
    ok (true, record s { pushing = s.pushing ++ p ∷ [] })

  -- The first section of SubmitPacket. `on_poller`: it was called on the output's poller.
  unfoldable pub offer : Session → Packet → Bool → Result (Bool × Session)
  offer s packet on_poller = do
    throw_if on_poller logic_error
    if not s.accepting then ok (false, s) else admitted s packet

  abbrev pub merged : Option AvPacket → Interleaver → Result Interleaver
  merged none interleaver = ok interleaver
  merged (some p) interleaver = Interleaver.push m interleaver (some p)

  -- The packets that are ready, once the packet of the handoff is in the interleaver.
  unfoldable pub ready : Session → Option AvPacket → Result (List AvPacket × Interleaver)
  ready s popped = do
    interleaver ← merged popped s.interleaver
    Interleaver.pop_ready m interleaver s.draining

  -- The first section of Process.
  unfoldable pub process_packets : Session → Session
  process_packets s =
      if not s.running || s.closing
      then record s { scheduled = false }
      else to_deliver (ready s (next_packet s).item) (record s { packets = (next_packet s).after })

  -- The next section on the poller, with what the delivery, the Flush or the Close in it has
  -- thrown. None where no task is left.
  abbrev pub poll_from : Stage → List Task → Session → Option Thrown → Option Session
  poll_from Stage.idle [] s what = none
  poll_from Stage.idle (Task.process ∷ rest) s what =
      some (process_packets (record s { tasks = rest }))
  poll_from Stage.idle (Task.finish ∷ rest) s what = some (
      let t = given_error what (record s { tasks = rest }) in
      record t { record_only = false; tasks = t.tasks ++ Task.last ∷ [] })
  poll_from Stage.idle (Task.last ∷ rest) s what =
      some (record s { tasks = rest; attached = false; running = false; scheduled = false })
  poll_from (Stage.delivering items finishes) tasks s what = some (after_packets what finishes s)
  poll_from Stage.ending tasks s what = some (record s {
    accepting = false;
    packets = close_packets s.attached s.packets;
    closing = true;
    stage = Stage.flushing;
  })
  poll_from Stage.flushing tasks s what = some (
      let t = if s.record_only then s else given_error what s in
      record t { stage = Stage.idle; tasks = t.tasks ++ Task.finish ∷ [] })

  unfoldable pub poll : Session → Option Thrown → Option Session
  poll s what = poll_from s.stage s.tasks s what
