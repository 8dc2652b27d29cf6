-- ===== src/Remuxer/Shape.antt =====
-- What the poller's stage and its tasks say of a session, and the invariant of a session.
use mw_streamer.Base.{
  ◌≡◌, ◌⊎◌, true, false, Bool, not, List, [], ◌∷◌, ◌++◌, ℕ, ◌≤◌, ◌<◌, length, is_some,
  if◌then◌else◌,
}
use mw_streamer.Ffmpeg.{AvPacket}
use mw_streamer.Remuxer.{Session, Task, Stage}

module _ (running draining closing scheduled : Bool) where
  abbrev Live : Type 0
  Live = (running ≡ true) × (closing ≡ false)

  abbrev Closing : Type 0
  Closing = (running ≡ true) × (draining ≡ true) × (closing ≡ true)

  -- Which tasks there are, by the stage.
  abbrev pub ShapeOf : Stage → List Task → Type 0
  ShapeOf Stage.idle [] =
      (Live × (draining ≡ false) × (scheduled ≡ false)) ⊎ ((running ≡ false) × (scheduled ≡ false))
  ShapeOf Stage.idle (Task.process ∷ []) = Live × (scheduled ≡ true)
  ShapeOf Stage.idle (Task.process ∷ Task.finish ∷ []) = Closing
  ShapeOf Stage.idle (Task.finish ∷ []) = Closing
  ShapeOf Stage.idle (Task.last ∷ []) = Closing
  ShapeOf (Stage.delivering items finishes) [] = Live × (scheduled ≡ false) × (draining ≡ finishes)
  ShapeOf (Stage.delivering items finishes) (Task.process ∷ []) =
      Live × (scheduled ≡ true) × (finishes ≡ true → draining ≡ true)
  ShapeOf Stage.ending [] = Live × (draining ≡ true)
  ShapeOf Stage.ending (Task.process ∷ []) = Live × (draining ≡ true) × (scheduled ≡ true)
  ShapeOf Stage.flushing [] = Closing
  ShapeOf Stage.flushing (Task.process ∷ []) = Closing
  ShapeOf stage tasks = ⊥

abbrev pub Shape : Session → Type 0
Shape s = ShapeOf s.running s.draining s.closing s.scheduled s.stage s.tasks

module _ (running error_reported : Bool) (queue : List AvPacket) (entering : ℕ) where
  -- Nothing is left in the handoff, unless the session has failed.
  abbrev pub Settled : Type 0
  Settled = error_reported ≡ false → queue ≡ []

  -- A packet in the handoff has a task that will take it, or a producer that will post one.
  abbrev pub Awake : Type 0
  Awake = (queue ≡ []) ⊎ (0 < entering)

  abbrev pub WakeOf : Stage → List Task → Type 0
  WakeOf Stage.idle [] = (running ≡ true → Awake) × (running ≡ false → Settled)
  WakeOf Stage.idle (Task.process ∷ []) = Unit
  WakeOf Stage.idle tasks = Settled
  WakeOf (Stage.delivering items true) tasks = Settled
  WakeOf (Stage.delivering items false) [] = Awake
  WakeOf (Stage.delivering items false) tasks = Unit
  WakeOf Stage.ending tasks = Settled
  WakeOf Stage.flushing tasks = Settled

abbrev pub Wake : Session → Type 0
Wake s = WakeOf s.running s.error_reported s.packets.queue s.entering s.stage s.tasks

-- Once the interleaver was flushed, no task puts a packet into it any more.
abbrev pub UnflushedOf : Bool → Bool → Stage → List Task → Type 0
UnflushedOf running flushed Stage.idle [] = running ≡ true → flushed ≡ false
UnflushedOf running flushed Stage.idle (Task.process ∷ []) = flushed ≡ false
UnflushedOf running flushed (Stage.delivering items false) tasks = flushed ≡ false
UnflushedOf running flushed stage tasks = Unit

abbrev pub Unflushed : Session → Type 0
Unflushed s = UnflushedOf s.running s.interleaver.flushed s.stage s.tasks

-- `accepted` are the packets that passed the handoff, `taken` those that Process took from it.
pub record Inv (s : Session) (accepted taken : List AvPacket) : Type 0 where
  pub shape : Shape s
  pub wake : Wake s
  pub unflushed : Unflushed s
  pub admits : s.accepting ≡ true → (s.running ≡ true) × (s.draining ≡ false) × (s.closing ≡ false)
  pub ends : s.packets.closed ≡ not s.accepting
  pub attached : s.running ≡ true → s.attached ≡ true
  pub capacity : s.packets.capacity ≡ 1
  pub room : length s.packets.queue ≤ 1
  pub in_order : accepted ≡ taken ++ s.packets.queue
  pub fails : s.running ≡ true → s.error_reported ≡ true → s.draining ≡ true
  pub reported : s.reports ≡ (if s.error_reported then 1 else 0)
  pub has_error : is_some s.error ≡ s.error_reported
