-- ===== src/Remuxer/Handoff.antt =====
-- The handoff over a whole run: every packet that SubmitPacket accepted reaches Process.
use mw_streamer.Base.{
  ◌≡◌, ◌≢◌, ◌∙◌, ap, ◌⊎◌, true, false, Bool, List, [], ◌∷◌, ◌++◌, ℕ, ◌≤◌, ◌<◌, length, arith,
  append_nil, if◌then◌else◌, is_some,
}
use mw_streamer.Ffmpeg.{TimeMath, AvPacket}
use mw_streamer.Remuxer.{Session, Task, Stage}
use mw_streamer.Remuxer.Shape.{ShapeOf, WakeOf}
use mw_streamer.Remuxer.Runs.{Run, Run-Inv}

pub record Kept (s : Session) (accepted taken : List AvPacket) : Type 0 where
  pub in_order : accepted ≡ taken ++ s.packets.queue
  pub one_waits : length s.packets.queue ≤ 1
  pub awake :
      s.error_reported ≡ false
      → s.packets.queue ≢ []
      → (s.running ≡ true) × ((s.tasks ≡ Task.process ∷ []) ⊎ (0 < s.entering))
  pub complete : s.running ≡ false → s.error_reported ≡ false → accepted ≡ taken
  pub told_once : s.reports ≡ (if s.error_reported then 1 else 0)
  pub told : is_some s.error ≡ s.error_reported

awake_lem :
    (running draining closing scheduled error_reported : Bool) (queue : List AvPacket)
    (entering : ℕ) (st : Stage) (ts : List Task)
    → ShapeOf running draining closing scheduled st ts
    → WakeOf running error_reported queue entering st ts
    → error_reported ≡ false
    → queue ≢ []
    → (running ≡ true) × ((ts ≡ Task.process ∷ []) ⊎ (0 < entering))
awake_lem r d c s x q n Stage.idle [] h w e f = ground arith
awake_lem r d c s x q n st ts h w e f = ground arith

over_lem :
    (running draining closing scheduled error_reported : Bool) (queue : List AvPacket)
    (entering : ℕ) (st : Stage) (ts : List Task)
    → ShapeOf running draining closing scheduled st ts
    → WakeOf running error_reported queue entering st ts
    → running ≡ false
    → error_reported ≡ false
    → queue ≡ []
over_lem r d c s x q n Stage.idle [] h w o e = w.1 o e
over_lem r d c s x q n st ts h w o e = ground arith

-- In every run, in any order of the sections of the producers, the poller, Drain, Stop and the
-- errors of the outputs: Process takes the accepted packets in their order, and at most one waits
-- in the handoff. Unless the session has failed, a packet that waits there has a Process task, or
-- its producer is about to post one, and a session that is over has taken every accepted packet.
-- OnError is called once if the session has failed, and never otherwise.
pub Run-Kept :
    (m : TimeMath) (s : Session) (accepted taken : List AvPacket)
    → Run m s accepted taken
    → Kept s accepted taken
Run-Kept m s accepted taken run =
    let v = Run-Inv m s accepted taken run in
    record {
      in_order = v.in_order;
      one_waits = v.room;
      awake = awake_lem _ s.draining s.closing s.scheduled _ _ _ s.stage _ v.shape v.wake;
      complete = λ o e.
          v.in_order
          ∙ ap (λ x. taken ++ x)
              (over_lem _ s.draining s.closing s.scheduled _ _ s.entering s.stage s.tasks v.shape
                v.wake o e)
          ∙ append_nil taken;
      told_once = v.reported;
      told = v.has_error;
    }
