-- ===== src/Remuxer/Others.antt =====
-- What the sections of the other threads do to a session that drains.
use mw_streamer.Base.{
  ◌≡◌, refl, subst, true, false, Bool, not, ◌&&◌, Option, none, some, List, [], ℕ, zero, suc, ◌≤◌,
  arith, ok, if◌then◌else◌, >>=-eq-ok, ok-subst, throw_if, logic_error,
}
use mathlib.Core.Option.{some-injective}
use mw_streamer.Ffmpeg.{TimeMath, AvPacket, Packet}
use mw_streamer.BlockingQueue.{Done, Outcome, QueueResult}
use mw_streamer.Timestamps
use mw_streamer.Remuxer.{
  Session, Task, Stage, Thrown, schedule, drain, on_error, poll_from, enter_from, offer, admitted,
  hand_done, passed,
}
use mw_streamer.Remuxer.Shape.{ShapeOf, Shape}
use mw_streamer.Remuxer.Draining.{left_of, left}

pub left_of-le : (scheduled : Bool) (st : Stage) (ts : List Task) → left_of scheduled st ts ≤ 8
left_of-le scheduled Stage.idle [] = omega arith
left_of-le scheduled st ts = ground arith

-- What a section of another thread does to a session that runs and drains.
abbrev pub Stays : Session → Session → Type 0
Stays s t = (t.running ≡ s.running) × (t.draining ≡ true) × (left t ≤ left s)

module _ (s : Session) (dr : s.draining ≡ true) where
  schedule-Stays :
      (n : ℕ) (st : Stage) (ts : List Task)
      → s.stage ≡ st
      → s.tasks ≡ ts
      → ShapeOf s.running s.draining s.closing s.scheduled st ts
      → s.running ≡ true
      → Stays s (schedule (record s { entering = n }))
  schedule-Stays n Stage.idle [] e f h r = ground arith
  schedule-Stays n st ts e f h r = ground arith

  pub drain-Stays :
      (st : Stage) (ts : List Task)
      → s.stage ≡ st
      → s.tasks ≡ ts
      → ShapeOf s.running s.draining s.closing s.scheduled st ts
      → s.running ≡ true
      → Stays s (drain s)
  unfolding drain
  drain-Stays Stage.idle [] e f h r = ground arith
  drain-Stays st ts e f h r = ground arith

  pub on_error-Stays :
      (x : Thrown) (st : Stage) (ts : List Task)
      → s.stage ≡ st
      → s.tasks ≡ ts
      → ShapeOf s.running s.draining s.closing s.scheduled st ts
      → s.running ≡ true
      → Stays s (on_error s x)
  unfolding on_error
  on_error-Stays x Stage.idle [] e f h r = ground arith
  on_error-Stays x st ts e f h r = ground arith

  pub enter-Stays :
      (t : Session) (n : ℕ) → Shape s → s.running ≡ true → enter_from n s ≡ some t → Stays s t
  enter-Stays t zero h r k = cc
  enter-Stays t (suc n) h r k =
      subst (Stays s) (some-injective _ _ k) (by_run (s.attached && s.running))
    where
      by_run :
          (on : Bool)
          → Stays s (if on then schedule (record s { entering = n }) else record s { entering = n })
      by_run true = schedule-Stays n s.stage s.tasks refl refl h r
      by_run false = (refl, dr, omega arith)

  pub offer-Stays :
      (m : TimeMath) (packet : Packet) (on_poller b : Bool) (t : Session)
      → offer m s packet on_poller ≡ ok (b, t)
      → Stays s t
  unfolding offer
  offer-Stays m packet on_poller b t k =
      let (_, _, k) = >>=-eq-ok (throw_if on_poller logic_error) _ k in by_admission s.accepting k
    where
      by_admission :
          (admits : Bool)
          → (if not admits then ok (false, s) else admitted m s packet) ≡ ok (b, t)
          → Stays s t
      by_admission false k = ok-subst (λ x. Stays s x.1) k (refl, dr, omega arith)
      by_admission true k =
          let (p, _, k) = >>=-eq-ok (Timestamps.validate m s.interleaver.validation packet) _ k in
          ok-subst (λ x. Stays s x.1) k (refl, dr, omega arith)

  pub hand_done-Stays :
      (done : Option (Done AvPacket)) (rest : List AvPacket) (t : Session)
      → hand_done done (record s { pushing = rest }) ≡ some t
      → Stays s t
  hand_done-Stays none rest t k = cc
  hand_done-Stays (some done) rest t k =
      subst (Stays s) (some-injective _ _ k) (by_outcome done.outcome)
    where
      by_outcome :
          (outcome : Outcome)
          → Stays s (passed outcome (record s { pushing = rest; packets = done.after }))
      by_outcome (Outcome.returned QueueResult.success) = (refl, dr, omega arith)
      by_outcome (Outcome.returned QueueResult.timeout) = (refl, dr, omega arith)
      by_outcome (Outcome.returned QueueResult.empty) = (refl, dr, omega arith)
      by_outcome (Outcome.returned QueueResult.closed) = (refl, dr, omega arith)
      by_outcome Outcome.threw = (refl, dr, omega arith)
      by_outcome Outcome.finished = (refl, dr, omega arith)

-- No thread but the poller ends a session, and none begins it again.
module _ (s : Session) where
  passed-running :
      (outcome : Outcome) (t : Session)
      → t.running ≡ s.running
      → (passed outcome t).running ≡ s.running
  passed-running (Outcome.returned QueueResult.success) t e = e
  passed-running (Outcome.returned QueueResult.timeout) t e = e
  passed-running (Outcome.returned QueueResult.empty) t e = e
  passed-running (Outcome.returned QueueResult.closed) t e = e
  passed-running Outcome.threw t e = e
  passed-running Outcome.finished t e = e

  pub hand_done-running :
      (done : Option (Done AvPacket)) (rest : List AvPacket) (t : Session)
      → hand_done done (record s { pushing = rest }) ≡ some t
      → t.running ≡ s.running
  hand_done-running none rest t k = cc
  hand_done-running (some done) rest t k =
      subst (λ x. x.running ≡ s.running) (some-injective _ _ k) (passed-running done.outcome _ refl)

  pub enter-running : (n : ℕ) (t : Session) → enter_from n s ≡ some t → t.running ≡ s.running
  enter-running zero t k = cc
  enter-running (suc n) t k = ground arith

  pub offer-running :
      (m : TimeMath) (packet : Packet) (on_poller b : Bool) (t : Session)
      → offer m s packet on_poller ≡ ok (b, t)
      → t.running ≡ s.running
  unfolding offer
  offer-running m packet on_poller b t k =
      let (_, _, k) = >>=-eq-ok (throw_if on_poller logic_error) _ k in by_admission s.accepting k
    where
      by_admission :
          (admits : Bool)
          → (if not admits then ok (false, s) else admitted m s packet) ≡ ok (b, t)
          → t.running ≡ s.running
      by_admission false k = ok-subst (λ x. x.1.running ≡ s.running) k refl
      by_admission true k =
          let (p, _, k) = >>=-eq-ok (Timestamps.validate m s.interleaver.validation packet) _ k in
          ok-subst (λ x. x.1.running ≡ s.running) k refl

  pub over_lem :
      (m : TimeMath) (st : Stage) (ts : List Task) (what : Option Thrown)
      → ShapeOf s.running s.draining s.closing s.scheduled st ts
      → s.running ≡ false
      → poll_from m st ts s what ≡ none
  over_lem m Stage.idle [] what h r = refl
  over_lem m st ts what h r = ground arith

  pub drain-running : (drain s).running ≡ s.running
  unfolding drain
  drain-running = ground arith

  pub on_error-running : (x : Thrown) → (on_error s x).running ≡ s.running
  unfolding on_error
  on_error-running x = ground arith
