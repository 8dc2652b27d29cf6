-- ===== src/Remuxer/Handing.antt =====
-- What the second section of SubmitPacket does to the shape of a session.
use mw_streamer.Base.{
  ◌≡◌, refl, sym, ap, subst, ◌∙◌, true, false, Bool, Option, none, some, List, [], ◌∷◌, ◌++◌,
  ++-assoc, append_nil, ◌+◌, ◌<◌, ltb, length, length-append, arith,
}
use mathlib.Core.Option.{some-injective}
use mw_streamer.Ffmpeg.{AvPacket}
use mw_streamer.BlockingQueue.{
  push, push_ready, can_push, Done, Outcome, QueueResult, Notice, signal_reader,
}
use mw_streamer.Remuxer.{Session, Task, Stage, hand_over, hand_done}
use mw_streamer.Remuxer.Shape.{ShapeOf, Wake, Inv}

-- The packet that a producer has handed over.
abbrev pub handed_by : Outcome → AvPacket → List AvPacket
handed_by (Outcome.returned QueueResult.success) p = p ∷ []
handed_by _ p = []

abbrev pub handed : Option (Done AvPacket) → AvPacket → List AvPacket
handed none p = []
handed (some done) p = handed_by done.outcome p

-- A change of the producers that have not passed the handoff.
pub offered-Inv :
    (s : Session) (waiting : List AvPacket) (accepted taken : List AvPacket)
    → Inv s accepted taken
    → Inv (record s { pushing = waiting }) accepted taken
offered-Inv s waiting accepted taken v = record {
  shape = v.shape;
  wake = v.wake;
  unflushed = v.unflushed;
  admits = v.admits;
  ends = v.ends;
  attached = v.attached;
  capacity = v.capacity;
  room = v.room;
  in_order = v.in_order;
  fails = v.fails;
  reported = v.reported;
  has_error = v.has_error;
}

module _ (s : Session) (p : AvPacket) (rest : List AvPacket) where
  -- The session after a packet has passed.
  abbrev pub given : Session
  given = record s {
    pushing = rest;
    packets = record s.packets { queue = s.packets.queue ++ p ∷ [] };
    entering = s.entering + 1;
  }

  given-Wake :
      (st : Stage) (ts : List Task)
      → s.stage ≡ st
      → s.tasks ≡ ts
      → ShapeOf s.running s.draining s.closing s.scheduled st ts
      → s.draining ≡ false
      → s.running ≡ true
      → Wake given
  given-Wake Stage.idle [] e f h a b = ground arith
  given-Wake st ts e f h a b = ground arith

  given-Inv :
      (accepted taken : List AvPacket)
      → Inv s accepted taken
      → s.packets.closed ≡ false
      → length s.packets.queue < s.packets.capacity
      → Inv given (accepted ++ p ∷ []) taken
  given-Inv accepted taken v open_yet fits =
      let (runs, keeps, opens) = v.admits (let a = v.ends in ground arith) in
      record {
        shape = v.shape;
        wake = given-Wake s.stage s.tasks refl refl v.shape keeps runs;
        unflushed = v.unflushed;
        admits = v.admits;
        ends = v.ends;
        attached = v.attached;
        capacity = v.capacity;
        room = let c = v.capacity in omega (arith, length-append s.packets.queue (p ∷ []));
        in_order = ap (λ x. x ++ p ∷ []) v.in_order ∙ ++-assoc taken s.packets.queue (p ∷ []);
        fails = v.fails;
        reported = v.reported;
        has_error = v.has_error;
      }

  -- A producer that was refused.
  refused-Inv :
      (accepted taken : List AvPacket)
      → Inv s accepted taken
      → Inv (record s { pushing = rest }) (accepted ++ []) taken
  refused-Inv accepted taken v =
      subst (λ x. Inv (record s { pushing = rest }) x taken) (sym (append_nil accepted))
        (offered-Inv s rest accepted taken v)

-- What `push` does, by its two tests, where the copy of the packet throws or not.
abbrev pushed : Bool → Bool → Bool → Session → AvPacket → Option (Done AvPacket)
pushed false false throws s p = none
pushed true fits throws s p = some (record {
  outcome = Outcome.returned QueueResult.closed;
  item = none;
  after = s.packets;
  notices = [];
})
pushed false true true s p = some (record {
  outcome = Outcome.threw;
  item = none;
  after = s.packets;
  notices = Notice.one_writer ∷ [];
})
pushed false true false s p = some (record {
  outcome = Outcome.returned QueueResult.success;
  item = none;
  after = record s.packets { queue = s.packets.queue ++ p ∷ [] };
  notices = Notice.one_reader ∷ signal_reader s.packets.read_signal;
})

push-eq :
    (s : Session) (p : AvPacket) (ends fits throws : Bool)
    → s.packets.closed ≡ ends
    → ltb (length s.packets.queue) s.packets.capacity ≡ fits
    → push s.packets p throws false ≡ pushed ends fits throws s p
unfolding push push_ready can_push
push-eq s p true fits throws e f = ground arith
push-eq s p false true true e f = ground arith
push-eq s p false true false e f = ground arith
push-eq s p false false throws e f = ground arith

pushed-Inv :
    (s : Session) (p : AvPacket) (rest : List AvPacket) (t : Session)
    (accepted taken : List AvPacket) (ends fits throws : Bool)
    → Inv s accepted taken
    → s.packets.closed ≡ ends
    → ltb (length s.packets.queue) s.packets.capacity ≡ fits
    → hand_done (pushed ends fits throws s p) (record s { pushing = rest }) ≡ some t
    → Inv t (accepted ++ handed (pushed ends fits throws s p) p) taken
pushed-Inv s p rest t accepted taken false false throws v e f k = cc
pushed-Inv s p rest t accepted taken true fits throws v e f k =
    subst (λ x. Inv x (accepted ++ []) taken) (some-injective _ _ k)
      (refused-Inv s p rest accepted taken v)
pushed-Inv s p rest t accepted taken false true true v e f k =
    subst (λ x. Inv x (accepted ++ []) taken) (some-injective _ _ k)
      (refused-Inv s p rest accepted taken v)
pushed-Inv s p rest t accepted taken false true false v e f k =
    subst (λ x. Inv x (accepted ++ p ∷ []) taken) (some-injective _ _ k)
      (given-Inv s p rest accepted taken v e (ground (arith, f)))

pub hand_over-Inv :
    (s : Session) (before : List AvPacket) (p : AvPacket) (after : List AvPacket) (throws : Bool)
    (t : Session) (accepted taken : List AvPacket)
    → Inv s accepted taken
    → hand_over s before p after throws ≡ some t
    → Inv t (accepted ++ handed (push s.packets p throws false) p) taken
unfolding hand_over
hand_over-Inv s before p after throws t accepted taken v k =
    let e =
      push-eq s p s.packets.closed (ltb (length s.packets.queue) s.packets.capacity) throws refl
        refl in
    subst (λ x. Inv t (accepted ++ handed x p) taken) (sym e)
      (pushed-Inv s p (before ++ after) t accepted taken _ _ throws v refl refl
        (subst (λ x. hand_done x (record s { pushing = before ++ after }) ≡ some t) e k))
