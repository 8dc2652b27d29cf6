-- ===== src/Remuxer/Runs.antt =====
-- Runs of a session: the producers, the poller, the callers of Drain and Stop, and errors of the
-- outputs, in any order of their sections.
use mw_streamer.Base.{
  ◌≡◌, refl, sym, ap, subst, inl, true, false, Bool, Option, none, some, List, [], ◌∷◌, ◌++◌,
  length, arith, ok, Error, >>=-eq-ok, append_nil, ok-subst,
}
use mw_streamer.Ffmpeg.{TimeMath, StreamInfo, AvPacket, Packet}
use mw_streamer.BlockingQueue as Queue
use mw_streamer.BlockingQueue.{BlockingQueue, make, push}
use mw_streamer.Interleaver
use mw_streamer.Interleaver.{Interleaver}
use mw_streamer.Timestamps
use mw_streamer.Remuxer.{
  Session, Thrown, begin, started_by, drain, on_error, poll, start, offer, hand_over, enter,
  release,
}
use mw_streamer.Remuxer.Shape.{Inv}
use mw_streamer.Remuxer.Steps.{drain-Inv, on_error-Inv}
use mw_streamer.Remuxer.Producers.{offer-Inv, enter-Inv, release-Inv}
use mw_streamer.Remuxer.Handing.{handed, hand_over-Inv}
use mw_streamer.Remuxer.Poller.{taken_by}
use mw_streamer.Remuxer.Sections.{poll-Inv}

-- What a step has passed through the handoff, and taken from it.
pub record Moves : Type 0 where
  pub passed_in : List AvPacket
  pub taken_out : List AvPacket

abbrev pub nothing : Moves
nothing = record { passed_in = []; taken_out = [] }

-- One section of one thread; the Boolean says whether it is one of the poller.
pub data Step (m : TimeMath) (s : Session) : Bool → Moves → Session → Type 0 where
  offers :
      (packet : Packet) (on_poller b : Bool) (t : Session)
      → offer m s packet on_poller ≡ ok (b, t)
      → Step m s false nothing t
  hands_over :
      (before : List AvPacket) (p : AvPacket) (after : List AvPacket) (throws : Bool) (t : Session)
      → s.pushing ≡ before ++ p ∷ after
      → hand_over s before p after throws ≡ some t
      → Step m s false
          (record { passed_in = handed (push s.packets p throws false) p; taken_out = [] })
          t
  enters : (t : Session) → enter s ≡ some t → Step m s false nothing t
  polls :
      (what : Option Thrown) (t : Session)
      → poll m s what ≡ some t
      → Step m s true (record { passed_in = []; taken_out = taken_by s.stage s.tasks s }) t
  drains : (t : Session) → t ≡ drain s → Step m s false nothing t
  fails : (x : Thrown) (t : Session) → t ≡ on_error s x → Step m s false nothing t
  releases : (t : Session) → release s ≡ some t → Step m s false nothing t

pub data Run (m : TimeMath) : Session → List AvPacket → List AvPacket → Type 0 where
  started :
      (streams : List StreamInfo) (record_only : Bool) (what : Option Error) (s : Session)
      → start streams record_only what ≡ ok s
      → Run m s [] []
  stepped :
      {s : Session} {accepted taken accepted_next taken_next : List AvPacket} (polled : Bool)
      (moves : Moves) (t : Session)
      → Run m s accepted taken
      → Step m s polled moves t
      → accepted_next ≡ accepted ++ moves.passed_in
      → taken_next ≡ taken ++ moves.taken_out
      → Run m t accepted_next taken_next

begin-Inv :
    (packets : BlockingQueue AvPacket) (interleaver : Interleaver) (record_only : Bool)
    → packets.closed ≡ false
    → packets.capacity ≡ 1
    → packets.queue ≡ []
    → interleaver.flushed ≡ false
    → Inv (begin packets interleaver record_only) [] []
begin-Inv packets interleaver record_only c k q f = record {
  shape = inl ((refl, refl), refl, refl);
  wake = (λ r. inl q, λ r. cc);
  unflushed = λ r. f;
  admits = λ a. (refl, refl, refl);
  ends = c;
  attached = λ r. refl;
  capacity = k;
  room = omega (arith, ap length q);
  in_order = sym q;
  fails = λ r e. cc;
  reported = refl;
  has_error = refl;
}

new_queue :
    (q : BlockingQueue AvPacket)
    → Queue.make 1 ≡ ok q
    → (q.closed ≡ false) × (q.capacity ≡ 1) × (q.queue ≡ [])
unfolding make
new_queue q k =
    ok-subst
      (λ (x : BlockingQueue AvPacket). (x.closed ≡ false) × (x.capacity ≡ 1) × (x.queue ≡ [])) k
      (refl, refl, refl)

new_interleaver :
    (streams : List StreamInfo) (s : Interleaver)
    → Interleaver.make streams ≡ ok s
    → s.flushed ≡ false
unfolding Interleaver.make
new_interleaver streams s k =
    let (validation, _, k) = >>=-eq-ok (Timestamps.make streams) _ k in
    let (tracks, _, k) = >>=-eq-ok (Interleaver.make_tracks [] streams) _ k in
    ok-subst (λ (x : Interleaver). x.flushed ≡ false) k refl

started_by-Inv :
    (what : Option Error) (s t : Session) → started_by what s ≡ ok t → Inv s [] [] → Inv t [] []
started_by-Inv none s t k v = ok-subst (λ x. Inv x [] []) k v
started_by-Inv (some e) s t k v = cc

start-Inv :
    (streams : List StreamInfo) (record_only : Bool) (what : Option Error) (s : Session)
    → start streams record_only what ≡ ok s
    → Inv s [] []
unfolding start
start-Inv streams record_only what s k =
    let (packets, a, k) = >>=-eq-ok (Queue.make 1) _ k in
    let (interleaver, b, k) = >>=-eq-ok (Interleaver.make streams) _ k in
    let (_, _, k) = >>=-eq-ok (Timestamps.make streams) _ k in
    let (closed, capacity, empty) = new_queue packets a in
    started_by-Inv what _ s k (
      begin-Inv packets interleaver record_only closed capacity empty
        (new_interleaver streams interleaver b))

module _ (m : TimeMath) where
  unmoved :
      (s : Session) (accepted taken : List AvPacket)
      → Inv s accepted taken
      → Inv s (accepted ++ []) (taken ++ [])
  unmoved s accepted taken v =
      subst (λ x. Inv s x (taken ++ [])) (sym (append_nil accepted))
        (subst (λ x. Inv s accepted x) (sym (append_nil taken)) v)

  pub Step-Inv :
      (s : Session) (accepted taken : List AvPacket) (polled : Bool) (moves : Moves) (t : Session)
      → Inv s accepted taken
      → Step m s polled moves t
      → Inv t (accepted ++ moves.passed_in) (taken ++ moves.taken_out)
  Step-Inv s accepted taken _ _ t v (offers packet on_poller b _ k) =
      unmoved t accepted taken (offer-Inv m s packet on_poller b t accepted taken v k)
  Step-Inv s accepted taken _ _ t v (hands_over before p after throws _ w k) =
      subst (λ x. Inv t (accepted ++ handed (push s.packets p throws false) p) x)
        (sym (append_nil taken)) (hand_over-Inv s before p after throws t accepted taken v k)
  Step-Inv s accepted taken _ _ t v (enters _ k) =
      unmoved t accepted taken (enter-Inv s t accepted taken v k)
  Step-Inv s accepted taken _ _ t v (polls what _ k) =
      subst (λ x. Inv t x (taken ++ taken_by s.stage s.tasks s)) (sym (append_nil accepted))
        (poll-Inv m s accepted taken v what t k)
  Step-Inv s accepted taken _ _ t v (drains _ e) =
      unmoved t accepted taken
        (subst (λ x. Inv x accepted taken) (sym e) (drain-Inv s accepted taken v))
  Step-Inv s accepted taken _ _ t v (fails x _ e) =
      unmoved t accepted taken
        (subst (λ x. Inv x accepted taken) (sym e) (on_error-Inv s x accepted taken v))
  Step-Inv s accepted taken _ _ t v (releases _ k) =
      unmoved t accepted taken (release-Inv s t accepted taken v k)

  pub Run-Inv :
      (s : Session) (accepted taken : List AvPacket) → Run m s accepted taken → Inv s accepted taken
  Run-Inv s accepted taken (started streams record_only what _ k) =
      start-Inv streams record_only what s k
  Run-Inv s accepted taken (stepped {accepted = old} polled moves _ r step e f) =
      subst (λ x. Inv s x taken) (sym e)
        (subst (λ x. Inv s (old ++ moves.passed_in) x) (sym f)
          (Step-Inv _ _ _ polled moves s (Run-Inv _ _ _ r) step))
