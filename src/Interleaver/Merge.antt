-- ===== src/Interleaver/Merge.antt =====
-- Sessions of the interleaver: the order of all that leaves it.
use mw_streamer.Base.{
  ◌≡◌, refl, sym, subst, ◌⊎◌, inl, inr, true, false, Option, none, some, List, [], ◌∷◌, ◌++◌, All,
  All-append, All-split, All-impl, Pairwise, Pairwise-split, Pairwise-append, AllPairs, ok, err,
  logic_error, invalid_argument, Bool, Bool-cases, arith,
}
use mw_streamer.Ffmpeg.{TimeMath, IsOrder, AvPacket, Packet, StreamInfo}
use mw_streamer.Timestamps
use mw_streamer.Timestamps.Streams.{stream_of, validate-IsChecked, validate_outcome}
use mw_streamer.Interleaver.{
  Track, Interleaver, make, push, pop_ready, accept, went_back, insert, raise,
}
use mw_streamer.Interleaver.Order.{IsTimed, Precedes, NotLater, Precedes-NotLater}
use mw_streamer.Interleaver.Tracks.{track_of, Link}
use mw_streamer.Interleaver.Invariant.{Seen, Reached, Inv, make-Inv}
use mw_streamer.Interleaver.Push.{push-Inv}
use mw_streamer.Interleaver.Drain.{Quiet, Popped, pop_ready-Popped, drain-AllReached, AllReached}

-- A session: pushes that succeed, flushes, and pops without flush while the queue spans at most ten
-- seconds from each of its packets (`Quiet`). `out` is all that has left, in order.
pub data Session (m : TimeMath) (streams : List StreamInfo)
    : Interleaver → List AvPacket → Type 0 where
  started :
      {s : Interleaver} {out : List AvPacket}
      → make streams ≡ ok s
      → out ≡ []
      → Session m streams s out
  pushed :
      {r s : Interleaver} {out : List AvPacket} (packet : Packet)
      → Session m streams r out
      → push m r packet ≡ ok s
      → Session m streams s out
  popped :
      {r s : Interleaver} {before out : List AvPacket} (more : List AvPacket)
      → Session m streams r before
      → Quiet m r.queue
      → pop_ready m r false ≡ ok (more, s)
      → out ≡ before ++ more
      → Session m streams s out
  flushes :
      {r s : Interleaver} {before out : List AvPacket} (more : List AvPacket)
      → Session m streams r before
      → pop_ready m r true ≡ ok (more, s)
      → out ≡ before ++ more
      → Session m streams s out

module _ (m : TimeMath) (laws : IsOrder m) where
  queue_ascends :
      (tracks : List Track) (queue : List AvPacket)
      → All IsTimed queue
      → Pairwise (Precedes m laws tracks) queue
      → Pairwise (NotLater m laws) queue
  queue_ascends tracks [] t s = tt
  queue_ascends tracks (p ∷ ps) t s = (heads p ps t.0 t.1 s.0, queue_ascends tracks ps t.1 s.1)
    where
      heads :
          (p : AvPacket) (ps : List AvPacket)
          → IsTimed p
          → All IsTimed ps
          → All (Precedes m laws tracks p) ps
          → All (NotLater m laws p) ps
      heads p [] hp t s = tt
      heads p (q ∷ ps) hp t s =
          (Precedes-NotLater m laws tracks p q hp t.0 s.0, heads p ps hp t.1 s.1)

  more-AllReached :
      (s : Interleaver) (out more : List AvPacket) (u : Interleaver)
      → (v : Inv m laws s out) → Quiet m s.queue
      → Popped m s false more u
      → All (AllReached m laws s.tracks v.based) more
  more-AllReached s out more u v quiet p = elim p.drained [
    | inl e ↦ subst (All (AllReached m laws s.tracks v.based)) (sym e) tt
    | inr e ↦
        subst (All (AllReached m laws s.tracks v.based)) (sym e)
          (drain-AllReached m laws s.tracks v.based s.queue v.timed v.sorted v.bounded quiet)
  ]

  Popped-Inv :
      (s : Interleaver) (flush : Bool) (out more : List AvPacket) (u : Interleaver)
      → Inv m laws s out
      → (flush ≡ false → Quiet m s.queue)
      → Popped m s flush more u
      → Inv m laws u (out ++ more)
  Popped-Inv s flush out more u v quiet p =
      let timed = All-split IsTimed more u.queue (subst (All IsTimed) (sym p.prefix) v.timed) in
      let order = queue_ascends s.tracks s.queue v.timed v.sorted in
      let halves =
        Pairwise-split (NotLater m laws) more u.queue
          (subst (Pairwise (NotLater m laws)) (sym p.prefix) order) in
      let stay =
        Pairwise-split (Precedes m laws s.tracks) more u.queue
          (subst (Pairwise (Precedes m laws s.tracks)) (sym p.prefix) v.sorted) in
      let seen =
        All-split (Seen m laws s.tracks) more u.queue
          (subst (All (Seen m laws s.tracks)) (sym p.prefix) v.bounded) in
      let cross =
        pairs_split out more u.queue
          (subst (AllPairs (NotLater m laws) out) (sym p.prefix) v.crossing) in
      let back = sym p.tracks_kept in
      record {
        timed = timed.1;
        timed_out = All-append IsTimed out more v.timed_out timed.0;
        sorted = subst (λ t. Pairwise (Precedes m laws t) u.queue) back stay.2;
        bounded = subst (λ t. All (Seen m laws t) u.queue) back seen.1;
        crossing = All-append (λ e. All (NotLater m laws e) u.queue) out more cross.1 halves.1;
        ascending = Pairwise-append (NotLater m laws) out more v.ascending cross.0 halves.0;
        reached = λ open_yet j t at.
            let kept : flush ≡ false = ground (arith, p.flushed_next, open_yet) in
            let before : s.flushed ≡ false = ground (arith, p.flushed_next, open_yet) in
            let at_s : track_of s.tracks j ≡ some t =
              subst (λ x. track_of x j ≡ some t) p.tracks_kept at in
            All-append (Reached m laws t) out more (v.reached before j t at_s) (
              All-impl (λ e r. r j t at_s) more
                (more-AllReached s out more u v (quiet kept)
                  (subst (λ b. Popped m s b more u) kept p)));
        linked = λ j.
            subst (λ x. Link (track_of x j) (stream_of u.validation.streams j)) back
              (subst
                (λ (x : Timestamps.Converter). Link (track_of s.tracks j) (stream_of x.streams j))
                (sym p.validation_kept) (v.linked j));
        based = λ j t at. v.based j t (subst (λ x. track_of x j ≡ some t) p.tracks_kept at);
      }
    where
      pairs_split :
          (xs ys zs : List AvPacket)
          → AllPairs (NotLater m laws) xs (ys ++ zs)
          → AllPairs (NotLater m laws) xs ys × AllPairs (NotLater m laws) xs zs
      pairs_split [] ys zs h = (tt, tt)
      pairs_split (x ∷ xs) ys zs h =
          let (a, b) = All-split (NotLater m laws x) ys zs h.0 in
          let (c, d) = pairs_split xs ys zs h.1 in ((a, c), (b, d))

  -- Every session keeps the invariant.
  pub Session-Inv :
      (streams : List StreamInfo) {s : Interleaver} {out : List AvPacket}
      → Session m streams s out
      → Inv m laws s out
  Session-Inv streams (started {s} h e) = subst (Inv m laws s) (sym e) (make-Inv m laws streams s h)
  Session-Inv streams (pushed {r} {s} {out} packet before h) =
      push-Inv m laws r out packet s (Session-Inv streams before) h
  Session-Inv streams (popped {r} {s} {before} more rest quiet h e) = subst (Inv m laws s) (sym e) (
      Popped-Inv r false before more s (Session-Inv streams rest) (λ _. quiet)
        (pop_ready-Popped m r false more s h))
  Session-Inv streams (flushes {r} {s} {before} more rest h e) = subst (Inv m laws s) (sym e) (
      Popped-Inv r true before more s (Session-Inv streams rest) (λ f. cc)
        (pop_ready-Popped m r true more s h))

  -- In a session of pushes, of flushes, and of pops without flush each made while the queue spans
  -- at most ten seconds from each of its packets, all that has left is in the order of its
  -- moments, and no packet that is queued is earlier than one that has left.
  pub Session-ascends :
      (streams : List StreamInfo) (s : Interleaver) (out : List AvPacket)
      → Session m streams s out
      → Pairwise (NotLater m laws) (out ++ s.queue)
  Session-ascends streams s out h =
      let v = Session-Inv streams h in
      Pairwise-append (NotLater m laws) out s.queue v.ascending v.crossing
        (queue_ascends s.tracks s.queue v.timed v.sorted)

  accept_outcome :
      (s : Interleaver) (p : AvPacket) (t : Track)
      → ((u : Interleaver) × (accept m s p (some t) ≡ ok u))
        ⊎ (accept m s p (some t) ≡ err invalid_argument)
  unfolding accept
  accept_outcome s p t = elim (Bool-cases (went_back t.highest p.dts)) [
    | inl e ↦ inr (rw e)
    | inr e ↦ inl (
      record s {
        queue = insert m s.tracks p s.queue;
        tracks = raise s.tracks p.stream_index p.dts;
      },
      rw e,
    )
  ]

  linked_track :
      (a : Option Track) (b : Option StreamInfo) (st : StreamInfo)
      → Link a b
      → b ≡ some st
      → (t : Track) × (a ≡ some t)
  linked_track none none st h e = cc
  linked_track none (some x) st h e = absurd h
  linked_track (some t) b st h e = (t, refl)

  abbrev pub PushOutcome : Interleaver → Packet → Type 0
  PushOutcome s packet =
      ((s.flushed ≡ true) × (push m s packet ≡ err logic_error))
      ⊎ ((s.flushed ≡ false)
          × (((u : Interleaver) × (push m s packet ≡ ok u))
              ⊎ (push m s packet ≡ err invalid_argument)))

  valid_outcome :
      (s : Interleaver) (out : List AvPacket) (packet : Packet) (p : AvPacket)
      → Inv m laws s out
      → s.flushed ≡ false
      → Timestamps.validate m s.validation packet ≡ ok p
      → ((u : Interleaver) × (push m s packet ≡ ok u)) ⊎ (push m s packet ≡ err invalid_argument)
  unfolding push
  valid_outcome s out packet p v open_yet e =
      let c = (validate-IsChecked m s.validation packet p e).1 in
      let (t, at) = linked_track _ _ c.stream (v.linked p.stream_index) c.found in
      elim (accept_outcome s p t) [
        | inl (u, k) ↦ inl (u, simp (open_yet, e, at) k)
        | inr k ↦ inr (simp (open_yet, e, at) k)
      ]

  invalid_push :
      (s : Interleaver) (packet : Packet)
      → s.flushed ≡ false
      → Timestamps.validate m s.validation packet ≡ err invalid_argument
      → push m s packet ≡ err invalid_argument
  unfolding push
  invalid_push s packet f e = rw (f, e)

  flushed_push :
      (s : Interleaver) (packet : Packet) → s.flushed ≡ true → push m s packet ≡ err logic_error
  unfolding push
  flushed_push s packet f = rw f

  Inv-PushOutcome :
      (s : Interleaver) (out : List AvPacket) (packet : Packet)
      → Inv m laws s out
      → PushOutcome s packet
  Inv-PushOutcome s out packet v = elim (Bool-cases s.flushed) [
    | inl f ↦ inl (f, flushed_push s packet f)
    | inr f ↦ elim (validate_outcome m s.validation packet) [
      | inl (p, e) ↦ inr (f, valid_outcome s out packet p v f e)
      | inr e ↦ inr (f, inr (invalid_push s packet f e))
    ]
  ]

  -- In a session of pushes, of flushes, and of pops without flush each made while the queue spans
  -- at most ten seconds from each of its packets, `Push` throws logic_error exactly where the interleaver was flushed; otherwise it
  -- succeeds or throws invalid_argument. It never uses a track that its search did not find.
  pub push_outcome :
      (streams : List StreamInfo) (s : Interleaver) (out : List AvPacket) (packet : Packet)
      → Session m streams s out
      → PushOutcome s packet
  push_outcome streams s out packet h = Inv-PushOutcome s out packet (Session-Inv streams h)
