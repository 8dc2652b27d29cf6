-- ===== src/Interleaver/Drain.antt =====
-- `PopReady`: what it takes, and where it stops.
use mathlib.Core.Option.{some-injective}
use mw_streamer.Base.{
  ◌≡◌, refl, sym, ap, subst, ◌∙◌, ◌⊎◌, inl, inr, Bool, true, false, not, ◌||◌, ◌&&◌, some, List, [],
  ◌∷◌, ◌++◌, ℤ, pos_part, neg_part, int_laws, All, any-All, all, Bool-cases, arith, Pairwise,
  eqb_ℤ_cases, ok, >>=-eq-ok, throw_if, runtime_error,
}
use mw_streamer.Ffmpeg.{TimeMath, IsOrder, AvPacket, IsTimeBase}
use mw_streamer.Interleaver.{
  Track, Interleaver, of_track, all_tracks_buffered, all_tracks_seen, exceeds_delta, drain, release,
  pop_ready,
}
use mw_streamer.Interleaver.Order.{IsTimed, Precedes, NotLater, Precedes-NotLater}
use mw_streamer.Interleaver.Tracks.{track_of, track_of-index}
use mw_streamer.Interleaver.Invariant.{Seen, Reached, at_track}

module _ (m : TimeMath) (tracks : List Track) where
  abbrev may_leave : Bool → List AvPacket → Bool
  may_leave flush queue = flush || (all_tracks_buffered tracks queue || exceeds_delta m queue)

  pub drain_split :
      (flush : Bool) (queue : List AvPacket)
      → (drain m tracks flush queue).0 ++ (drain m tracks flush queue).1 ≡ queue
  unfolding drain
  drain_split flush [] = refl
  drain_split flush (p ∷ ps) = elim (Bool-cases (may_leave flush (p ∷ ps))) [
    | inl e ↦ rw e (ap (◌∷◌ p) (drain_split flush ps))
    | inr e ↦ rw e
  ]

  pub drain_all : (queue : List AvPacket) → drain m tracks true queue ≡ (queue, [])
  unfolding drain
  drain_all [] = refl
  drain_all (p ∷ ps) = rw (drain_all ps)

  -- The rest is empty, or it may not leave.
  abbrev pub Stays : List AvPacket → Type 0
  Stays rest =
      (rest ≡ []) ⊎ ((all_tracks_buffered tracks rest ≡ false) × (exceeds_delta m rest ≡ false))

  pub drain-Stays : (queue : List AvPacket) → Stays (drain m tracks false queue).1
  unfolding drain
  drain-Stays [] = inl refl
  drain-Stays (p ∷ ps) = elim (Bool-cases (may_leave false (p ∷ ps))) [
    | inl e ↦ rw e (drain-Stays ps)
    | inr e ↦ rw e (inr (ground arith))
  ]

  -- Each packet that leaves found every track with a packet in the queue, or the ten seconds
  -- exceeded, when it was at the front.
  abbrev pub Leaves : List AvPacket → List AvPacket → Type 0
  Leaves [] rest = Unit {0}
  Leaves (p ∷ ps) rest =
      ((all_tracks_buffered tracks (p ∷ ps ++ rest) ≡ true)
        ⊎ (exceeds_delta m (p ∷ ps ++ rest) ≡ true))
      × Leaves ps rest

  pub drain-Leaves :
      (queue : List AvPacket) → Leaves (drain m tracks false queue).0 (drain m tracks false queue).1
  unfolding drain
  drain-Leaves [] = tt
  drain-Leaves (p ∷ ps) = elim (Bool-cases (may_leave false (p ∷ ps))) [
    | inl e ↦ rw e (rw (drain_split false ps) (ground arith), drain-Leaves ps)
    | inr e ↦ rw e tt
  ]

-- At no point of the queue does the spread of what is queued from there exceed ten seconds.
abbrev pub Quiet : TimeMath → List AvPacket → Type 0
Quiet m [] = Unit {0}
Quiet m (p ∷ ps) = (exceeds_delta m (p ∷ ps) ≡ false) × Quiet m ps

all-track :
    (f : Track → Bool) (tracks : List Track) (j : ℤ) (t : Track)
    → all f tracks ≡ true
    → track_of tracks j ≡ some t
    → f t ≡ true
all-track f [] j t a e = cc
all-track f (u ∷ ts) j t a e = elim (eqb_ℤ_cases u.index j) [
  | inl (h, _) ↦ subst (λ x. f x ≡ true) (some-injective u t (rw h at e)) (ground arith)
  | inr (h, _) ↦ all-track f ts j t (ground arith) (rw h at e)
]

module _ (m : TimeMath) (laws : IsOrder m) (tracks : List Track)
    (based : (j : ℤ) (t : Track) → track_of tracks j ≡ some t → IsTimeBase t.time_base) where
  -- Every track that is known has reached the moment of the packet.
  abbrev pub AllReached : AvPacket → Type 0
  AllReached e = (j : ℤ) (t : Track) → track_of tracks j ≡ some t → Reached m laws t e

  record Ahead (f q : AvPacket) : Type 0 where
    timed : IsTimed q
    after : NotLater m laws f q
    seen : Seen m laws tracks q

  seen-Reached :
      (f q : AvPacket) (j : ℤ) (t : Track)
      → IsTimed f
      → track_of tracks j ≡ some t
      → of_track t.index q ≡ true
      → Ahead f q
      → Reached m laws t f
  seen-Reached f q j t hf at own a =
      let same : q.stream_index ≡ t.index = ground (arith, eqb_ℤ_cases q.stream_index t.index) in
      let one : a.seen.track ≡ t =
        some-injective _ _
          (sym a.seen.found ∙ (ap (track_of tracks) (same ∙ track_of-index tracks j t at) ∙ at)) in
      let here = based q.stream_index a.seen.track a.seen.found in
      subst (λ x. Reached m laws x f) one
        (record {
          highest = a.seen.highest;
          seen = a.seen.seen;
          reached =
              laws.compare_trans f.dts f.time_base q.dts q.time_base a.seen.highest
                a.seen.track.time_base hf a.timed here a.after
                ((at_track m laws q a.seen.track a.seen.highest a.timed here a.seen.same_base).1
                  a.seen.below);
        })

  front-AllReached :
      (f : AvPacket) (ps : List AvPacket)
      → IsTimed f
      → all_tracks_buffered tracks (f ∷ ps) ≡ true
      → All (Ahead f) (f ∷ ps)
      → AllReached f
  unfolding all_tracks_buffered
  front-AllReached f ps hf b a j t at =
      let (q, own, ahead) =
        any-All (Ahead f) (of_track t.index) (f ∷ ps) a (all-track _ tracks j t b at) in
      seen-Reached f q j t hf at own ahead

  Ahead-All :
      (f : AvPacket) (ps : List AvPacket)
      → IsTimed f
      → All IsTimed ps
      → All (Precedes m laws tracks f) ps
      → All (Seen m laws tracks) ps
      → All (Ahead f) ps
  Ahead-All f [] hf t s b = tt
  Ahead-All f (q ∷ ps) hf t s b = (
    record { timed = t.0; after = Precedes-NotLater m laws tracks f q hf t.0 s.0; seen = b.0 },
    Ahead-All f ps hf t.1 s.1 b.1,
  )

  self-NotLater : (f : AvPacket) → IsTimed f → NotLater m laws f f
  self-NotLater f hf =
      let e = laws.compare_swap f.dts f.time_base f.dts f.time_base hf hf in
      omega (int_laws, ap pos_part e, ap neg_part e)

  -- What leaves while nothing exceeds the ten seconds, every track has reached.
  pub drain-AllReached :
      (queue : List AvPacket)
      → All IsTimed queue
      → Pairwise (Precedes m laws tracks) queue
      → All (Seen m laws tracks) queue
      → Quiet m queue
      → All AllReached (drain m tracks false queue).0
  unfolding drain
  drain-AllReached [] t s b q = tt
  drain-AllReached (p ∷ ps) t s b q = elim (Bool-cases (all_tracks_buffered tracks (p ∷ ps))) [
    | inl e ↦ rw e (
      front-AllReached p ps t.0 e (
        record { timed = t.0; after = self-NotLater p t.0; seen = b.0 },
        Ahead-All p ps t.0 t.1 s.0 b.1,
      ),
      drain-AllReached ps t.1 s.1 b.1 q.1,
    )
    | inr e ↦ rw (e, q.0) tt
  ]

-- What a call of `PopReady` that does not throw does.
pub record Popped (m : TimeMath) (s : Interleaver) (flush : Bool) (out : List AvPacket)
    (u : Interleaver) : Type 0 where
  pub prefix : out ++ u.queue ≡ s.queue
  pub tracks_kept : u.tracks ≡ s.tracks
  pub validation_kept : u.validation ≡ s.validation
  pub flushed_next : u.flushed ≡ s.flushed || flush
  pub started : u.initialized ≡ s.initialized || (flush || all_tracks_seen s.tracks)
  pub waits : u.initialized ≡ false → out ≡ []
  pub flushes : flush ≡ true → u.queue ≡ []
  pub stops : flush ≡ false → u.initialized ≡ true → Stays m s.tracks u.queue
  pub each_may : flush ≡ false → Leaves m s.tracks out u.queue
  pub drained : (out ≡ []) ⊎ (out ≡ (drain m s.tracks flush s.queue).0)

module _ (m : TimeMath) (s : Interleaver) (flush : Bool) where
  release-Popped :
      (started : Bool)
      → started ≡ s.initialized || (flush || all_tracks_seen s.tracks)
      → let r =
          release m
            (record s { flushed = s.flushed || flush; initialized = started })
            flush
            started in
        Popped m s flush r.0 r.1
  release-Popped false e = record {
    prefix = refl;
    tracks_kept = refl;
    validation_kept = refl;
    flushed_next = refl;
    started = e;
    waits = λ _. refl;
    flushes = λ f. absurd (ground arith);
    stops = λ f i. cc;
    each_may = λ f. tt;
    drained = inl refl;
  }
  release-Popped true e = record {
    prefix = drain_split m s.tracks flush s.queue;
    tracks_kept = refl;
    validation_kept = refl;
    flushed_next = refl;
    started = e;
    waits = λ i. cc;
    flushes = λ f. rw (f, drain_all m s.tracks s.queue);
    stops = λ f i. rw f (drain-Stays m s.tracks s.queue);
    each_may = λ f. rw f (drain-Leaves m s.tracks s.queue);
    drained = inr refl;
  }

  -- A pop that does not throw takes a front part of the queue, and keeps the tracks. Nothing leaves
  -- before the start, which is a flush or the first pop once every track has been seen; a flush
  -- empties the queue. Without flush, each packet that leaves had, when it was at the front, every
  -- track in the queue from it on, or more than ten seconds from it to the last; and after the
  -- start the packet that stays at the front has neither.
  pub pop_ready-Popped :
      (out : List AvPacket) (u : Interleaver)
      → pop_ready m s flush ≡ ok (out, u)
      → Popped m s flush out u
  unfolding pop_ready
  pop_ready-Popped out u h =
      let (_, _, k) =
        >>=-eq-ok
          (throw_if
            (not flush
              && (not s.initialized && (not (all_tracks_seen s.tracks) && exceeds_delta m s.queue)))
            runtime_error)
          _ h in
      subst (λ (r : List AvPacket × Interleaver). Popped m s flush r.0 r.1) (cc k)
        (release-Popped (s.initialized || (flush || all_tracks_seen s.tracks)) refl)
