-- ===== src/Interleaver/Invariant.antt =====
-- The invariant of the interleaver, over the packets `out` that have left it, and `Push`.
use mathlib.Core.Option.{some-injective}
use mw_streamer.Base.{
  ◌≡◌, refl, sym, ap, subst, inl, inr, false, Option, none, some, List, [], ◌≤◌, ℤ, pos, ◌≤ℤ◌,
  eqb_ℤ, All, Pairwise, AllPairs, find?-All, arith, int_laws, ltb_ℤ_cases, ok, >>=-eq-ok, throw_if,
  logic_error,
}
use mw_streamer.Ffmpeg.{TimeMath, IsOrder, AvPacket, Packet, StreamInfo, IsTimeBase}
use mw_streamer.Timestamps
use mw_streamer.Timestamps.Streams.{stream_of, IsChecked, validate-IsChecked, make_lem}
use mw_streamer.Interleaver.{
  Track, Interleaver, make, make_tracks, insert, track_order, raise, accept, push, went_back,
  compare,
}
use mw_streamer.Interleaver.Order.{IsTimed, Precedes, NotLater, Precedes-of}
use mw_streamer.Interleaver.Tracks.{track_of, Link, make_tracks-Link}

module _ (m : TimeMath) (laws : IsOrder m) where
  -- The packet's track has seen a DTS at or above the packet's.
  pub record Seen (tracks : List Track) (q : AvPacket) : Type 0 where
    pub track : Track
    pub highest : ℤ
    pub found : track_of tracks q.stream_index ≡ some track
    pub seen : track.highest ≡ some highest
    pub below : q.dts ≤ℤ highest
    pub same_base : m.cmp_q q.time_base track.time_base ≡ pos 0

  -- The track has reached the moment of `e`.
  pub record Reached (t : Track) (e : AvPacket) : Type 0 where
    pub highest : ℤ
    pub seen : t.highest ≡ some highest
    pub reached : m.compare_ts e.dts e.time_base highest t.time_base ≤ℤ pos 0

  pub record Inv (s : Interleaver) (out : List AvPacket) : Type 0 where
    pub timed : All IsTimed s.queue
    pub timed_out : All IsTimed out
    pub sorted : Pairwise (Precedes m laws s.tracks) s.queue
    pub bounded : All (Seen s.tracks) s.queue
    pub crossing : AllPairs (NotLater m laws) out s.queue
    pub ascending : Pairwise (NotLater m laws) out
    pub reached :
        s.flushed ≡ false → (j : ℤ) (t : Track) → track_of s.tracks j ≡ some t → All (Reached t) out
    pub linked : (j : ℤ) → Link (track_of s.tracks j) (stream_of s.validation.streams j)
    pub based : (j : ℤ) (t : Track) → track_of s.tracks j ≡ some t → IsTimeBase t.time_base

  pub linked_base :
      (a : Option Track) (b : Option StreamInfo) (t : Track)
      → Link a b
      → a ≡ some t
      → (s : StreamInfo) × (b ≡ some s) × (t.time_base ≡ s.time_base)
  linked_base none none t h e = cc
  linked_base none (some s) t h e = absurd h
  linked_base (some u) none t h e = absurd h
  linked_base (some u) (some s) t h e =
      (s, refl, subst (λ (x : Track). x.time_base ≡ s.time_base) (some-injective u t e) h)

  abbrev fresh : Timestamps.Converter → List Track → Interleaver
  fresh c ts = record {
    validation = c;
    tracks = ts;
    queue = [];
    initialized = false;
    flushed = false;
  }

  fresh-Inv :
      (streams : List StreamInfo) (c : Timestamps.Converter) (ts : List Track)
      → Timestamps.make streams ≡ ok c
      → make_tracks [] streams ≡ ok ts
      → Inv (fresh c ts) []
  fresh-Inv streams c ts h k =
      let (built, bases) = make_lem streams c h in
      let link = λ (j : ℤ). make_tracks-Link [] streams ts j k refl in
      let held = ap (λ (x : Timestamps.Converter). x.streams) built in
      record {
        timed = tt;
        timed_out = tt;
        sorted = tt;
        bounded = tt;
        crossing = tt;
        ascending = tt;
        reached = λ _ j t e. tt;
        linked = λ j. subst (λ x. Link (track_of ts j) (stream_of x j)) (sym held) (link j);
        based = λ j t e.
            let (s, at, same) = linked_base (track_of ts j) (stream_of streams j) t (link j) e in
            subst IsTimeBase (sym same) (
              find?-All (λ (x : StreamInfo). IsTimeBase x.time_base) (λ x. eqb_ℤ x.stream_index j)
                streams s bases at);
      }

  -- A new interleaver satisfies the invariant.
  pub make-Inv : (streams : List StreamInfo) (s : Interleaver) → make streams ≡ ok s → Inv s []
  unfolding make
  make-Inv streams s h =
      let (c, built, more) = >>=-eq-ok (Timestamps.make streams) _ h in
      let (ts, tracked, made) = >>=-eq-ok (make_tracks [] streams) _ more in
      subst (λ x. Inv x []) (cc made) (fresh-Inv streams c ts built tracked)

  -- Packets that are not later, on tracks in order, are in order.
  pub Precedes-within :
      (tracks : List Track) (a b : AvPacket)
      → IsTimed a
      → IsTimed b
      → NotLater m laws a b
      → track_order tracks a.stream_index ≤ track_order tracks b.stream_index
      → Precedes m laws tracks a b
  Precedes-within tracks a b ha hb h k =
      Precedes-of m laws tracks a b ha hb (elim (ltb_ℤ_cases (compare m a b) (pos 0)) [
        | inl (_, earlier) ↦ inl earlier
        | inr (_, late) ↦ inr (omega int_laws, k)
      ])

  -- A packet with a base equal to its track's is at the moment of its DTS in the track's base.
  pub at_track :
      (p : AvPacket) (t : Track) (d : ℤ)
      → IsTimed p
      → IsTimeBase t.time_base
      → m.cmp_q p.time_base t.time_base ≡ pos 0
      → ((d ≤ℤ p.dts) → m.compare_ts d t.time_base p.dts p.time_base ≤ℤ pos 0)
        × ((p.dts ≤ℤ d) → m.compare_ts p.dts p.time_base d t.time_base ≤ℤ pos 0)
  at_track p t d hp ht e = (
    λ h. (laws.compare_mono d p.dts p.time_base t.time_base hp ht e h).1,
    λ h. (laws.compare_mono p.dts d p.time_base t.time_base hp ht e h).0,
  )

  pub record Pushed (s : Interleaver) (packet : Packet) (u : Interleaver) : Type 0 where
    pub item : AvPacket
    pub given : packet ≡ some item
    pub checked : IsChecked m s.validation item
    pub track : Track
    pub found : track_of s.tracks item.stream_index ≡ some track
    pub ahead : went_back track.highest item.dts ≡ false
    pub open_yet : s.flushed ≡ false
    pub result : u ≡ record s {
      queue = insert m s.tracks item s.queue;
      tracks = raise s.tracks item.stream_index item.dts;
    }

  accepted :
      (s : Interleaver) (p : AvPacket) (o : Option Track) (u : Interleaver)
      → accept m s p o ≡ ok u
      → (t : Track) × (o ≡ some t)
        × (went_back t.highest p.dts ≡ false)
        × (u ≡ record s {
          queue = insert m s.tracks p s.queue;
          tracks = raise s.tracks p.stream_index p.dts;
        })
  unfolding accept
  accepted s p none u h = cc
  accepted s p (some t) u h = (t, refl, ground arith, ground arith)

  -- What a push that succeeds has checked, and what it does.
  pub push-Pushed :
      (s : Interleaver) (packet : Packet) (u : Interleaver)
      → push m s packet ≡ ok u
      → Pushed s packet u
  unfolding push
  push-Pushed s packet u h =
      let (_, opened, more) = >>=-eq-ok (throw_if s.flushed logic_error) _ h in
      let (p, valid, rest) = >>=-eq-ok (Timestamps.validate m s.validation packet) _ more in
      let (given, checked) = validate-IsChecked m s.validation packet p valid in
      let (t, found, ahead, result) = accepted s p (track_of s.tracks p.stream_index) u rest in
      record {
        item = p;
        given = given;
        checked = checked;
        track = t;
        found = found;
        ahead = ahead;
        open_yet = ground arith;
        result = result;
      }
