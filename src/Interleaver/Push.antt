-- ===== src/Interleaver/Push.antt =====
-- `Push`, with the invariant and with the packets of one track.
use mathlib.Core.Option
use mathlib.Core.Option.{some-injective}
use mw_streamer.Base.{
  ◌≡◌, refl, sym, ap, subst, ◌∙◌, inl, inr, false, Option, none, some, List, [], ◌∷◌, ◌++◌, ℤ, pos,
  ◌≤ℤ◌, eqb_ℤ, All, All-impl, All-zip, Pairwise-impl, arith, eqb_ℤ_cases, if◌then◌else◌, ok,
}
use mw_streamer.Ffmpeg.{TimeMath, IsOrder, AvPacket, Packet, IsTimeBase, StreamInfo}
use mw_streamer.Timestamps.Streams.{stream_of}
use mw_streamer.Interleaver.{Track, Interleaver, insert, of_track, raise, push, before}
use mw_streamer.Interleaver.Order.{IsTimed, NotLater}
use mw_streamer.Interleaver.Tracks.{
  track_of, track_of-raise, track_order-raise, raised, Link, track_of-index,
}
use mw_streamer.Interleaver.Insert.{select, insert-All, insert-AllPairs, insert-Pairwise}
use mw_streamer.Interleaver.Invariant.{Seen, Reached, Inv, Pushed, push-Pushed, at_track}
use mw_streamer.Interleaver.Arrival.{
  item-IsTimed, item_base, track_based, on_track, le_item, left-NotLater, pushed-select,
}

raised_base : (i d : ℤ) (t : Track) → (raised i d t).time_base ≡ t.time_base
raised_base i d t = ground arith

raised_own : (i d : ℤ) (t : Track) → t.index ≡ i → (raised i d t).highest ≡ some d
raised_own i d t e = ground (arith, eqb_ℤ_cases t.index i)

raised_other : (i d : ℤ) (t : Track) → eqb_ℤ t.index i ≡ false → raised i d t ≡ t
raised_other i d t e = rw e

raised-Link :
    (i d : ℤ) (a : Option Track) (b : Option StreamInfo)
    → Link a b
    → Link (Option.map (raised i d) a) b
raised-Link i d none none h = tt
raised-Link i d none (some st) h = absurd h
raised-Link i d (some t) none h = absurd h
raised-Link i d (some t) (some st) h = raised_base i d t ∙ h

raised_inv :
    (i d : ℤ) (o : Option Track) (t : Track)
    → Option.map (raised i d) o ≡ some t
    → (old : Track) × (o ≡ some old) × (t ≡ raised i d old)
raised_inv i d none t e = cc
raised_inv i d (some old) t e = (old, refl, sym (some-injective _ _ e))

before-raise :
    (m : TimeMath) (tracks : List Track) (i d : ℤ) (a b : AvPacket)
    → before m (raise tracks i d) a b ≡ before m tracks a b
unfolding before
before-raise m tracks i d a b = simp track_order-raise

module _ (m : TimeMath) (laws : IsOrder m) (s : Interleaver) (out : List AvPacket)
    (v : Inv m laws s out) (packet : Packet) (u : Interleaver)
    (pushed : Pushed m laws s packet u) where
  open pushed use {item, track}

  abbrev after : List Track
  after = raise s.tracks item.stream_index item.dts

  after_found :
      (j : ℤ) (t : Track)
      → track_of s.tracks j ≡ some t
      → track_of after j ≡ some (raised item.stream_index item.dts t)
  after_found j t e = track_of-raise s.tracks item.stream_index item.dts j ∙ rw e

  -- A queued packet is still below what its track has seen.
  Seen-after : (q : AvPacket) → Seen m laws s.tracks q → Seen m laws after q
  Seen-after q seen = elim (eqb_ℤ_cases seen.track.index item.stream_index) [
    | inl (e, same) ↦
        let (h, is, low, base) =
          on_track m laws s out v packet u pushed q
            (sym (track_of-index s.tracks q.stream_index seen.track seen.found) ∙ same) seen in
        record {
          track = raised item.stream_index item.dts seen.track;
          highest = item.dts;
          found = after_found q.stream_index seen.track seen.found;
          seen = rw e;
          below = le_item m laws s out v packet u pushed q h is low;
          same_base =
              subst (λ b. m.cmp_q q.time_base b ≡ pos 0) (sym (raised_base _ _ seen.track))
                seen.same_base;
        }
    | inr (e, other) ↦ record {
      track = raised item.stream_index item.dts seen.track;
      highest = seen.highest;
      found = after_found q.stream_index seen.track seen.found;
      seen = rw e seen.seen;
      below = seen.below;
      same_base =
          subst (λ b. m.cmp_q q.time_base b ≡ pos 0) (sym (raised_base _ _ seen.track))
            seen.same_base;
    }
  ]

  item-Seen : Seen m laws after item
  item-Seen = record {
    track = raised item.stream_index item.dts track;
    highest = item.dts;
    found = after_found item.stream_index track pushed.found;
    seen =
        raised_own item.stream_index item.dts track
          (track_of-index s.tracks item.stream_index track pushed.found);
    below = omega arith;
    same_base =
        subst (λ b. m.cmp_q item.time_base b ≡ pos 0) (sym (raised_base _ _ track))
          (item_base m laws s out v packet u pushed);
  }

  old_track :
      (j : ℤ) (t : Track)
      → track_of after j ≡ some t
      → (old : Track) × (track_of s.tracks j ≡ some old)
        × (t ≡ raised item.stream_index item.dts old)
  old_track j t e =
      raised_inv item.stream_index item.dts (track_of s.tracks j) t
        (sym (track_of-raise s.tracks item.stream_index item.dts j) ∙ e)

  own-Reached :
      (e : AvPacket)
      → IsTimed e
      → NotLater m laws e item
      → Reached m laws (raised item.stream_index item.dts track) e
  own-Reached e he h =
      let base = raised_base item.stream_index item.dts track in
      let hi = item-IsTimed m laws s out v packet u pushed in
      let ht = track_based m laws s out v packet u pushed in
      record {
        highest = item.dts;
        seen =
            raised_own item.stream_index item.dts track
              (track_of-index s.tracks item.stream_index track pushed.found);
        reached =
            subst (λ b. m.compare_ts e.dts e.time_base item.dts b ≤ℤ pos 0) (sym base)
              (laws.compare_trans e.dts e.time_base item.dts item.time_base item.dts track.time_base
                he hi ht h
                ((at_track m laws item track item.dts hi ht
                    (item_base m laws s out v packet u pushed)).1
                  (omega arith)));
      }

  Reached-after : (j : ℤ) (t : Track) → track_of after j ≡ some t → All (Reached m laws t) out
  Reached-after j t e =
      let (old, at, is) = old_track j t e in
      subst (λ x. All (Reached m laws x) out) (sym is)
        (elim (eqb_ℤ_cases old.index item.stream_index) [
          | inl (h, same) ↦
              let one : track ≡ old = some-injective _ _ (
                sym pushed.found
                ∙ (ap (track_of s.tracks) (sym same ∙ track_of-index s.tracks j old at) ∙ at)) in
              subst (λ x. All (Reached m laws (raised item.stream_index item.dts x)) out) one
                (All-impl (λ e (x : IsTimed e × NotLater m laws e item). own-Reached e x.0 x.1) out
                  (All-zip IsTimed (λ e. NotLater m laws e item) out v.timed_out
                    (left-NotLater m laws s out v packet u pushed)))
          | inr (h, _) ↦
              subst (λ x. All (Reached m laws x) out) (sym (raised_other _ _ old h))
                (v.reached pushed.open_yet j old at)
        ])

  based-after : (j : ℤ) (t : Track) → track_of after j ≡ some t → IsTimeBase t.time_base
  based-after j t e =
      let (old, at, is) = old_track j t e in
      subst (λ (x : Track). IsTimeBase x.time_base) (sym is)
        (subst IsTimeBase (sym (raised_base _ _ old)) (v.based j old at))

  next-Inv : Inv m laws (record s { queue = insert m s.tracks item s.queue; tracks = after }) out
  next-Inv = record {
    timed =
        insert-All m IsTimed s.tracks item s.queue (item-IsTimed m laws s out v packet u pushed)
          v.timed;
    timed_out = v.timed_out;
    sorted =
        Pairwise-impl (λ a b h. before-raise m s.tracks item.stream_index item.dts b a ∙ h) _
          (insert-Pairwise m laws s.tracks item s.queue
            (item-IsTimed m laws s out v packet u pushed) v.timed v.sorted);
    bounded =
        insert-All m (Seen m laws after) s.tracks item s.queue item-Seen
          (All-impl Seen-after s.queue v.bounded);
    crossing =
        insert-AllPairs m (NotLater m laws) s.tracks item out s.queue
          (left-NotLater m laws s out v packet u pushed) v.crossing;
    ascending = v.ascending;
    reached = λ _. Reached-after;
    linked = λ j.
        subst (λ o. Link o (stream_of s.validation.streams j))
          (sym (track_of-raise s.tracks item.stream_index item.dts j))
          (raised-Link item.stream_index item.dts (track_of s.tracks j) _ (v.linked j));
    based = based-after;
  }

-- A push that succeeds keeps the invariant.
pub push-Inv :
    (m : TimeMath) (laws : IsOrder m) (s : Interleaver) (out : List AvPacket) (packet : Packet)
    (u : Interleaver)
    → Inv m laws s out
    → push m s packet ≡ ok u
    → Inv m laws u out
push-Inv m laws s out packet u v h =
    let pushed = push-Pushed m laws s packet u h in
    subst (λ x. Inv m laws x out) (sym pushed.result) (next-Inv m laws s out v packet u pushed)

-- A push puts the packet behind all queued packets of its track, and leaves the queued packets of
-- each other track as they are.
pub push-select :
    (m : TimeMath) (laws : IsOrder m) (s : Interleaver) (out : List AvPacket) (item : AvPacket)
    (u : Interleaver)
    → Inv m laws s out
    → push m s (some item) ≡ ok u
    → (index : ℤ)
    → select index u.queue ≡ select index s.queue ++ (if of_track index item then item ∷ [] else [])
push-select m laws s out item u v h index =
    let pushed = push-Pushed m laws s (some item) u h in
    subst
      (λ p.
        select index u.queue ≡ select index s.queue ++ (if of_track index p then p ∷ [] else []))
      (sym (some-injective _ _ pushed.given))
      (pushed-select m laws s out v (some item) u pushed index)
