-- ===== src/Interleaver/Arrival.antt =====
-- `Push`: the lemmas on a pushed packet, the queue that it joins and the packets that have left.
use mathlib.Core.Option.{some-injective}
use mw_streamer.Base.{
  ◌≡◌, sym, ap, subst, ◌∙◌, false, some, List, [], ◌∷◌, ◌++◌, ◌≤◌, ℤ, pos, ◌≤ℤ◌, All, All-impl,
  All-zip, arith, eqb_ℤ_cases, ltb_ℤ_cases, if◌then◌else◌,
}
use mw_streamer.Ffmpeg.{TimeMath, IsOrder, AvPacket, Packet, IsTimeBase}
use mw_streamer.Interleaver.{Track, Interleaver, of_track, track_order, went_back}
use mw_streamer.Interleaver.Order.{IsTimed, NotLater}
use mw_streamer.Interleaver.Tracks.{track_of}
use mw_streamer.Interleaver.Insert.{select, select-insert, Behind}
use mw_streamer.Interleaver.Invariant.{
  Seen, Reached, Inv, Pushed, Precedes-within, at_track, linked_base,
}

not_back : (highest dts : ℤ) → went_back (some highest) dts ≡ false → highest ≤ℤ dts
not_back highest dts h = ground (arith, ltb_ℤ_cases dts highest)

module _ (m : TimeMath) (laws : IsOrder m) (s : Interleaver) (out : List AvPacket)
    (v : Inv m laws s out) (packet : Packet) (u : Interleaver)
    (pushed : Pushed m laws s packet u) where
  open pushed use {item, track}

  pub item-IsTimed : IsTimed item
  item-IsTimed = pushed.checked.base

  -- The packet has its track's time base, written as some fraction.
  pub item_base : m.cmp_q item.time_base track.time_base ≡ pos 0
  item_base =
      let (st, at, same) = linked_base m laws _ _ track (v.linked item.stream_index) pushed.found in
      let stream_same : pushed.checked.stream ≡ st =
        some-injective _ _ (sym pushed.checked.found ∙ at) in
      subst (λ q. m.cmp_q item.time_base q ≡ pos 0) (sym same)
        (subst (λ x. m.cmp_q item.time_base x.time_base ≡ pos 0) stream_same
          pushed.checked.same_base)

  pub track_based : IsTimeBase track.time_base
  track_based = v.based item.stream_index track pushed.found

  reached-NotLater : (e : AvPacket) → IsTimed e → Reached m laws track e → NotLater m laws e item
  reached-NotLater e he r =
      let low =
        not_back r.highest item.dts
          (subst (λ o. went_back o item.dts ≡ false) r.seen pushed.ahead) in
      laws.compare_trans e.dts e.time_base r.highest track.time_base item.dts item.time_base he
        track_based item-IsTimed r.reached
        ((at_track m laws item track r.highest item-IsTimed track_based item_base).0 low)

  -- No packet that has left is later than the new one.
  pub left-NotLater : All (λ e. NotLater m laws e item) out
  left-NotLater =
      All-impl (λ e (x : IsTimed e × Reached m laws track e). reached-NotLater e x.0 x.1) out
        (All-zip IsTimed (Reached m laws track) out v.timed_out
          (v.reached pushed.open_yet item.stream_index track pushed.found))

  -- What was seen of a queued packet of the item's track.
  pub on_track :
      (q : AvPacket)
      → q.stream_index ≡ item.stream_index
      → Seen m laws s.tracks q
      → (h : ℤ) × (track.highest ≡ some h)
        × (q.dts ≤ℤ h)
        × (m.cmp_q q.time_base track.time_base ≡ pos 0)
  on_track q same seen =
      let one : seen.track ≡ track =
        some-injective _ _ (sym seen.found ∙ (ap (track_of s.tracks) same ∙ pushed.found)) in
      subst
        (λ (t : Track).
          (h : ℤ) × (t.highest ≡ some h) × (q.dts ≤ℤ h) × (m.cmp_q q.time_base t.time_base ≡ pos 0))
        one (seen.highest, seen.seen, seen.below, seen.same_base)

  pub le_item : (q : AvPacket) (h : ℤ) → track.highest ≡ some h → q.dts ≤ℤ h → q.dts ≤ℤ item.dts
  le_item q h is low =
      let next = not_back h item.dts (subst (λ o. went_back o item.dts ≡ false) is pushed.ahead) in
      omega arith

  Seen-Behind : (q : AvPacket) → IsTimed q → Seen m laws s.tracks q → Behind m laws s.tracks item q
  Seen-Behind q hq seen own =
      let same : q.stream_index ≡ item.stream_index =
        ground (arith, eqb_ℤ_cases q.stream_index item.stream_index) in
      let (h, is, low, base) = on_track q same seen in
      let le = le_item q h is low in
      Precedes-within m laws s.tracks q item hq item-IsTimed
        (laws.compare_trans q.dts q.time_base item.dts track.time_base item.dts item.time_base hq
          track_based item-IsTimed ((at_track m laws q track item.dts hq track_based base).1 le)
          ((at_track m laws item track item.dts item-IsTimed track_based item_base).0
            (omega arith)))
        (subst (λ i. track_order s.tracks i ≤ track_order s.tracks item.stream_index) (sym same)
          (omega arith))

  queued-Behind : All (Behind m laws s.tracks item) s.queue
  queued-Behind =
      All-impl (λ q (x : IsTimed q × Seen m laws s.tracks q). Seen-Behind q x.0 x.1) s.queue
        (All-zip IsTimed (Seen m laws s.tracks) s.queue v.timed v.bounded)

  -- A push puts the packet behind all queued packets of its track, and leaves the queued packets
  -- of each other track as they are.
  pub pushed-select :
      (index : ℤ)
      → select index u.queue
        ≡ select index s.queue ++ (if of_track index item then item ∷ [] else [])
  pushed-select index =
      subst
        (λ (x : Interleaver).
          select index x.queue
          ≡ select index s.queue ++ (if of_track index item then item ∷ [] else []))
        (sym pushed.result)
        (select-insert m laws s.tracks item s.queue index item-IsTimed v.timed v.sorted
          queued-Behind)
