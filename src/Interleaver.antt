-- ===== src/Interleaver.antt =====
-- src/streamer/remuxer/packet_interleaver.h: packets of all tracks in the order of their DTS.
pub mod Order
pub mod Tracks
pub mod Insert
pub mod Invariant
pub mod Arrival
pub mod Push
pub mod Drain
pub mod Merge
pub mod Examples
use mw_streamer.Base.{
  ◌≡◌, Bool, true, false, ◌&&◌, ◌||◌, not, Option, none, some, List, [], ◌∷◌, ◌++◌, ℕ, suc, ◌+◌,
  ltb, ◌==◌, ℤ, pos, ltb_ℤ, eqb_ℤ, to_uint64, sub_uint64, Result, ok, err, invalid_argument,
  runtime_error, logic_error, undefined, ◌>>=◌, ◌>>◌, throw_if, if◌then◌else◌, any, all, find?,
  is_some, length,
}
use mw_streamer.Ffmpeg.{
  TimeMath, AvRational, StreamInfo, CodecParameters, CodecType, same_type, AvPacket, Packet,
  microseconds,
}
use mw_streamer.Timestamps
use mw_streamer.Timestamps.{Converter}

pub record Track : Type 0 where
  pub index : ℤ
  pub type : CodecType
  pub time_base : AvRational
  pub highest : Option ℤ

pub record Interleaver : Type 0 where
  pub validation : Converter
  pub tracks : List Track
  pub queue : List AvPacket
  pub initialized : Bool
  pub flushed : Bool

-- The loop of the constructor. A valid stream has codec parameters.
unfoldable pub make_tracks : List Track → List StreamInfo → Result (List Track)
make_tracks tracks [] = ok tracks
make_tracks tracks (s ∷ rest) = elim s.codec_parameters [
  | none ↦ err undefined
  | some c ↦
      throw_if (any (λ t. same_type t.type c.codec_type) tracks) invalid_argument
      >> make_tracks
          (tracks
            ++ record {
              index = s.stream_index;
              type = c.codec_type;
              time_base = s.time_base;
              highest = none;
            }
              ∷ [])
          rest
]

unfoldable pub make : List StreamInfo → Result Interleaver
make streams = do
  validation ← Timestamps.make streams
  tracks ← make_tracks [] streams
  ok (record {
    validation = validation;
    tracks = tracks;
    queue = [];
    initialized = false;
    flushed = false;
  })

-- `TrackOrder`: the position of the track with this index, or the number of tracks.
unfoldable pub track_order : List Track → ℤ → ℕ
track_order [] index = 0
track_order (t ∷ ts) index = if eqb_ℤ t.index index then 0 else suc (track_order ts index)

abbrev pub of_track : ℤ → AvPacket → Bool
of_track index p = eqb_ℤ p.stream_index index

abbrev last_of : AvPacket → List AvPacket → AvPacket
last_of p [] = p
last_of p (q ∷ ps) = last_of q ps

module _ (m : TimeMath) where
  abbrev pub compare : AvPacket → AvPacket → ℤ
  compare left right = m.compare_ts left.dts left.time_base right.dts right.time_base

  -- The comparator of `Push`.
  unfoldable pub before : List Track → AvPacket → AvPacket → Bool
  before tracks left right =
      if eqb_ℤ (compare left right) (pos 0)
      then ltb (track_order tracks left.stream_index) (track_order tracks right.stream_index)
      else ltb_ℤ (compare left right) (pos 0)

  -- `std::upper_bound` and the insertion there: before the first packet that comes after `item`.
  unfoldable pub insert : List Track → AvPacket → List AvPacket → List AvPacket
  insert tracks item [] = item ∷ []
  insert tracks item (p ∷ ps) =
      if before tracks item p then item ∷ p ∷ ps else p ∷ insert tracks item ps

abbrev went_back : Option ℤ → ℤ → Bool
went_back none dts = false
went_back (some highest) dts = ltb_ℤ dts highest

-- The track that `std::find_if` finds, and no other, takes the new highest DTS.
unfoldable pub raise : List Track → ℤ → ℤ → List Track
raise [] index dts = []
raise (t ∷ ts) index dts =
    if eqb_ℤ t.index index then record t { highest = some dts } ∷ ts else t ∷ raise ts index dts

module _ (m : TimeMath) where
  unfoldable pub accept : Interleaver → AvPacket → Option Track → Result Interleaver
  accept s p none = err undefined
  accept s p (some track) = do
    throw_if (went_back track.highest p.dts) invalid_argument
    ok (record s {
      queue = insert m s.tracks p s.queue;
      tracks = raise s.tracks p.stream_index p.dts;
    })

  unfoldable pub push : Interleaver → Packet → Result Interleaver
  push s packet = do
    throw_if s.flushed logic_error
    p ← Timestamps.validate m s.validation packet
    accept s p (find? (λ t. eqb_ℤ t.index p.stream_index) s.tracks)

  pub exceeds : AvPacket → AvPacket → Bool
  exceeds first last =
      let first_us = m.rescale_q first.dts first.time_base microseconds in
      let last_us = m.rescale_q last.dts last.time_base microseconds in
      ltb_ℤ first_us last_us && ltb 10000000 (sub_uint64 (to_uint64 last_us) (to_uint64 first_us))

  unfoldable pub exceeds_delta : List AvPacket → Bool
  exceeds_delta [] = false
  exceeds_delta (p ∷ []) = false
  exceeds_delta (p ∷ q ∷ ps) = exceeds p (last_of q ps)

unfoldable pub all_tracks_buffered : List Track → List AvPacket → Bool
all_tracks_buffered tracks queue = all (λ t. any (of_track t.index) queue) tracks

unfoldable pub all_tracks_seen : List Track → Bool
all_tracks_seen tracks = all (λ t. is_some t.highest) tracks

module _ (m : TimeMath) where
  -- The `while` loop of `PopReady`: the packets that leave, and those that stay.
  unfoldable pub drain : List Track → Bool → List AvPacket → List AvPacket × List AvPacket
  drain tracks flush [] = ([], [])
  drain tracks flush (p ∷ ps) =
      let (out, rest) = drain tracks flush ps in
      if flush || (all_tracks_buffered tracks (p ∷ ps) || exceeds_delta m (p ∷ ps))
      then (p ∷ out, rest)
      else ([], p ∷ ps)

  abbrev release : Interleaver → Bool → Bool → List AvPacket × Interleaver
  release s flush false = ([], s)
  release s flush true =
      let (out, rest) = drain s.tracks flush s.queue in (out, record s { queue = rest })

  unfoldable pub pop_ready : Interleaver → Bool → Result (List AvPacket × Interleaver)
  pop_ready s flush = do
    let seen = all_tracks_seen s.tracks
    throw_if (not flush && (not s.initialized && (not seen && exceeds_delta m s.queue)))
        runtime_error
    let initialized = s.initialized || (flush || seen)
    ok (
        release (record s { flushed = s.flushed || flush; initialized = initialized }) flush
          initialized)

unfoldable pub first_packets : List Track → List AvPacket → List Packet
first_packets [] queue = []
first_packets (t ∷ ts) queue =
    let rest = first_packets ts queue in
    elim (find? (of_track t.index) queue) [ none ↦ rest | some p ↦ some p ∷ rest ]

unfoldable pub queued_packets : Interleaver → ℕ
queued_packets s = length s.queue
