-- ===== src/Timestamps.antt =====
-- src/streamer/remuxer/media_timestamp_converter.h: one millisecond shift for all tracks.
pub mod Streams
pub mod Shift
pub mod Examples
use mw_streamer.Base.{
  ◌≡◌, Bool, true, false, ◌||◌, not, Option, none, some, List, [], ◌∷◌, ℕ, ℤ, pos, -ℤ◌, ◌+ℤ◌, ◌-ℤ◌,
  ltb_ℤ, leb_ℤ, eqb_ℤ, min_ℤ, int64_min, int64_max, to_uint64, Result, ok, err, invalid_argument,
  overflow_error, logic_error, ◌>>=◌, ◌>>◌, throw_if, if◌then◌else◌, any, find?,
}
use mw_streamer.Ffmpeg.{
  TimeMath, AvRational, StreamInfo, validate_stream, AvPacket, Packet, nopts_value, milliseconds,
}

pub record Converter : Type 0 where
  pub streams : List StreamInfo
  pub shift_ms : Option ℤ

pub record MediaTimestamps : Type 0 where
  pub pts_ms : ℕ
  pub dts_ms : ℕ

-- The loop of the constructor: each stream is valid, and its index is new.
unfoldable pub check_streams : List StreamInfo → List StreamInfo → Result (Unit {0})
check_streams seen [] = ok tt
check_streams seen (s ∷ rest) = do
  validate_stream s
  throw_if (any (λ t. eqb_ℤ s.stream_index t.stream_index) seen) invalid_argument
  check_streams (s ∷ seen) rest

unfoldable pub make : List StreamInfo → Result Converter
make [] = err invalid_argument
make (s ∷ rest) = do
  check_streams [] (s ∷ rest)
  ok (record { streams = s ∷ rest; shift_ms = none })

module _ (m : TimeMath) where
  abbrev mismatched : Option StreamInfo → AvPacket → Bool
  mismatched none p = true
  mismatched (some track) p =
      leb_ℤ p.time_base.num (pos 0)
      || (leb_ℤ p.time_base.den (pos 0)
          || not (eqb_ℤ (m.cmp_q p.time_base track.time_base) (pos 0)))

  -- `Validate`; the result is the AVPacket that `packet.get()` points to.
  unfoldable pub validate : Converter → Packet → Result AvPacket
  validate c none = err invalid_argument
  validate c (some p) = do
    throw_if (eqb_ℤ p.pts nopts_value || eqb_ℤ p.dts nopts_value) invalid_argument
    throw_if (mismatched (find? (λ s. eqb_ℤ s.stream_index p.stream_index) c.streams) p)
        invalid_argument
    ok p

  unfoldable pub to_milliseconds : ℤ → AvRational → Result ℤ
  to_milliseconds value time_base =
      let result = m.rescale_q value time_base milliseconds in
      if eqb_ℤ result int64_min || eqb_ℤ result int64_max then err overflow_error else ok result

  -- The loop of `Initialize` over the first packets.
  unfoldable pub lowest : Converter → ℤ → List Packet → Result ℤ
  lowest c minimum [] = ok minimum
  lowest c minimum (packet ∷ rest) = do
    p ← validate c packet
    pts ← to_milliseconds p.pts p.time_base
    dts ← to_milliseconds p.dts p.time_base
    lowest c (min_ℤ (min_ℤ minimum pts) dts) rest

  abbrev initialize_from : Option ℤ → Converter → List Packet → Result Converter
  initialize_from (some shift) c first_packets = ok c
  initialize_from none c first_packets = do
    minimum ← lowest c (pos 0) first_packets
    ok (record c { shift_ms = some (-ℤ◌ minimum) })

  unfoldable pub initialize : Converter → List Packet → Result Converter
  initialize c first_packets = initialize_from c.shift_ms c first_packets

unfoldable pub shift_by : ℤ → ℤ → Result ℕ
shift_by shift value =
    if ltb_ℤ value (-ℤ◌ shift)
    then err invalid_argument
    else if ltb_ℤ (int64_max -ℤ shift) value
    then err overflow_error
    else ok (to_uint64 (value +ℤ shift))

module _ (m : TimeMath) where
  abbrev convert_by : Option ℤ → AvPacket → Result MediaTimestamps
  convert_by none p = err logic_error
  convert_by (some shift) p = do
    pts ← to_milliseconds m p.pts p.time_base
    pts_ms ← shift_by shift pts
    dts ← to_milliseconds m p.dts p.time_base
    dts_ms ← shift_by shift dts
    ok (record { pts_ms = pts_ms; dts_ms = dts_ms })

  unfoldable pub convert : Converter → Packet → Result MediaTimestamps
  convert c packet = do p ← validate m c packet; convert_by c.shift_ms p
