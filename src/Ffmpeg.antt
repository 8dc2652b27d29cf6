-- ===== src/Ffmpeg.antt =====
-- FFmpeg's time arithmetic, which the sources only call, as a parameter of the model; and the
-- stream descriptions of src/streamer/ffmpeg/stream_info.cc.
pub mod Plain
use mw_streamer.Base.{
  ◌≡◌, Bool, ◌&&◌, ◌||◌, not, Option, none, some, List, ℕ, ◌==◌, ℤ, pos, -ℤ◌, ◌≤ℤ◌, ◌<ℤ◌, leb_ℤ,
  ltb_ℤ, eqb_ℤ, int64_min, Result, ok, err, invalid_argument, throw_if, if◌then◌else◌, IsInt64,
}

pub record AvRational : Type 0 where
  pub num : ℤ
  pub den : ℤ

-- av_rescale_q, av_compare_ts, av_cmp_q and av_inv_q.
pub record TimeMath : Type 0 where
  pub rescale_q : ℤ → AvRational → AvRational → ℤ
  pub compare_ts : ℤ → AvRational → ℤ → AvRational → ℤ
  pub cmp_q : AvRational → AvRational → ℤ
  pub inv_q : AvRational → AvRational

-- AV_NOPTS_VALUE.
abbrev pub nopts_value : ℤ
nopts_value = int64_min

abbrev pub microseconds : AvRational
microseconds = record { num = pos 1; den = pos 1000000 }

abbrev pub milliseconds : AvRational
milliseconds = record { num = pos 1; den = pos 1000 }

abbrev pub valid_time_base : AvRational → Bool
valid_time_base q = ltb_ℤ (pos 0) q.num && ltb_ℤ (pos 0) q.den

abbrev pub IsTimeBase : AvRational → Type 0
IsTimeBase q = (pos 0 <ℤ q.num) × (pos 0 <ℤ q.den)

-- What FFmpeg documents of its comparison: the sign of an order on moments, in which a time base
-- keeps the order of its timestamps, whichever fraction the base is written as.
pub record IsOrder (m : TimeMath) : Type 0 where
  pub compare_swap :
      (a : ℤ) (p : AvRational) (b : ℤ) (q : AvRational)
      → IsTimeBase p
      → IsTimeBase q
      → m.compare_ts b q a p ≡ -ℤ◌ (m.compare_ts a p b q)
  pub compare_trans :
      (a : ℤ) (p : AvRational) (b : ℤ) (q : AvRational) (c : ℤ) (r : AvRational)
      → IsTimeBase p
      → IsTimeBase q
      → IsTimeBase r
      → m.compare_ts a p b q ≤ℤ pos 0
      → m.compare_ts b q c r ≤ℤ pos 0
      → m.compare_ts a p c r ≤ℤ pos 0
  pub compare_mono :
      (a b : ℤ) (p q : AvRational)
      → IsTimeBase p
      → IsTimeBase q
      → m.cmp_q p q ≡ pos 0
      → a ≤ℤ b
      → (m.compare_ts a p b q ≤ℤ pos 0) × (m.compare_ts a q b p ≤ℤ pos 0)

-- av_rescale_q returns an int64_t: INT64_MIN where the exact result is none.
pub record IsBounded (m : TimeMath) : Type 0 where
  pub rescale_bounds : (a : ℤ) (p q : AvRational) → IsInt64 (m.rescale_q a p q)

pub data CodecType : Type 0 where
  video audio other : CodecType

-- The fields of AVCodecParameters that StreamInfo::Validate reads. AV_CODEC_ID_NONE is 0.
pub record CodecParameters : Type 0 where
  pub codec_type : CodecType
  pub codec_id : ℕ
  pub extradata_size : ℤ
  pub has_extradata : Bool

-- `codec_parameters` is null in a description that was moved from.
pub record StreamInfo : Type 0 where
  pub stream_index : ℤ
  pub codec_parameters : Option CodecParameters
  pub time_base : AvRational

abbrev pub same_type : CodecType → CodecType → Bool
same_type video video = Bool.true
same_type audio audio = Bool.true
same_type other other = Bool.true
same_type _ _ = Bool.false

abbrev bad_parameters : Option CodecParameters → Bool
bad_parameters none = Bool.true
bad_parameters (some c) =
    c.codec_id == 0
    || (same_type c.codec_type other
        || (ltb_ℤ c.extradata_size (pos 0)
            || (ltb_ℤ (pos 0) c.extradata_size && not c.has_extradata)))

unfoldable pub validate_stream : StreamInfo → Result (Unit {0})
validate_stream s =
    throw_if
      (ltb_ℤ s.stream_index (pos 0)
        || (leb_ℤ s.time_base.num (pos 0)
            || (leb_ℤ s.time_base.den (pos 0) || bad_parameters s.codec_parameters)))
      invalid_argument

-- ffmpeg::Packet: null once it was moved from. `payload` stands for the buffer that it refers to,
-- `side_data` for the sizes of its side data.
pub record AvPacket : Type 0 where
  pub stream_index : ℤ
  pub pts : ℤ
  pub dts : ℤ
  pub time_base : AvRational
  pub payload : ℕ
  pub size : ℤ
  pub has_data : Bool
  pub side_data : List ℕ

abbrev pub Packet : Type 0
Packet = Option AvPacket
