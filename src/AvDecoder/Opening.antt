-- ===== src/AvDecoder/Opening.antt =====
-- src/streamer/decoder/av_decoder.cc, FindDecoder: the choice of the codec of a track.
use mw_streamer.Base.{
  Bool, not, ◌&&◌, ◌||◌, Option, none, some, List, [], ◌∷◌, ℕ, ◌==◌, any, Result, ok, err,
  invalid_argument, runtime_error, undefined, ◌>>◌, throw_if, if◌then◌else◌,
}
use mw_streamer.Ffmpeg.{StreamInfo, CodecParameters, CodecType, video, same_type, validate_stream}

pub record AvCodec : Type 0 where
  pub id : ℕ
  pub kind : CodecType

-- avcodec_find_decoder_by_name and avcodec_find_decoder, with the identifiers and the names of the
-- codecs that the source prefers.
pub record Codecs : Type 0 where
  pub by_name : List ℕ → Option AvCodec
  pub by_id : ℕ → Option AvCodec
  pub vp8 : ℕ
  pub vp9 : ℕ
  pub libvpx : List ℕ
  pub libvpx_vp9 : List ℕ

abbrev pub first_of : Option AvCodec → Option AvCodec → Option AvCodec
first_of none second = second
first_of (some codec) second = some codec

-- Where no name is given.
abbrev pub preferred : Codecs → CodecParameters → Bool → Option AvCodec
preferred k c hardware =
    if not hardware && (c.codec_id == k.vp9)
    then first_of (k.by_name k.libvpx_vp9) (k.by_id c.codec_id)
    else if not hardware && (c.codec_id == k.vp8)
    then first_of (k.by_name k.libvpx) (k.by_id c.codec_id)
    else k.by_id c.codec_id

abbrev pub look_up : Codecs → CodecParameters → List ℕ → Bool → Option AvCodec
look_up k c [] device = preferred k c (device && same_type c.codec_type video)
look_up k c (x ∷ name) device = k.by_name (x ∷ name)

abbrev pub check_codec : CodecParameters → Option AvCodec → Result AvCodec
check_codec c none = err runtime_error
check_codec c (some codec) = do
  throw_if (not (codec.id == c.codec_id) || not (same_type codec.kind c.codec_type))
      invalid_argument
  ok codec

abbrev pub find_for : Codecs → Option CodecParameters → List ℕ → Bool → Result AvCodec
find_for k none name device = err undefined
find_for k (some c) name device = check_codec c (look_up k c name device)

-- `device`: there is a hardware device.
unfoldable pub find_decoder : Codecs → StreamInfo → List ℕ → Bool → Result AvCodec
find_decoder k info name device = do
  validate_stream info
  throw_if (any (λ x. x == 0) name) invalid_argument
  find_for k info.codec_parameters name device
