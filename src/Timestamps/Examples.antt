-- ===== src/Timestamps/Examples.antt =====
-- The millisecond shift at concrete packets.
use mw_streamer.Base.{
  ◌≡◌, refl, ◌⊎◌, true, false, none, some, List, [], ◌∷◌, All, ℤ, pos, negsuc, -ℤ◌, ◌+ℤ◌, ◌-ℤ◌,
  ◌≤ℤ◌, ltb_ℤ, leb_ℤ, eqb_ℤ, to_uint64, ok, err, invalid_argument, arith,
}
use mw_streamer.Ffmpeg.{
  AvPacket, Packet, StreamInfo, video, audio, validate_stream, milliseconds, microseconds,
}
use mw_streamer.Ffmpeg.Plain.{plain}
use mw_streamer.Timestamps.{
  Converter, make, check_streams, initialize, lowest, validate, to_milliseconds, shift_by, convert,
}
use mw_streamer.Timestamps.Shift.{
  convert-shift, initialize_least, IsBelow, IsStamp, IsConverted, initialize-IsConverted, ms,
}

abbrev pub video_stream : StreamInfo
video_stream = record {
  stream_index = pos 0;
  codec_parameters =
      some (record {
        codec_type = video;
        codec_id = 27;
        extradata_size = pos 0;
        has_extradata = false;
      });
  time_base = milliseconds;
}

abbrev pub audio_stream : StreamInfo
audio_stream = record {
  stream_index = pos 1;
  codec_parameters = some (record {
    codec_type = audio;
    codec_id = 86018;
    extradata_size = pos 2;
    has_extradata = true;
  });
  time_base = microseconds;
}

abbrev pub streams : List StreamInfo
streams = video_stream ∷ audio_stream ∷ []

abbrev pub picture : ℤ → AvPacket
picture dts = record {
  stream_index = pos 0;
  pts = dts;
  dts = dts;
  time_base = milliseconds;
  payload = 1;
  size = pos 10;
  has_data = true;
  side_data = [];
}

abbrev pub sound : ℤ → AvPacket
sound dts = record {
  stream_index = pos 1;
  pts = dts;
  dts = dts;
  time_base = microseconds;
  payload = 2;
  size = pos 10;
  has_data = true;
  side_data = [];
}

abbrev pub unset : Converter
unset = record { streams = streams; shift_ms = none }

abbrev shifted : Converter
shifted = record { streams = streams; shift_ms = some (pos 40) }

abbrev first : List Packet
first = some (picture (negsuc 39)) ∷ some (sound (pos 7000)) ∷ []

make_streams : make streams ≡ ok unset
unfolding make check_streams validate_stream ltb_ℤ leb_ℤ eqb_ℤ
make_streams = refl

twice_one_index : make (video_stream ∷ video_stream ∷ []) ≡ err invalid_argument
unfolding make check_streams validate_stream ltb_ℤ leb_ℤ eqb_ℤ
twice_one_index = refl

first_shift : initialize plain unset first ≡ ok shifted
unfolding initialize lowest validate to_milliseconds ltb_ℤ leb_ℤ eqb_ℤ ◌-ℤ◌ -ℤ◌
first_shift = refl

sound_out :
    convert plain shifted (some (sound (pos 7000))) ≡ ok (record { pts_ms = 47; dts_ms = 47 })
unfolding convert validate to_milliseconds shift_by to_uint64 ltb_ℤ leb_ℤ eqb_ℤ ◌-ℤ◌ ◌+ℤ◌ -ℤ◌
sound_out = refl

too_early : convert plain shifted (some (picture (negsuc 40))) ≡ err invalid_argument
unfolding convert validate to_milliseconds shift_by to_uint64 ltb_ℤ leb_ℤ eqb_ℤ ◌-ℤ◌ ◌+ℤ◌ -ℤ◌
too_early = refl

convert-shift_example :
    (pos 47 ≡ ms plain (pos 7000) microseconds +ℤ pos 40)
    × (pos 47 ≡ ms plain (pos 7000) microseconds +ℤ pos 40)
convert-shift_example =
    convert-shift plain shifted (pos 40) (sound (pos 7000)) (record { pts_ms = 47; dts_ms = 47 })
      refl (omega arith) sound_out

initialize_least_example :
    (shift : ℤ) × (some (pos 40) ≡ some shift)
    × (pos 0 ≤ℤ shift)
    × All (IsBelow plain (-ℤ◌ shift)) first
    × ((shift ≡ pos 0) ⊎ IsStamp plain (-ℤ◌ shift) first)
initialize_least_example = initialize_least plain unset shifted first refl first_shift

initialize-IsConverted_example : All (IsConverted plain shifted) first
initialize-IsConverted_example = initialize-IsConverted plain unset shifted first refl first_shift
