-- ===== src/Media.antt =====
-- include/mw/streamer/decoder/av_decoder.h and ffmpeg/frame.h: what a decoder hands on.
use mw_streamer.Base.{Bool, Option, none, some, ℕ, ℤ, pos, negsuc}
use mw_streamer.Ffmpeg.{AvRational, nopts_value}

-- The fields of AVFrame that the sources read or write. `picture` stands for the shared buffers.
pub record AvFrame : Type 0 where
  pub pts : ℤ
  pub best_effort_timestamp : ℤ
  pub pkt_dts : ℤ
  pub time_base : AvRational
  pub duration : ℤ
  pub nb_samples : ℤ
  pub width : ℤ
  pub height : ℤ
  pub format : ℤ
  pub sample_rate : ℤ
  pub has_data : Bool
  pub closed_captions : Bool
  pub picture : ℕ

-- ffmpeg::Frame: null once it was moved from. A copy owns its header, so that frames are values.
abbrev pub Frame : Type 0
Frame = Option AvFrame

pub data ReadStatus : Type 0 where
  frame_read eof null_read : ReadStatus

-- AvDecoderReadResult.
pub record ReadResult : Type 0 where
  pub status : ReadStatus
  pub frame : Option Frame
  pub stream_index : ℤ
  pub time_base : AvRational
  pub end_pts : ℤ

abbrev pub no_result : ReadResult
no_result = record {
  status = null_read;
  frame = none;
  stream_index = negsuc 0;
  time_base = record { num = pos 0; den = pos 1 };
  end_pts = nopts_value;
}

-- `frame->get()`, or none where there is no frame or its pointer is null.
abbrev pub raw_of : Option Frame → Option AvFrame
raw_of none = none
raw_of (some f) = f
