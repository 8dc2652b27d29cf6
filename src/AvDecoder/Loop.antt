-- ===== src/AvDecoder/Loop.antt =====
-- src/streamer/decoder/av_decoder.cc: the worker's loop between the codec and its locals. What the
-- loop calls of FFmpeg's codec is a parameter.
use mw_streamer.Base.{
  Bool, true, false, not, ◌&&◌, ◌||◌, Option, none, some, ℤ, pos, ltb_ℤ, leb_ℤ, eqb_ℤ, ◌-ℤ◌, ◌+ℤ◌,
  int64_max, if◌then◌else◌,
}
use mw_streamer.Ffmpeg.{
  TimeMath, AvRational, StreamInfo, CodecType, video, audio, same_type, AvPacket, nopts_value,
}
use mw_streamer.Media.{AvFrame, ReadResult, frame_read, eof}

-- What avcodec_receive_frame returns: EAGAIN, EOF, another error, or a frame.
pub data Received : Type 0 where
  again ended : Received
  failed : ℤ → Received
  received : AvFrame → Received

-- What ends the worker: an FfmpegException with its code, or another exception.
pub data Failure : Type 0 where
  ffmpeg : ℤ → Failure
  other : Failure

-- The codec context, whose state is `S`. `is_on_device`: the frame has the device's format and a
-- frames context. A null packet is none. `send_packet` returns the code of an error.
pub record Codec (S : Type 0) : Type 0 where
  pub codec_type : CodecType
  pub framerate : AvRational
  pub sample_rate : ℤ
  pub uses_device : Bool
  pub is_on_device : AvFrame → Bool
  pub invalid_data : ℤ
  pub receive_frame : S → Received × S
  pub send_packet : S → Option AvPacket → Option ℤ × S
  pub flush_buffers : S → S

pub data InputKind : Type 0 where
  packet_kind eof_kind reset_kind : InputKind

pub record Input : Type 0 where
  pub kind : InputKind
  pub packet : Option AvPacket

-- The codec and the locals of `Run`.
pub record Core (S : Type 0) : Type 0 where
  pub codec : S
  pub started : Bool
  pub drained : Bool
  pub next_pts : ℤ

-- What a pass of the loop comes to: it needs an input, emits a result (true where that is the
-- end), throws, or goes on.
pub data Reaction (S : Type 0) : Type 0 where
  wants continues : Core S → Reaction S
  emits : Core S → ReadResult → Bool → Reaction S
  fails : Core S → Failure → Reaction S

abbrev pub stamped : StreamInfo → AvFrame → AvFrame
stamped info f = record f { pts = f.best_effort_timestamp; time_base = info.time_base }

abbrev pub frame_result : StreamInfo → AvFrame → ReadResult
frame_result info f = record {
  status = frame_read;
  frame = some (some f);
  stream_index = info.stream_index;
  time_base = info.time_base;
  end_pts = nopts_value;
}

abbrev pub eof_result : StreamInfo → ℤ → ReadResult
eof_result info next_pts = record {
  status = eof;
  frame = none;
  stream_index = info.stream_index;
  time_base = info.time_base;
  end_pts = next_pts;
}

module _ {S : Type 0} where
  abbrev pub fresh_core : S → Core S
  fresh_core codec = record {
    codec = codec;
    started = false;
    drained = false;
    next_pts = nopts_value;
  }

  -- `drained = true`, once the end was emitted.
  abbrev pub mark : Bool → Core S → Core S
  mark true core = record core { drained = true }
  mark false core = core

  -- The duration that `FrameEndPts` counts with.
  unfoldable pub duration_of : TimeMath → StreamInfo → Codec S → AvFrame → ℤ
  duration_of m info c f =
      if ltb_ℤ (pos 0) f.duration
      then f.duration
      else if same_type c.codec_type video
          && (ltb_ℤ (pos 0) c.framerate.num && ltb_ℤ (pos 0) c.framerate.den)
      then m.rescale_q (pos 1) (m.inv_q c.framerate) info.time_base
      else if same_type c.codec_type audio && ltb_ℤ (pos 0) c.sample_rate
      then m.rescale_q f.nb_samples (record { num = pos 1; den = c.sample_rate }) info.time_base
      else f.duration

  unfoldable pub frame_end_pts : TimeMath → StreamInfo → Codec S → AvFrame → ℤ
  frame_end_pts m info c f =
      if eqb_ℤ f.pts nopts_value
      then nopts_value
      else let duration = duration_of m info c f in
        if leb_ℤ duration (pos 0) || ltb_ℤ (int64_max -ℤ duration) f.pts
        then nopts_value
        else f.pts +ℤ duration

  -- The loop, once the codec has answered avcodec_receive_frame.
  abbrev pub receive : TimeMath → StreamInfo → Codec S → Core S → Received × S → Reaction S
  receive m info c core (again, codec) = Reaction.wants (record core { codec = codec })
  receive m info c core (ended, codec) =
      Reaction.emits (record core { codec = codec }) (eof_result info core.next_pts) true
  receive m info c core (failed code, codec) =
      Reaction.fails (record core { codec = codec }) (Failure.ffmpeg code)
  receive m info c core (received f, codec) =
      if c.uses_device && not (c.is_on_device f)
      then Reaction.fails (record core { codec = codec }) (Failure.ffmpeg c.invalid_data)
      else Reaction.emits
          (record core { codec = codec; next_pts = frame_end_pts m info c (stamped info f) })
          (frame_result info (stamped info f)) false

  -- The first half of a pass: what is buffered goes first.
  unfoldable pub turn : TimeMath → StreamInfo → Codec S → Core S → Reaction S
  turn m info c core =
      if core.started && not core.drained
      then receive m info c core (c.receive_frame core.codec)
      else Reaction.wants core

  abbrev pub sent : Core S → Option ℤ × S → Reaction S
  sent core (none, codec) = Reaction.continues (record core { codec = codec; started = true })
  sent core (some code, codec) =
      Reaction.fails (record core { codec = codec }) (Failure.ffmpeg code)

  abbrev pub consume_kind : Codec S → Core S → InputKind → Option AvPacket → Reaction S
  consume_kind c core InputKind.reset_kind packet =
      Reaction.continues (fresh_core (c.flush_buffers core.codec))
  consume_kind c core _ packet = sent core (c.send_packet core.codec packet)

  -- The second half: an input, which is a packet, the end or a reset.
  unfoldable pub consume : Codec S → Core S → Input → Reaction S
  consume c core input = consume_kind c core input.kind input.packet
