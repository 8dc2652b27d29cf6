-- ===== src/AvDecoder/Examples.antt =====
-- A decoder of one packet, with a codec that makes a frame of each packet.
use mw_streamer.Base.{
  ◌≡◌, refl, ◌⊎◌, Bool, true, false, Option, none, some, List, [], ◌∷◌, ◌++◌, ℕ, ℤ, pos, ok, err,
  invalid_argument, ltb_ℤ, eqb_ℤ, leb_ℤ, ◌-ℤ◌, ◌+ℤ◌,
}
use mw_streamer.Ffmpeg.{validate_stream, AvPacket, video}
use mw_streamer.Ffmpeg.Plain.{plain}
use mw_streamer.Media.{AvFrame, ReadResult}
use mw_streamer.BlockingQueue as Queue
use mw_streamer.BlockingQueue.{BlockingQueue, push, push_ready, can_push, pop, try_pop, can_pop}
use mw_streamer.Timestamps.Examples.{video_stream, picture}
use mw_streamer.AvDecoder.{
  AvDecoder, Phase, Reader, Admission, begin, make, submit, begin_read, pop_frame, end_read,
}
use mw_streamer.AvDecoder.Choice.{IsChoice, find_decoder-IsChoice}
use mw_streamer.AvDecoder.Opening.{Codecs, find_decoder}
use mw_streamer.AvDecoder.Loop.{
  Codec, Core, Input, InputKind, Received, turn, consume, frame_result, frame_end_pts, duration_of,
  fresh_core,
}
use mw_streamer.AvDecoder.Worker.{work}
use mw_streamer.AvDecoder.Runs.{
  Run, made, stepped, submits, begins_read, pops_frame, ends_read, works, nothing,
}
use mw_streamer.AvDecoder.Standing.{Begins, Comes}
use mw_streamer.AvDecoder.Delivery.{Run-Begins, Run-DeliversAll}
use mw_streamer.AvDecoder.Schedules.{IsPrefix, schedules_agree}

-- The frames that are buffered, and whether the end was sent.
abbrev pub Buffer : Type 0
Buffer = List AvFrame × Bool

abbrev pub frame_of : AvPacket → AvFrame
frame_of p = record {
  pts = p.pts;
  best_effort_timestamp = p.pts;
  pkt_dts = p.dts;
  time_base = p.time_base;
  duration = pos 40;
  nb_samples = pos 0;
  width = pos 2;
  height = pos 2;
  format = pos 0;
  sample_rate = pos 0;
  has_data = true;
  closed_captions = false;
  picture = p.payload;
}

abbrev toy_receive : Buffer → Received × Buffer
toy_receive ([], true) = (Received.ended, ([], true))
toy_receive ([], false) = (Received.again, ([], false))
toy_receive (f ∷ rest, b) = (Received.received f, (rest, b))

abbrev toy_send : Buffer → Option AvPacket → Option ℤ × Buffer
toy_send (frames, b) none = (none, (frames, true))
toy_send (frames, b) (some p) = (none, (frames ++ frame_of p ∷ [], b))

abbrev pub toy : Codec Buffer
toy = record {
  codec_type = video;
  framerate = record { num = pos 25; den = pos 1 };
  sample_rate = pos 0;
  uses_device = false;
  is_on_device = λ f. false;
  invalid_data = pos 0;
  receive_frame = toy_receive;
  send_packet = toy_send;
  flush_buffers = λ b. ([], false);
}

abbrev pub room : {A : Type 0} → ℕ → BlockingQueue A
room capacity = record {
  capacity = capacity;
  queue = [];
  read_signal = none;
  write_signal = none;
  closed = false;
}

abbrev pub fresh : AvDecoder Buffer
fresh = begin ([], false) (room 2) (room 1)

abbrev pub input : Input
input = record { kind = InputKind.packet_kind; packet = some (picture (pos 3)) }

abbrev pub submitted : AvDecoder Buffer
submitted = record fresh { packets = record (room 2) { queue = input ∷ [] } }

abbrev pub asking : AvDecoder Buffer
asking = record submitted { phase = Phase.popping }

abbrev pub holding_one : AvDecoder Buffer
holding_one = record fresh { phase = Phase.holding input }

abbrev sent_one : AvDecoder Buffer
sent_one = record fresh {
  core = record (fresh_core ([], false)) {
    codec = (frame_of (picture (pos 3)) ∷ [], false);
    started = true;
  };
}

abbrev first_out : ReadResult
first_out = frame_result video_stream (frame_of (picture (pos 3)))

abbrev after_one : Core Buffer
after_one = record { codec = ([], false); started = true; drained = false; next_pts = pos 43 }

abbrev emits_one : AvDecoder Buffer
emits_one = record fresh { core = after_one; phase = Phase.emitting first_out false }

abbrev emitted_one : AvDecoder Buffer
emitted_one = record fresh { core = after_one; frames = record (room 1) { queue = first_out ∷ [] } }

abbrev waits_again : AvDecoder Buffer
waits_again = record emitted_one { phase = Phase.popping }

abbrev reads : AvDecoder Buffer
reads = record waits_again { reader = Reader.reading }

abbrev got_one : AvDecoder Buffer
got_one = record fresh {
  core = after_one;
  phase = Phase.popping;
  reader = Reader.got (some first_out);
}

abbrev rested : AvDecoder Buffer
rested = record got_one { reader = Reader.away }

abbrev codecs : Codecs
codecs = record {
  by_name = λ name. some (record { id = 167; kind = video });
  by_id = λ i. some (record { id = i; kind = video });
  vp8 = 139;
  vp9 = 167;
  libvpx = b'l' ∷ [];
  libvpx_vp9 = b'9' ∷ [];
}

find_by_id : find_decoder codecs video_stream [] false ≡ ok (record { id = 27; kind = video })
unfolding find_decoder validate_stream leb_ℤ ltb_ℤ
find_by_id = refl

find_other : find_decoder codecs video_stream (b'l' ∷ []) false ≡ err invalid_argument
unfolding find_decoder validate_stream leb_ℤ ltb_ℤ
find_other = refl

make-fresh :
    make (find_decoder codecs video_stream [] false) 2 1 (pos 0) (ok ([], false)) ≡ ok fresh
unfolding make find_decoder validate_stream leb_ℤ Queue.make ltb_ℤ
make-fresh = refl

pub submit_one : submit fresh input false ≡ ok (Admission.accepted, submitted)
unfolding submit push push_ready can_push
submit_one = refl

ask_one : work plain video_stream toy submitted false ≡ some asking
unfolding work turn
ask_one = refl

take_one : work plain video_stream toy asking false ≡ some holding_one
unfolding work pop try_pop can_pop
take_one = refl

send_one : work plain video_stream toy holding_one false ≡ some sent_one
unfolding work consume
send_one = refl

receive_one : work plain video_stream toy sent_one false ≡ some emits_one
unfolding work turn frame_end_pts duration_of ltb_ℤ leb_ℤ eqb_ℤ ◌-ℤ◌ ◌+ℤ◌
receive_one = refl

emit_one : work plain video_stream toy emits_one false ≡ some emitted_one
unfolding work push push_ready can_push
emit_one = refl

wait_again : work plain video_stream toy emitted_one false ≡ some waits_again
unfolding work turn
wait_again = refl

read_one : reads ≡ begin_read waits_again
unfolding begin_read
read_one = refl

pop_one : pop_frame reads true ≡ some got_one
unfolding pop_frame pop try_pop can_pop
pop_one = refl

end_one : end_read video_stream got_one ≡ some (first_out, rested)
unfolding end_read
end_one = refl

pub fresh-Run : (c : Codec Buffer) → Run plain video_stream c ([], false) fresh [] []
fresh-Run c = made (find_decoder codecs video_stream [] false) 2 1 (pos 0) fresh make-fresh

submitted-Run : Run plain video_stream toy ([], false) submitted (input ∷ []) []
submitted-Run =
    stepped false _ submitted (fresh-Run toy)
      (submits input false Admission.accepted submitted refl submit_one) refl refl

holding-Run : Run plain video_stream toy ([], false) holding_one (input ∷ []) []
holding-Run =
    stepped true nothing _
      (stepped true nothing asking submitted-Run (works false _ ask_one) refl refl)
      (works false _ take_one) refl refl

emits-Run : Run plain video_stream toy ([], false) emits_one (input ∷ []) []
emits-Run =
    stepped true nothing _ (stepped true nothing _ holding-Run (works false _ send_one) refl refl)
      (works false _ receive_one) refl refl

waits-Run : Run plain video_stream toy ([], false) waits_again (input ∷ []) []
waits-Run =
    stepped true nothing _ (stepped true nothing _ emits-Run (works false _ emit_one) refl refl)
      (works false _ wait_again) refl refl

got-Run : Run plain video_stream toy ([], false) got_one (input ∷ []) []
got-Run =
    stepped false nothing _
      (stepped false nothing _ waits-Run (begins_read _ refl read_one) refl refl)
      (pops_frame true _ pop_one) refl refl

rested-Run : Run plain video_stream toy ([], false) rested (input ∷ []) (first_out ∷ [])
rested-Run = stepped false _ _ got-Run (ends_read first_out _ end_one) refl refl

Run-Begins_example : Begins plain video_stream toy ([], false) (input ∷ []) (first_out ∷ [])
Run-Begins_example = Run-Begins plain video_stream toy ([], false) rested-Run

Run-DeliversAll_example :
    Comes plain video_stream toy
      ([], false)
      (input ∷ [])
      (record { core = after_one; wants = true; pending = []; outputs = first_out ∷ [] })
Run-DeliversAll_example =
    Run-DeliversAll plain video_stream toy ([], false) rested-Run refl refl refl refl refl

schedules_agree_example :
    (IsPrefix (first_out ∷ []) [] ⊎ IsPrefix [] (first_out ∷ []))
    × (IsPrefix (first_out ∷ []) [] ⊎ IsPrefix [] (first_out ∷ []))
schedules_agree_example =
    schedules_agree plain video_stream toy ([], false) rested-Run submitted-Run

find_decoder-IsChoice_example : IsChoice codecs video_stream [] (record { id = 27; kind = video })
find_decoder-IsChoice_example =
    find_decoder-IsChoice codecs video_stream [] false (record { id = 27; kind = video }) find_by_id
