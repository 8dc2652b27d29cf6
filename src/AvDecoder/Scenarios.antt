-- ===== src/AvDecoder/Scenarios.antt =====
-- A decoder whose codec fails, one that is stopped, one that is reset, and the end of a frame.
use mw_streamer.Base.{
  none, ◌≡◌, refl, ◌⊎◌, Bool, true, false, some, [], ◌∷◌, ◌<◌, pos, ok, err, logic_error,
  invalid_argument, arith, int_laws,
}
use mw_streamer.Ffmpeg.Plain.{plain}
use mw_streamer.BlockingQueue.{push, push_ready, can_push, pop, try_pop, can_pop, close}
use mw_streamer.Timestamps.Examples.{video_stream, picture}
use mw_streamer.AvDecoder.{
  AvDecoder, Phase, Admission, submit, push_packet, push_eof, reset, is_reset,
}
use mw_streamer.AvDecoder.Loop.{
  Codec, Failure, Input, InputKind, turn, consume, duration_of, frame_end_pts,
}
use mw_streamer.AvDecoder.Worker.{work}
use mw_streamer.AvDecoder.Runs.{Run, stepped, works, nothing, submits}
use mw_streamer.AvDecoder.Stopping.{here, next, stop_ends}
use mw_streamer.AvDecoder.Faults.{IsWell, HasFailed}
use mw_streamer.AvDecoder.Failing.{exited_outcome}
use mw_streamer.AvDecoder.Discipline.{Run-resets}
use mw_streamer.AvDecoder.EndPts.{NoEnd, EndsAt, frame_end_pts_outcome}
use mw_streamer.AvDecoder.Examples.{
  Buffer, frame_of, toy, room, fresh, input, submitted, asking, holding_one, fresh-Run, submit_one,
}

-- A codec that takes no packet.
abbrev broken : Codec Buffer
broken = record toy { send_packet = λ b p. (some (pos 7), b) }

abbrev failing_one : AvDecoder Buffer
failing_one = record fresh { phase = Phase.failing (Failure.ffmpeg (pos 7)) }

abbrev kept_error : AvDecoder Buffer
kept_error = record fresh {
  error = some (Failure.ffmpeg (pos 7));
  phase = Phase.closing_packets false;
}

abbrev packets_closed : AvDecoder Buffer
packets_closed = record kept_error {
  packets = record (room 2) { closed = true };
  phase = Phase.closing_frames false;
}

abbrev frames_closed : AvDecoder Buffer
frames_closed = record packets_closed {
  frames = record (room 1) { closed = true };
  phase = Phase.discarding false;
}

abbrev calls_back : AvDecoder Buffer
calls_back = record frames_closed { phase = Phase.calling false }

abbrev failed_one : AvDecoder Buffer
failed_one = record calls_back { phase = Phase.exited }

ask_broken : work plain video_stream broken submitted false ≡ some asking
unfolding work turn
ask_broken = refl

take_broken : work plain video_stream broken asking false ≡ some holding_one
unfolding work pop try_pop can_pop
take_broken = refl

send_broken : work plain video_stream broken holding_one false ≡ some failing_one
unfolding work consume
send_broken = refl

keep_error : work plain video_stream broken failing_one false ≡ some kept_error
unfolding work
keep_error = refl

close_packets : work plain video_stream broken kept_error false ≡ some packets_closed
unfolding work close
close_packets = refl

close_frames : work plain video_stream broken packets_closed false ≡ some frames_closed
unfolding work close
close_frames = refl

discard_none : work plain video_stream broken frames_closed false ≡ some calls_back
unfolding work try_pop
discard_none = refl

call_back : work plain video_stream broken calls_back false ≡ some failed_one
unfolding work
call_back = refl

works_on :
    {s : AvDecoder Buffer} (t : AvDecoder Buffer)
    → work plain video_stream broken s false ≡ some t
    → Run plain video_stream broken ([], false) s (input ∷ []) []
    → Run plain video_stream broken ([], false) t (input ∷ []) []
works_on t k run = stepped true nothing t run (works false t k) refl refl

failing-Run : Run plain video_stream broken ([], false) failing_one (input ∷ []) []
failing-Run = works_on failing_one send_broken (
    works_on holding_one take_broken (
      works_on asking ask_broken (
        stepped false _ submitted (fresh-Run broken)
          (submits input false Admission.accepted submitted refl submit_one) refl refl)))

failed-Run : Run plain video_stream broken ([], false) failed_one (input ∷ []) []
failed-Run = works_on failed_one call_back (
    works_on calls_back discard_none (
      works_on frames_closed close_frames
        (works_on packets_closed close_packets (works_on kept_error keep_error failing-Run))))

exited_outcome_example :
    (IsWell failed_one × (failed_one.stopping ≡ true))
    ⊎ (HasFailed failed_one
        × ((i : _) (wait : Bool) → submit failed_one i wait ≡ ok (Admission.refused, failed_one)))
exited_outcome_example = exited_outcome plain video_stream broken failed-Run refl

abbrev shut_one : AvDecoder Buffer
shut_one = record asking {
  stopping = true;
  packets = record (room 2) { queue = input ∷ []; closed = true };
  frames = record (room 1) { closed = true };
}

abbrev shut_holding : AvDecoder Buffer
shut_holding = record shut_one {
  packets = record (room 2) { closed = true };
  phase = Phase.holding input;
}

take_shut : work plain video_stream toy shut_one false ≡ some shut_holding
unfolding work pop try_pop can_pop
take_shut = refl

stop_ends_example :
    (Phase.holding input ≡ Phase.exited)
    ⊎ ((1 < 5)
        × ((throws : Bool)
            → (u : AvDecoder Buffer) × (work plain video_stream toy shut_holding throws ≡ some u)))
stop_ends_example =
    stop_ends plain video_stream toy shut_one 1 shut_holding
      (record { stops = refl; packets_end = refl; frames_end = refl })
      (next true nothing shut_holding 1 here (works false shut_holding take_shut) (omega arith))

frame_end_pts_outcome_example :
    NoEnd
      (pos 3)
      (duration_of plain video_stream toy (frame_of (picture (pos 3))))
      (frame_end_pts plain video_stream toy (frame_of (picture (pos 3))))
    ⊎ EndsAt
        (pos 3)
        (duration_of plain video_stream toy (frame_of (picture (pos 3))))
        (frame_end_pts plain video_stream toy (frame_of (picture (pos 3))))
frame_end_pts_outcome_example =
    frame_end_pts_outcome plain video_stream toy (frame_of (picture (pos 3)))
      (record { above = omega int_laws; below = omega int_laws })

abbrev the_end : Input
the_end = record { kind = InputKind.eof_kind; packet = none }

abbrev a_reset : Input
a_reset = record { kind = InputKind.reset_kind; packet = none }

abbrev ended_one : AvDecoder Buffer
ended_one = record fresh {
  packets = record (room 2) { queue = the_end ∷ [] };
  submitted_eof = true;
}

abbrev reset_one : AvDecoder Buffer
reset_one = record fresh { packets = record (room 2) { queue = the_end ∷ a_reset ∷ [] } }

end_first : push_eof fresh false ≡ ok (Admission.accepted, ended_one)
unfolding push_eof submit push push_ready can_push
end_first = refl

end_twice : push_eof ended_one true ≡ err logic_error
unfolding push_eof submit
end_twice = refl

reset_after : reset ended_one false ≡ ok (Admission.accepted, reset_one)
unfolding reset submit push push_ready can_push
reset_after = refl

full_after : reset reset_one false ≡ ok (Admission.refused, reset_one)
unfolding reset submit
full_after = refl

wrong_packet : push_packet video_stream fresh none false ≡ err invalid_argument
unfolding push_packet
wrong_packet = refl

reset-Run : Run plain video_stream toy ([], false) reset_one (the_end ∷ a_reset ∷ []) []
unfolding push_eof reset
reset-Run =
    stepped false _ reset_one
      (stepped false _ ended_one (fresh-Run toy)
        (submits the_end false Admission.accepted ended_one refl end_first) refl refl)
      (submits a_reset false Admission.accepted reset_one refl reset_after) refl refl

Run-resets_example : is_reset a_reset.kind ≡ true
Run-resets_example = Run-resets plain video_stream toy [] [] the_end a_reset reset-Run refl
