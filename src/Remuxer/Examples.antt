-- ===== src/Remuxer/Examples.antt =====
-- A session with one packet.
use mw_streamer.Base.{
  ◌≡◌, refl, ◌⊎◌, true, false, Option, none, some, [], ◌∷◌, ◌<◌, pos, ok, ltb_ℤ, leb_ℤ, eqb_ℤ, ◌-ℤ◌,
}
use mw_streamer.Ffmpeg.{AvPacket, validate_stream}
use mw_streamer.Ffmpeg.Plain.{plain}
use mw_streamer.BlockingQueue as Queue
use mw_streamer.BlockingQueue.{BlockingQueue, push, push_ready, can_push, close, try_pop}
use mw_streamer.Timestamps
use mw_streamer.Timestamps.{check_streams, validate}
use mw_streamer.Timestamps.Examples.{streams, picture}
use mw_streamer.Interleaver
use mw_streamer.Interleaver.{Interleaver, Track, make_tracks}
use mw_streamer.Interleaver.Examples.{start as empty_interleaver}
use mw_streamer.Remuxer.{
  Session, Task, Thrown, begin, start, offer, hand_over, enter, drain, poll, process_packets,
}
use mw_streamer.Remuxer.Runs.{Run, started, stepped, offers, hands_over, enters, drains, polls}
use mw_streamer.Remuxer.Ending.{Chain, here, next, drain_ends}
use mw_streamer.Remuxer.Handoff.{Kept, Run-Kept}

abbrev handoff : BlockingQueue AvPacket
handoff = record {
  capacity = 1;
  queue = [];
  read_signal = none;
  write_signal = none;
  closed = false;
}

abbrev fresh : Session
fresh = begin handoff empty_interleaver false

start_fresh : start streams false none ≡ ok fresh
unfolding start Queue.make Interleaver.make make_tracks Timestamps.make check_streams
    validate_stream ltb_ℤ leb_ℤ eqb_ℤ
start_fresh = refl

abbrev offered : Session
offered = record fresh { pushing = picture (pos 3) ∷ [] }

offer_first : offer plain fresh (some (picture (pos 3))) false ≡ ok (true, offered)
unfolding offer validate ltb_ℤ leb_ℤ eqb_ℤ ◌-ℤ◌
offer_first = refl

abbrev given : Session
given = record offered {
  pushing = [];
  packets = record handoff { queue = picture (pos 3) ∷ [] };
  entering = 1;
}

hand_first : hand_over offered [] (picture (pos 3)) [] false ≡ some given
unfolding hand_over push push_ready can_push
hand_first = refl

abbrev entered : Session
entered = record given { entering = 0; scheduled = true; tasks = Task.process ∷ [] }

enter_first : enter given ≡ some entered
unfolding enter
enter_first = refl

entered-Run : Run plain entered (picture (pos 3) ∷ []) []
unfolding push push_ready can_push
entered-Run =
    stepped false _ entered
      (stepped false _ given
        (stepped false _ offered (started streams false none fresh start_fresh)
          (offers (some (picture (pos 3))) false true offered offer_first) refl refl)
        (hands_over [] (picture (pos 3)) [] false given refl hand_first) refl refl)
      (enters entered enter_first) refl refl

abbrev drained : Session
drained = record entered {
  accepting = false;
  draining = true;
  packets = record entered.packets { closed = true };
}

drain-entered : drained ≡ drain entered
unfolding drain close
drain-entered = refl

drained-Run : Run plain drained (picture (pos 3) ∷ []) []
drained-Run = stepped false _ drained entered-Run (drains drained drain-entered) refl refl

worked : Session
worked = process_packets plain (record drained { tasks = [] })

poll_drained : poll plain drained none ≡ some worked
unfolding poll worked
poll_drained = refl

worked-Chain : Chain plain drained 1 worked
worked-Chain = next true _ worked 1 here (polls none worked poll_drained) refl

drain_ends_example :
    (worked.running ≡ false)
    ⊎ ((1 < 8) × ((what : Option Thrown) → (u : Session) × (poll plain worked what ≡ some u)))
drain_ends_example =
    drain_ends plain drained (picture (pos 3) ∷ []) [] 1 worked drained-Run refl worked-Chain

Run-Kept_example : Kept drained (picture (pos 3) ∷ []) []
Run-Kept_example = Run-Kept plain drained (picture (pos 3) ∷ []) [] drained-Run
