-- ===== src/Scheduler/Examples.antt =====
-- An EOF on its way through a track, with the frame-rate converter as its converter.
use mw_streamer.Base.{◌≡◌, refl, inr, true, false, none, some, [], ◌∷◌, ok, pos, int64_max, eqb_ℤ}
use mw_streamer.Ffmpeg.Plain.{clamped}
use mw_streamer.Media.{ReadResult, no_result}
use mw_streamer.Media.ReadStatus.{eof}
use mw_streamer.ForceFps.{
  ForceFps, try_push_frame, try_read_frame, check_input, read_inputs, choose, finish_output,
  clear_history,
}
use mw_streamer.ForceFps.Examples.{tick}
use mw_streamer.SyncerTiming.Examples.{platform}
use mw_streamer.Syncer.Examples.{formats}
use mw_streamer.Realtime.Examples.{timing}
use mw_streamer.Scheduler.{Track, Worker, cleared, idle, prepare, take, Converter, Round, finish}
use mw_streamer.Scheduler.Ledger.{Ledger, empty_ledger, Balanced}
use mw_streamer.Scheduler.Rounds.{Worked}
use mw_streamer.Scheduler.Runs.{Run, Run-Balanced}

-- ForceFps, as `Process` uses it.
abbrev fps_converter : Converter ForceFps
fps_converter = record { try_push = try_push_frame clamped; try_read = try_read_frame clamped }

abbrev end : ReadResult
end = record no_result { status = eof; time_base = tick }

abbrev fps : ForceFps
fps = record {
  capacity = 8;
  time_base = tick;
  stopped = false;
  inputs = [];
  last = none;
  last_used = false;
  last_input_pts = none;
  next_pts = none;
}

abbrev asked : Track
asked = record cleared { task = end; busy = true; requested = true }

abbrev taken : Track
taken = record cleared { busy = true }

abbrev holding : Worker
holding = record idle { holding = some end }

abbrev round : Round fps_converter (λ r. ok r) (λ r. ok r)
round = record {
  track = record cleared { needs_input = false; result = end; completed = true };
  worker = idle;
  state = fps;
}

prepare-asked : prepare clamped false cleared timing end (pos 0) ≡ ok (int64_max, asked, timing)
unfolding prepare
prepare-asked = refl

take-holding : take asked idle ≡ some (taken, holding)
unfolding take
take-holding = refl

finish-round : finish fps_converter (λ r. ok r) (λ r. ok r) taken holding fps end ≡ ok round
unfolding finish try_push_frame try_read_frame check_input read_inputs choose finish_output
    clear_history eqb_ℤ
finish-round = refl

abbrev offered : ForceFps
offered = record fps { inputs = end ∷ [] }

abbrev worked : Worked fps_converter (λ r. ok r) (λ r. ok r) holding fps end
worked = record {
  pending = end;
  pushed = true;
  offered = offered;
  raw = end;
  after = fps;
  output = end;
  filters = refl;
  offers = inr (refl, unfold try_push_frame check_input eqb_ℤ in refl);
  reads = unfold try_read_frame read_inputs choose finish_output clear_history eqb_ℤ in refl;
  refines = refl;
}

abbrev ledger : Ledger
ledger = record empty_ledger {
  sent = end ∷ [];
  taken = end ∷ [];
  filtered = end ∷ [];
  accepted = end ∷ [];
  made = end ∷ [];
}

Run-Balanced_example : Balanced round.track round.worker ledger
Run-Balanced_example =
    Run-Balanced fps_converter (λ r. ok r) (λ r. ok r) clamped platform formats
      (Run.finishes fps end round worked
        (Run.takes
          (Run.prepared false timing timing end (pos 0) _ (Run.started refl refl refl) prepare-asked
            refl)
          take-holding refl)
        refl finish-round refl)
