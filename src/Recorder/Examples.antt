-- ===== src/Recorder/Examples.antt =====
-- A short recording.
use mw_streamer.Base.{
  ltb_ℤ, leb_ℤ, eqb_ℤ, sub_uint64, to_uint64, ◌≡◌, refl, ◌⊎◌, true, false, none, some, [], ◌∷◌,
  ◌++◌, ℕ, ◌+◌, ◌%◌, ◌<◌, ◌≤◌, pos, ok, arith, uint64_mod,
}
use mw_streamer.Ffmpeg.{validate_stream}
use mw_streamer.Timestamps.Examples.{streams, picture}
use mw_streamer.Recorder.{
  Headers, RecorderConfig, Worker, Recorder, initial, start, validate, check_tracks, bad_path,
  begin, try_submit, packet_bytes, advance, drain,
}
use mw_streamer.Recorder.Ledger.{total, Accounts}
use mw_streamer.Recorder.Runs.{Run, made, started, submitted, advanced, Run-Accounts}
use mw_streamer.Recorder.Draining.{work, Finished, drain_finishes}
use mw_streamer.Recorder.Admission.{try_submit_outcome}

abbrev headers : Headers
headers = record { h264 = 27; hevc = 173; aac = 86018; packet_header = 104 }

-- Room for two packets of 114 bytes.
abbrev config : RecorderConfig
config = record { path = b'a' ∷ b'.' ∷ b'm' ∷ b'p' ∷ b'4' ∷ []; max_queue_bytes = 230 }

abbrev fresh : Recorder
fresh = begin initial streams config true

start_fresh : start headers initial streams config true ≡ ok (true, fresh)
unfolding start validate check_tracks bad_path validate_stream ltb_ℤ leb_ℤ eqb_ℤ
start_fresh = refl

start_bad_path :
    bad_path (b'r' ∷ b't' ∷ b':' ∷ b'/' ∷ b'/' ∷ b'a' ∷ b'.' ∷ b'm' ∷ b'p' ∷ b'4' ∷ []) ≡ true
unfolding bad_path
start_bad_path = refl

hidden_path : bad_path (b'd' ∷ b'/' ∷ b'.' ∷ b'm' ∷ b'p' ∷ b'4' ∷ []) ≡ true
unfolding bad_path
hidden_path = refl

fresh-Run : Run headers fresh [] [] 0
fresh-Run = started streams config true true fresh (made refl) refl (omega arith) start_fresh

abbrev queued : Recorder
queued = record fresh {
  queue = picture (pos 0) ∷ [];
  status = record fresh.status { queue_bytes = 114 };
}

submit_first : try_submit headers fresh (some (picture (pos 0))) ≡ ok (true, queued)
unfolding try_submit packet_bytes leb_ℤ eqb_ℤ sub_uint64 to_uint64
submit_first = refl

queued-Run : Run headers queued (picture (pos 0) ∷ []) [] 0
queued-Run = submitted (some (picture (pos 0))) true queued fresh-Run submit_first refl refl

abbrev opened : Recorder
opened = record queued { worker = Worker.waiting }

open_file : advance headers queued none ≡ some opened
unfolding advance
open_file = refl

opened-Run : Run headers opened (picture (pos 0) ∷ []) [] 0
opened-Run = advanced none opened queued-Run open_file refl

Run-Accounts_example : Accounts headers opened (picture (pos 0) ∷ []) [] 0
Run-Accounts_example = Run-Accounts headers opened (picture (pos 0) ∷ []) [] 0 opened-Run

drain_finishes_example :
    (n : ℕ) × (n ≤ 5) × Finished headers (work headers n (drain opened)) (picture (pos 0) ∷ []) 0
drain_finishes_example = drain_finishes headers opened (picture (pos 0) ∷ []) [] 0 opened-Run refl

try_submit_outcome_example :
    ((total headers opened.queue + packet_bytes headers (picture (pos 40)) ≤ 230)
      × ((t : Recorder) × (try_submit headers opened (some (picture (pos 40))) ≡ ok (true, t))
          × (t.queue ≡ opened.queue ++ picture (pos 40) ∷ [])
          × (t.status.dropped_packets ≡ 0)))
    ⊎ ((230 < total headers opened.queue + packet_bytes headers (picture (pos 40)))
        × ((t : Recorder) × (try_submit headers opened (some (picture (pos 40))) ≡ ok (false, t))
            × (t.queue ≡ opened.queue)
            × (t.status.dropped_packets ≡ (0 + 1) % uint64_mod)))
unfolding leb_ℤ eqb_ℤ
try_submit_outcome_example =
    try_submit_outcome headers opened (picture (pos 0) ∷ []) [] 0 opened-Run (picture (pos 40)) refl
      refl
