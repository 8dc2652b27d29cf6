-- ===== src/AvDecoder/Runs.antt =====
-- Runs of a decoder: the producer, the worker, the reader and the callers of RequestStop and Stop,
-- in any order of their sections.
use mw_streamer.Base.{
  Result, ◌≡◌, Bool, true, false, Option, none, some, List, [], ◌∷◌, ◌++◌, ℕ, ℤ, ok,
}
use mw_streamer.Ffmpeg.{TimeMath, StreamInfo}
use mw_streamer.Media.{ReadResult, ReadStatus, null_read}
use mw_streamer.AvDecoder.{
  AvDecoder, Admission, Reader, make, submit, finish_push, begin_read, pop_frame, end_read,
  mark_stopping, stop_packets, stop_frames, finish_stop, set_on_error, set_read_signal,
}
use mw_streamer.AvDecoder.Opening.{AvCodec}
use mw_streamer.AvDecoder.Loop.{Codec, Input}
use mw_streamer.AvDecoder.Worker.{work}

-- What a step has admitted to the decoder, and what it has handed to the reader.
pub record Moves : Type 0 where
  pub admitted : List Input
  pub delivered : List ReadResult

abbrev pub admits : Admission → Input → List Input
admits Admission.accepted input = input ∷ []
admits _ input = []

abbrev pub admits_if : Bool → Option Input → List Input
admits_if true (some input) = input ∷ []
admits_if _ _ = []

abbrev pub results : Option ReadResult → List ReadResult
results none = []
results (some r) = r ∷ []

-- What a reader has in its hand.
abbrev pub in_hand : Reader → List ReadResult
in_hand (Reader.got r) = results r
in_hand _ = []

-- What a result of ReadFrame is to its caller: a frame or an end, or nothing.
abbrev pub media : ReadStatus → ReadResult → List ReadResult
media null_read r = []
media _ r = r ∷ []

abbrev pub media_of : ReadResult → List ReadResult
media_of r = media r.status r

abbrev pub nothing : Moves
nothing = record { admitted = []; delivered = [] }

module _ {S : Type 0} (m : TimeMath) (info : StreamInfo) (c : Codec S) where
  -- One section of one thread; the Boolean says whether it is one of the worker. There is one
  -- producer and one reader, so that neither begins a call before its last one is over.
  pub data Step (s : AvDecoder S) : Bool → Moves → AvDecoder S → Type 0 where
    submits :
        (input : Input) (wait : Bool) (a : Admission) (t : AvDecoder S)
        → s.offered ≡ none
        → submit s input wait ≡ ok (a, t)
        → Step s false (record { admitted = admits a input; delivered = [] }) t
    finishes_push :
        (b : Bool) (t : AvDecoder S)
        → finish_push s ≡ some (b, t)
        → Step s false (record { admitted = admits_if b s.offered; delivered = [] }) t
    begins_read :
        (t : AvDecoder S) → s.reader ≡ Reader.away → t ≡ begin_read s → Step s false nothing t
    pops_frame :
        (wait : Bool) (t : AvDecoder S) → pop_frame s wait ≡ some t → Step s false nothing t
    ends_read :
        (r : ReadResult) (t : AvDecoder S)
        → end_read info s ≡ some (r, t)
        → Step s false (record { admitted = []; delivered = media_of r }) t
    works :
        (throws : Bool) (t : AvDecoder S) → work m info c s throws ≡ some t → Step s true nothing t
    marks : (t : AvDecoder S) → t ≡ mark_stopping s → Step s false nothing t
    closes_packets : (t : AvDecoder S) → stop_packets s ≡ some t → Step s false nothing t
    closes_frames : (t : AvDecoder S) → stop_frames s ≡ some t → Step s false nothing t
    finishes_stop : (t : AvDecoder S) → finish_stop s ≡ some t → Step s false nothing t
    sets_callback :
        (callback : Bool) (t : AvDecoder S) → t ≡ set_on_error s callback → Step s false nothing t
    sets_signal :
        (signal : Option ℕ) (t : AvDecoder S)
        → t ≡ set_read_signal s signal
        → Step s false nothing t

  -- A run of a decoder with the codec that it was given: the inputs that were admitted and the
  -- results that ReadFrame has returned.
  pub data Run (codec : S) : AvDecoder S → List Input → List ReadResult → Type 0 where
    made :
        (found : Result AvCodec) (packet_capacity frame_capacity : ℕ) (thread_count : ℤ)
        (s : AvDecoder S)
        → make found packet_capacity frame_capacity thread_count (ok codec) ≡ ok s
        → Run codec s [] []
    stepped :
        {s : AvDecoder S} {ins ins_next : List Input} {outs outs_next : List ReadResult}
        (worked : Bool) (moves : Moves) (t : AvDecoder S)
        → Run codec s ins outs
        → Step s worked moves t
        → ins_next ≡ ins ++ moves.admitted
        → outs_next ≡ outs ++ moves.delivered
        → Run codec t ins_next outs_next
