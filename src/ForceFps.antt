-- ===== src/ForceFps.antt =====
-- src/streamer/filter/force_fps.cc: the pull-driven conversion to a fixed frame rate.
pub mod Accepted
pub mod Jump
pub mod Branches
pub mod Read
pub mod Slots
pub mod Gap
pub mod Examples
use mw_streamer.Base.{
  ◌≡◌, Bool, true, false, not, ◌&&◌, ◌||◌, Option, none, some, List, [], ◌∷◌, ◌++◌, ℕ, ◌==◌, leb,
  length, ℤ, pos, ◌+ℤ◌, ◌-ℤ◌, ltb_ℤ, leb_ℤ, eqb_ℤ, int64_max, to_uint64, sub_uint64, Result, ok,
  err, invalid_argument, overflow_error, undefined, ◌>>=◌, ◌>>◌, throw_if, if◌then◌else◌, is_some,
}
use mw_streamer.Ffmpeg.{TimeMath, AvRational, nopts_value, valid_time_base}
use mw_streamer.Media.{AvFrame, Frame, ReadStatus, ReadResult, no_result, raw_of}
use mw_streamer.Media.ReadStatus.{frame_read, eof, null_read}

pub record ForceFps : Type 0 where
  pub capacity : ℕ
  pub time_base : AvRational
  pub stopped : Bool
  pub inputs : List ReadResult
  pub last : Option ReadResult
  pub last_used : Bool
  pub last_input_pts : Option ℤ
  pub next_pts : Option ℤ

-- The constructor. `av_reduce` writes a fraction in lowest terms, within int.
unfoldable pub make : (ℤ → ℤ → AvRational) → AvRational → ℕ → Result ForceFps
make av_reduce fps input_capacity = do
  throw_if (not (valid_time_base fps) || input_capacity == 0) invalid_argument
  ok (record {
    capacity = input_capacity;
    time_base = av_reduce fps.den fps.num;
    stopped = false;
    inputs = [];
    last = none;
    last_used = false;
    last_input_pts = none;
    next_pts = none;
  })

abbrev pub half_second : AvRational
half_second = record { num = pos 1; den = pos 2 }

unfoldable pub clear_history : ForceFps → ForceFps
clear_history s = record s {
  last = none;
  last_used = false;
  last_input_pts = none;
  next_pts = none;
}

abbrev pub remember : ForceFps → ReadResult → Bool → ForceFps
remember s input used = record s { last = some input; last_used = used }

module _ (m : TimeMath) where
  unfoldable pub rescale : ℤ → AvRational → AvRational → Result ℤ
  rescale pts from to =
      let result = m.rescale_q pts from to in
      if eqb_ℤ result nopts_value || eqb_ℤ result int64_max then err overflow_error else ok result

  abbrev bad_frame : Option AvFrame → AvRational → Bool
  bad_frame none time_base = true
  bad_frame (some f) time_base =
      not (eqb_ℤ f.nb_samples (pos 0))
      || (leb_ℤ f.width (pos 0)
          || (leb_ℤ f.height (pos 0)
              || (eqb_ℤ f.pts nopts_value || not (valid_time_base time_base))))

  -- `input.frame->get()->pts`.
  abbrev pts_of : Option AvFrame → Result ℤ
  pts_of none = err undefined
  pts_of (some f) = ok f.pts

  -- The tests on an input of each status, in their order.
  unfoldable pub check_input : AvRational → ReadStatus → ReadResult → Result (Unit {0})
  check_input time_base frame_read input = do
    throw_if (bad_frame (raw_of input.frame) input.time_base) invalid_argument
    pts ← pts_of (raw_of input.frame)
    _ ← rescale pts input.time_base time_base
    ok tt
  check_input time_base eof input = do
    throw_if
        (is_some input.frame
          || (not (eqb_ℤ input.end_pts nopts_value) && not (valid_time_base input.time_base)))
        invalid_argument
    if eqb_ℤ input.end_pts nopts_value
        then ok tt
        else do _ ← rescale input.end_pts input.time_base time_base; ok tt
  check_input time_base null_read input = err invalid_argument

  unfoldable pub try_push_frame : ForceFps → ReadResult → Result (Bool × ForceFps)
  try_push_frame s input =
      if s.stopped
      then ok (false, s)
      else if leb s.capacity (length s.inputs)
      then ok (false, s)
      else do
        check_input s.time_base input.status input
        ok (true, record s { inputs = s.inputs ++ input ∷ [] })

  -- Both operands are converted to std::uint64_t, so that no difference overflows.
  unfoldable pub is_discontinuity : AvRational → Option ℤ → ℤ → Bool
  is_discontinuity time_base none pts = false
  is_discontinuity time_base (some last) pts =
      let delta = pos (sub_uint64 (to_uint64 pts) (to_uint64 last)) in
      ltb_ℤ pts last
      || (ltb_ℤ int64_max delta
          || (ltb_ℤ (pos 1) delta
              && ltb_ℤ (pos 0) (m.compare_ts (delta -ℤ pos 1) time_base (pos 1) half_second)))

  abbrev pub stamp : AvRational → ℤ → Bool → AvFrame → AvFrame
  stamp time_base pts duplicate f = record f {
    pts = pts;
    best_effort_timestamp = pts;
    pkt_dts = nopts_value;
    time_base = time_base;
    duration = pos 1;
    closed_captions = f.closed_captions && not duplicate;
  }

  abbrev output_frame : AvRational → Option AvFrame → ReadResult → ℤ → Bool → Result ReadResult
  output_frame time_base none input pts duplicate = err undefined
  output_frame time_base (some f) input pts duplicate = ok (record input {
    frame = some (some (stamp time_base pts duplicate f));
    time_base = time_base;
  })

  -- `Output`.
  abbrev pub output : ForceFps → ReadResult → ℤ → Bool → Result ReadResult
  output s input pts duplicate = output_frame s.time_base (raw_of input.frame) input pts duplicate

  -- What the loop of `TryReadFrame` does with the input at the front.
  pub data Choice : Type 0 where
    finish skip : Choice
    repeat forward : ℤ → Choice

  -- The ladder of tests on a frame whose PTS is `pts` in the output time base.
  abbrev pub choose_slot : Option ℤ → Bool → ℤ → Choice
  choose_slot none discontinuity pts = Choice.forward pts
  choose_slot (some next) true pts = Choice.forward pts
  choose_slot (some next) false pts =
      if ltb_ℤ pts next
      then Choice.skip
      else if ltb_ℤ next pts
      then Choice.repeat next
      else Choice.forward pts

  abbrev choose_status : ForceFps → ReadResult → ReadStatus → Result Choice
  choose_status s input eof = ok Choice.finish
  choose_status s input _ = do
    raw ← pts_of (raw_of input.frame)
    pts ← rescale raw input.time_base s.time_base
    ok (choose_slot s.next_pts (is_discontinuity s.time_base s.last_input_pts pts) pts)

  unfoldable pub choose : ForceFps → ReadResult → Result Choice
  choose s input = choose_status s input input.status

  -- The output of an EOF, with its end in the output time base.
  unfoldable pub finish_output : ForceFps → ReadResult → Result ReadResult
  finish_output s input =
      if eqb_ℤ input.end_pts nopts_value then ok (record input { time_base = s.time_base }) else do
        end_pts ← rescale input.end_pts input.time_base s.time_base
        ok (record input { end_pts = end_pts; time_base = s.time_base })

  -- Repeats the picture that `last_` holds.
  unfoldable pub repeat_last : ForceFps → Option ReadResult → ℤ → Result (ReadResult × ForceFps)
  repeat_last s none next = err undefined
  repeat_last s (some last) next = do
    out ← output s last next s.last_used
    ok (out, record s { last_used = true; next_pts = some (next +ℤ pos 1) })

  unfoldable pub forward_input : ForceFps → ReadResult → ℤ → Result (ReadResult × ForceFps)
  forward_input s input pts = do
    out ← output s input pts false
    ok (
      out,
      record (remember s input true) { last_input_pts = some pts; next_pts = some (pts +ℤ pos 1) },
    )

  -- The loop of `TryReadFrame`, on the inputs that are left.
  unfoldable pub read_inputs : ForceFps → List ReadResult → Result (ReadResult × ForceFps)
  read_inputs s [] = ok (no_result, record s { inputs = [] })
  read_inputs s (input ∷ rest) = elim (choose s input) [
    | err e ↦ err e
    | ok c ↦ elim c [
      | Choice.finish ↦ do
        out ← finish_output s input
        ok (out, clear_history (record s { inputs = rest }))
      | Choice.skip ↦ read_inputs (remember s input false) rest
      | Choice.repeat next ↦ repeat_last (record s { inputs = input ∷ rest }) s.last next
      | Choice.forward pts ↦ forward_input (record s { inputs = rest }) input pts
    ]
  ]

  unfoldable pub try_read_frame : ForceFps → Result (ReadResult × ForceFps)
  try_read_frame s = if s.stopped then ok (no_result, s) else read_inputs s s.inputs

unfoldable pub stop : ForceFps → ForceFps
stop s = if s.stopped then s else clear_history (record s { stopped = true; inputs = [] })

unfoldable pub reset : ForceFps → ForceFps
reset s = clear_history (record s { inputs = []; stopped = false })
