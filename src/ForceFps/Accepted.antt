-- ===== src/ForceFps/Accepted.antt =====
-- What the tests of `TryPushFrame` guarantee for an input of the queue.
use mw_streamer.Base.{
  ◌≡◌, refl, ◌⊎◌, inl, inr, Bool-cases, Option, none, some, ℤ, ◌<ℤ◌, eqb_ℤ, int64_max, IsInt64, ok,
  err, overflow_error, arith,
}
use mw_streamer.Ffmpeg.{TimeMath, IsBounded, AvRational, nopts_value}
use mw_streamer.Media.{AvFrame, ReadStatus, ReadResult, raw_of}
use mw_streamer.Media.ReadStatus.{frame_read, eof, null_read}
use mw_streamer.ForceFps.{ForceFps, rescale, check_input, finish_output}

module _ (m : TimeMath) where
  abbrev pub IsAccepted : AvRational → ReadResult → Type 0
  IsAccepted time_base input = check_input m time_base input.status input ≡ ok tt

  pub rescale_cases :
      (a : ℤ) (p q : AvRational)
      → (rescale m a p q ≡ ok (m.rescale_q a p q)) ⊎ (rescale m a p q ≡ err overflow_error)
  unfolding rescale
  rescale_cases a p q = ground arith

  -- A result that does not throw is below the largest int64_t.
  pub rescale-below :
      (laws : IsBounded m) (a : ℤ) (p q : AvRational) (r : ℤ)
      → rescale m a p q ≡ ok r
      → (IsInt64 r) × (r <ℤ int64_max)
  unfolding rescale eqb_ℤ
  rescale-below laws a p q r h =
      let b = laws.rescale_bounds a p q in ground (arith, b.above, b.below)

  -- An accepted frame, with its PTS in the output time base.
  pub record Timed (time_base : AvRational) (input : ReadResult) : Type 0 where
    pub frame : AvFrame
    pub found : raw_of input.frame ≡ some frame
    pub pts : ℤ
    pub scaled : rescale m frame.pts input.time_base time_base ≡ ok pts

  frame-Timed :
      (time_base : AvRational) (input : ReadResult) (f : Option AvFrame)
      → raw_of input.frame ≡ f
      → check_input m time_base frame_read input ≡ ok tt
      → Timed time_base input
  unfolding check_input
  frame-Timed time_base input none e h = ground (arith, e)
  frame-Timed time_base input (some f) e h = elim (rescale_cases f.pts input.time_base time_base) [
    | inl k ↦ record { frame = f; found = e; pts = _; scaled = k }
    | inr k ↦ ground (arith, e, k)
  ]

  -- The output of an EOF whose end can be converted.
  abbrev pub Finishes : ForceFps → ReadResult → Type 0
  Finishes s input =
      (out : ReadResult) × (finish_output m s input ≡ ok out) × (out.status ≡ input.status)

  finish_lem :
      (s : ForceFps) (input : ReadResult)
      → check_input m s.time_base eof input ≡ ok tt
      → Finishes s input
  unfolding check_input finish_output
  finish_lem s input h = elim (Bool-cases (eqb_ℤ input.end_pts nopts_value)) [
    | inl e ↦ (record input { time_base = s.time_base }, rw e refl, refl)
    | inr e ↦ elim (rescale_cases input.end_pts input.time_base s.time_base) [
      | inl k ↦ (
        record input {
          end_pts = m.rescale_q input.end_pts input.time_base s.time_base;
          time_base = s.time_base;
        },
        rw (e, k) refl,
        refl,
      )
      | inr k ↦ ground (arith, e, k)
    ]
  ]

  -- An input that passed the tests is a frame with a PTS, or an EOF whose end can be converted.
  abbrev pub Passed : ForceFps → ReadResult → Type 0
  Passed s input =
      ((input.status ≡ eof) × Finishes s input)
      ⊎ ((input.status ≡ frame_read) × Timed s.time_base input)

  status-Passed :
      (s : ForceFps) (input : ReadResult) (st : ReadStatus)
      → input.status ≡ st
      → check_input m s.time_base st input ≡ ok tt
      → Passed s input
  unfolding check_input
  status-Passed s input frame_read e h =
      inr (e, frame-Timed s.time_base input (raw_of input.frame) refl h)
  status-Passed s input eof e h = inl (e, finish_lem s input h)
  status-Passed s input null_read e h = ground arith

  pub accepted-Passed :
      (s : ForceFps) (input : ReadResult) → IsAccepted s.time_base input → Passed s input
  accepted-Passed s input h = status-Passed s input input.status refl h
