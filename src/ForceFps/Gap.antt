-- ===== src/ForceFps/Gap.antt =====
-- Reads over a gap between two input frames.
use mw_streamer.Base.{
  ◌≡◌, refl, ap, Bool, ◌∙◌, true, false, some, List, [], ◌∷◌, ℕ, zero, suc, ℤ, pos, ◌+ℤ◌, ◌<ℤ◌,
  Result, ok, ◌>>=◌, arith, int_laws, parts_of_eq, ltb_ℤ_cases,
}
use mw_streamer.Ffmpeg.{TimeMath, AvRational}
use mw_streamer.Media.{AvFrame, ReadResult, raw_of}
use mw_streamer.Media.ReadStatus.{frame_read}
use mw_streamer.ForceFps.{
  ForceFps, try_read_frame, read_inputs, repeat_last, forward_input, choose, choose_slot, Choice,
  is_discontinuity, stamp, remember,
}
use mw_streamer.ForceFps.Accepted.{Timed}
use mw_streamer.ForceFps.Branches.{choose_frame}

module _ (m : TimeMath) where
  -- `count` reads, one after the other: what they return, and the state that they leave.
  abbrev pub reads : ℕ → ForceFps → Result (List ReadResult × ForceFps)
  reads zero s = ok ([], s)
  reads (suc count) s = do
    (out, next) ← try_read_frame m s
    (outs, end) ← reads count next
    ok (out ∷ outs, end)

  -- The frame `picture` in `count` slots from `first` on. Only the first can carry closed captions.
  abbrev pub repeats : AvRational → ReadResult → AvFrame → Bool → ℤ → ℕ → List ReadResult
  repeats time_base kept picture used first zero = []
  repeats time_base kept picture used first (suc count) =
      record kept {
        frame = some (some (stamp m time_base first used picture));
        time_base = time_base;
      }
      ∷ repeats time_base kept picture true (first +ℤ pos 1) count

  -- A state in which a slot is due, and a frame that is no discontinuity is at the front.
  pub record Due (s : ForceFps) (slot : ℤ) (kept : ReadResult) (picture : AvFrame)
      (input : ReadResult) (rest : List ReadResult) (t : Timed m s.time_base input) : Type 0 where
    pub open_yet : s.stopped ≡ false
    pub front : s.inputs ≡ input ∷ rest
    pub kept_is : s.last ≡ some kept
    pub picture_is : raw_of kept.frame ≡ some picture
    pub slot_is : s.next_pts ≡ some slot
    pub is_frame : input.status ≡ frame_read
    pub continues : is_discontinuity m s.time_base s.last_input_pts t.pts ≡ false

  abbrev filled : ForceFps → List ReadResult → ℤ → ForceFps
  filled s inputs slot = record s {
    inputs = inputs;
    last_used = true;
    next_pts = some (slot +ℤ pos 1);
  }

  module _ (kept : ReadResult) (picture : AvFrame) (input : ReadResult)
      (rest : List ReadResult) where
    Due-choose :
        (s : ForceFps) (slot : ℤ) (t : Timed m s.time_base input)
        → Due s slot kept picture input rest t
        → choose m s input ≡ ok (choose_slot m (some slot) false t.pts)
    Due-choose s slot t d = choose_frame m s input d.is_frame t ∙ rw (d.slot_is, d.continues) refl

    read_front :
        (s : ForceFps)
        → s.stopped ≡ false
        → s.inputs ≡ input ∷ rest
        → try_read_frame m s ≡ read_inputs m s (input ∷ rest)
    unfolding try_read_frame
    read_front s e f = simp (e, f) refl

    read_repeat :
        (s : ForceFps) (slot : ℤ)
        → choose m s input ≡ ok (Choice.repeat slot)
        → s.last ≡ some kept
        → raw_of kept.frame ≡ some picture
        → read_inputs m s (input ∷ rest)
          ≡ ok (
            record kept {
              frame = some (some (stamp m s.time_base slot s.last_used picture));
              time_base = s.time_base;
            },
            filled s (input ∷ rest) slot,
          )
    unfolding read_inputs repeat_last
    read_repeat s slot e l p = rw (read_inputs, e, l, p) refl

    read_forward :
        (s : ForceFps) (t : Timed m s.time_base input)
        → choose m s input ≡ ok (Choice.forward t.pts)
        → (u : ForceFps) × (read_inputs m s (input ∷ rest)
            ≡ ok (
              record input {
                frame = some (some (stamp m s.time_base t.pts false t.frame));
                time_base = s.time_base;
              },
              u,
            ))
          × (u.inputs ≡ rest)
    unfolding read_inputs forward_input
    read_forward s t e = (
      record (remember (record s { inputs = rest }) input true) {
        last_input_pts = some t.pts;
        next_pts = some (t.pts +ℤ pos 1);
      },
      rw (read_inputs, e, t.found) refl,
      refl,
    )

    repeat_step :
        (s : ForceFps) (slot : ℤ) (t : Timed m s.time_base input)
        → Due s slot kept picture input rest t
        → slot <ℤ t.pts
        → try_read_frame m s
          ≡ ok (
            record kept {
              frame = some (some (stamp m s.time_base slot s.last_used picture));
              time_base = s.time_base;
            },
            filled s (input ∷ rest) slot,
          )
    repeat_step s slot t d h =
        let k : choose_slot m (some slot) false t.pts ≡ Choice.repeat slot =
          ground (arith, ltb_ℤ_cases t.pts slot, ltb_ℤ_cases slot t.pts) in
        read_front s d.open_yet d.front
        ∙ read_repeat s slot (Due-choose s slot t d ∙ ap ok k) d.kept_is d.picture_is

    last_step :
        (s : ForceFps) (slot : ℤ) (t : Timed m s.time_base input)
        → Due s slot kept picture input rest t
        → t.pts ≡ slot
        → (u : ForceFps) × (try_read_frame m s
            ≡ ok (
              record input {
                frame = some (some (stamp m s.time_base t.pts false t.frame));
                time_base = s.time_base;
              },
              u,
            ))
          × (u.inputs ≡ rest)
    last_step s slot t d h =
        let k : choose_slot m (some slot) false t.pts ≡ Choice.forward t.pts =
          ground (arith, h, ltb_ℤ_cases t.pts slot, ltb_ℤ_cases slot t.pts) in
        let (u, e, i) = read_forward s t (Due-choose s slot t d ∙ ap ok k) in
        (u, read_front s d.open_yet d.front ∙ e, i)

    filled-Due :
        (s : ForceFps) (slot : ℤ) (t : Timed m s.time_base input)
        → Due s slot kept picture input rest t
        → Due (filled s (input ∷ rest) slot) (slot +ℤ pos 1) kept picture input rest t
    filled-Due s slot t d = record {
      open_yet = d.open_yet;
      front = refl;
      kept_is = d.kept_is;
      picture_is = d.picture_is;
      slot_is = refl;
      is_frame = d.is_frame;
      continues = d.continues;
    }

    -- Where the frame at the front is `count` slots after the slot that is due and no
    -- discontinuity, `count` reads return the picture that is kept, in each slot of the gap once,
    -- and the next read returns the frame in its own slot and takes it off the queue.
    pub fill_gap :
        (count : ℕ) (s : ForceFps) (slot : ℤ) (t : Timed m s.time_base input)
        → Due s slot kept picture input rest t
        → t.pts ≡ slot +ℤ pos count
        → (mid u : ForceFps) × (reads count s
            ≡ ok (repeats s.time_base kept picture s.last_used slot count, mid))
          × (try_read_frame m mid
              ≡ ok (
                record input {
                  frame = some (some (stamp m s.time_base t.pts false t.frame));
                  time_base = s.time_base;
                },
                u,
              ))
          × (u.inputs ≡ rest)
    fill_gap zero s slot t d e =
        let (u, k, i) = last_step s slot t d (omega (int_laws, parts_of_eq _ _ e)) in
        (s, u, refl, k, i)
    fill_gap (suc count) s slot t d e =
        let step = repeat_step s slot t d (omega (int_laws, parts_of_eq _ _ e)) in
        let (mid, u, more, k, i) =
          fill_gap count (filled s (input ∷ rest) slot) (slot +ℤ pos 1) t (filled-Due s slot t d)
            (omega (int_laws, parts_of_eq _ _ e)) in
        (mid, u, rw (step, more) refl, k, i)
