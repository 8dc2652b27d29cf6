-- ===== src/ForceFps/Branches.antt =====
-- The branches of a read: an input is returned, output in a new slot, or output again in the slot
-- that is due.
use mw_streamer.Base.{
  ◌≡◌, refl, ◌⊎◌, inl, inr, true, false, Option, none, some, List, [], ◌∷◌, ◌++◌, ℤ, pos, ◌+ℤ◌,
  ◌<ℤ◌, ◌≤ℤ◌, int64_max, ok, int_laws,
}
use mw_streamer.Ffmpeg.{TimeMath, IsBounded}
use mw_streamer.Media.{AvFrame, ReadResult, no_result, raw_of}
use mw_streamer.Media.ReadStatus.{frame_read, eof}
use mw_streamer.ForceFps.{
  ForceFps, choose, Choice, choose_slot, is_discontinuity, read_inputs, repeat_last, forward_input,
  stamp, remember, clear_history,
}
use mw_streamer.ForceFps.Accepted.{Timed, rescale-below, Finishes}

-- No history at all, or a picture, the PTS of the last input that was output, and a later slot.
pub record Running (last : Option ReadResult) (last_input next : Option ℤ) : Type 0 where
  pub kept : ReadResult
  pub picture : AvFrame
  pub input_pts : ℤ
  pub slot : ℤ
  pub kept_is : last ≡ some kept
  pub picture_is : raw_of kept.frame ≡ some picture
  pub input_is : last_input ≡ some input_pts
  pub slot_is : next ≡ some slot
  pub later : input_pts <ℤ slot
  pub bounded : slot ≤ℤ int64_max

abbrev pub IsHistory : Option ReadResult → Option ℤ → Option ℤ → Type 0
IsHistory last last_input next =
    ((last ≡ none) × (last_input ≡ none) × (next ≡ none)) ⊎ Running last last_input next

abbrev pub HasHistory : ForceFps → Type 0
HasHistory s = IsHistory s.last s.last_input_pts s.next_pts

module _ (m : TimeMath) where
  -- A frame that is output takes the slot that is due, or anchors a new sequence of slots: at the
  -- first frame, or at an input that is a discontinuity.
  pub record Slot (s : ForceFps) (out : ReadResult) (u : ForceFps) : Type 0 where
    pub frame : AvFrame
    pub given : out.frame ≡ some (some frame)
    pub base : frame.time_base ≡ s.time_base
    pub one_tick : frame.duration ≡ pos 1
    pub next : u.next_pts ≡ some (frame.pts +ℤ pos 1)
    pub anchored :
        (s.next_pts ≡ none)
        ⊎ ((s.next_pts ≡ some frame.pts)
            ⊎ (is_discontinuity m s.time_base s.last_input_pts frame.pts ≡ true))

  -- What a read that does not throw returns.
  abbrev pub ReadOutcome : ForceFps → ReadResult → ForceFps → Type 0
  ReadOutcome s out u =
      ((out ≡ no_result) × (u.inputs ≡ []) × (u.next_pts ≡ s.next_pts))
      ⊎ (((out.status ≡ eof) × (u.last ≡ none) × (u.next_pts ≡ none)) ⊎ Slot s out u)

  pub record ReadDone (s : ForceFps) (inputs : List ReadResult) (out : ReadResult) (u : ForceFps)
      : Type 0 where
    pub consumed : List ReadResult
    pub split : consumed ++ u.inputs ≡ inputs
    pub history : HasHistory u
    pub base_kept : u.time_base ≡ s.time_base
    pub capacity_kept : u.capacity ≡ s.capacity
    pub stopped_kept : u.stopped ≡ s.stopped
    pub outcome : ReadOutcome s out u

  abbrev pub Reads : ForceFps → List ReadResult → Type 0
  Reads s inputs =
      (out : ReadResult) × (u : ForceFps) × (read_inputs m s inputs ≡ ok (out, u))
      × ReadDone s inputs out u

  pub choose_eof :
      (s : ForceFps) (input : ReadResult) → input.status ≡ eof → choose m s input ≡ ok Choice.finish
  unfolding choose
  choose_eof s input e = rw e refl

  pub choose_frame :
      (s : ForceFps) (input : ReadResult)
      → input.status ≡ frame_read
      → (t : Timed m s.time_base input)
      → choose m s input
        ≡ ok
            (choose_slot m s.next_pts (is_discontinuity m s.time_base s.last_input_pts t.pts) t.pts)
  unfolding choose
  choose_frame s input e t = rw (e, t.found, t.scaled) refl

  pub finish-Reads :
      (s : ForceFps) (input : ReadResult) (rest : List ReadResult)
      → input.status ≡ eof
      → Finishes m s input
      → Reads s (input ∷ rest)
  unfolding read_inputs clear_history
  finish-Reads s input rest e (out, k, st) = (
    out,
    clear_history (record s { inputs = rest }),
    rw (read_inputs, choose_eof s input e, k) refl,
    record {
      consumed = input ∷ [];
      split = refl;
      history = inl (refl, refl, refl);
      base_kept = refl;
      capacity_kept = refl;
      stopped_kept = refl;
      outcome = inr (inl (rw e at st, refl, refl));
    },
  )

  pub forward-Reads :
      (laws : IsBounded m) (s : ForceFps) (input : ReadResult) (rest : List ReadResult)
      → (t : Timed m s.time_base input) → choose m s input ≡ ok (Choice.forward t.pts)
      → (s.next_pts ≡ none)
        ⊎ ((s.next_pts ≡ some t.pts)
            ⊎ (is_discontinuity m s.time_base s.last_input_pts t.pts ≡ true))
      → Reads s (input ∷ rest)
  unfolding read_inputs forward_input
  forward-Reads laws s input rest t e anchored = (
    record input {
      frame = some (some (stamp m s.time_base t.pts false t.frame));
      time_base = s.time_base;
    },
    record (remember (record s { inputs = rest }) input true) {
      last_input_pts = some t.pts;
      next_pts = some (t.pts +ℤ pos 1);
    },
    rw (read_inputs, e, t.found) refl,
    record {
      consumed = input ∷ [];
      split = refl;
      history = inr (record {
        kept = input;
        picture = t.frame;
        input_pts = t.pts;
        slot = t.pts +ℤ pos 1;
        kept_is = refl;
        picture_is = t.found;
        input_is = refl;
        slot_is = refl;
        later = omega int_laws;
        bounded = let (_, below) = rescale-below m laws _ _ _ _ t.scaled in omega (int_laws, below);
      });
      base_kept = refl;
      capacity_kept = refl;
      stopped_kept = refl;
      outcome = inr (
          inr (record {
            frame = stamp m s.time_base t.pts false t.frame;
            given = refl;
            base = refl;
            one_tick = refl;
            next = refl;
            anchored = anchored;
          }));
    },
  )

  pub repeat-Reads :
      (laws : IsBounded m) (s : ForceFps) (input : ReadResult) (rest : List ReadResult)
      → (t : Timed m s.time_base input) → (r : Running s.last s.last_input_pts s.next_pts)
      → r.slot <ℤ t.pts
      → choose m s input ≡ ok (Choice.repeat r.slot)
      → Reads s (input ∷ rest)
  unfolding read_inputs repeat_last
  repeat-Reads laws s input rest t r h e = (
    record r.kept {
      frame = some (some (stamp m s.time_base r.slot s.last_used r.picture));
      time_base = s.time_base;
    },
    record s { inputs = input ∷ rest; last_used = true; next_pts = some (r.slot +ℤ pos 1) },
    rw (read_inputs, e, r.kept_is, r.picture_is) refl,
    record {
      consumed = [];
      split = refl;
      history = inr (record {
        kept = r.kept;
        picture = r.picture;
        input_pts = r.input_pts;
        slot = r.slot +ℤ pos 1;
        kept_is = r.kept_is;
        picture_is = r.picture_is;
        input_is = r.input_is;
        slot_is = refl;
        later = let h = r.later in omega int_laws;
        bounded = let (_, below) = rescale-below m laws _ _ _ _ t.scaled in omega (int_laws, below);
      });
      base_kept = refl;
      capacity_kept = refl;
      stopped_kept = refl;
      outcome = inr (
          inr (record {
            frame = stamp m s.time_base r.slot s.last_used r.picture;
            given = refl;
            base = refl;
            one_tick = refl;
            next = refl;
            anchored = inr (inl r.slot_is);
          }));
    },
  )
