-- ===== src/ForceFps/Read.antt =====
-- Reads of a queue whose inputs passed the tests: the skipped inputs, and the whole loop.
use mw_streamer.Base.{
  ◌≡◌, refl, ap, ◌∙◌, ◌⊎◌, inl, inr, true, false, Option, some, List, [], ◌∷◌, All, ℤ, ◌<ℤ◌,
  ltb_ℤ_cases, ok, arith, eq_of_parts, Bool,
}
use mw_streamer.Ffmpeg.{TimeMath, IsBounded}
use mw_streamer.Media.{ReadResult, no_result}
use mw_streamer.Media.ReadStatus.{frame_read}
use mw_streamer.ForceFps.{
  ForceFps, choose, Choice, choose_slot, is_discontinuity, read_inputs, remember,
}
use mw_streamer.ForceFps.Accepted.{IsAccepted, accepted-Passed, Timed}
use mw_streamer.ForceFps.Branches.{
  Running, HasHistory, ReadOutcome, Reads, choose_frame, finish-Reads, forward-Reads, repeat-Reads,
}

module _ (m : TimeMath) where
  -- Skipping an input changes nothing that the outcome of the read depends on.
  skip-ReadOutcome :
      (s : ForceFps) (input : ReadResult) (out : ReadResult) (u : ForceFps)
      → ReadOutcome m (remember s input false) out u
      → ReadOutcome m s out u
  skip-ReadOutcome s input out u (inl h) = inl h
  skip-ReadOutcome s input out u (inr (inl h)) = inr (inl h)
  skip-ReadOutcome s input out u (inr (inr h)) = inr (
      inr (record {
        frame = h.frame;
        given = h.given;
        base = h.base;
        one_tick = h.one_tick;
        next = h.next;
        anchored = h.anchored;
      }))

  skip-Reads :
      (s : ForceFps) (input : ReadResult) (rest : List ReadResult)
      → choose m s input ≡ ok Choice.skip
      → Reads m (remember s input false) rest
      → Reads m s (input ∷ rest)
  unfolding read_inputs
  skip-Reads s input rest e (out, u, k, d) = (
    out,
    u,
    rw (read_inputs, e) k,
    record {
      consumed = input ∷ d.consumed;
      split = rw d.split refl;
      history = d.history;
      base_kept = d.base_kept;
      capacity_kept = d.capacity_kept;
      stopped_kept = d.stopped_kept;
      outcome = skip-ReadOutcome s input out u d.outcome;
    },
  )

  skip_history :
      (s : ForceFps) (input : ReadResult)
      → Timed m s.time_base input
      → Running s.last s.last_input_pts s.next_pts
      → HasHistory (remember s input false)
  skip_history s input t r = inr (record {
    kept = input;
    picture = t.frame;
    input_pts = r.input_pts;
    slot = r.slot;
    kept_is = refl;
    picture_is = t.found;
    input_is = r.input_is;
    slot_is = r.slot_is;
    later = r.later;
    bounded = r.bounded;
  })

  -- What the ladder picks for a frame, when a slot is due.
  running_cases :
      (next : Option ℤ) (slot pts : ℤ) (jump : Bool)
      → next ≡ some slot
      → ((choose_slot m next jump pts ≡ Choice.forward pts) × ((next ≡ some pts) ⊎ (jump ≡ true)))
        ⊎ (((choose_slot m next jump pts ≡ Choice.repeat slot) × (slot <ℤ pts))
            ⊎ (choose_slot m next jump pts ≡ Choice.skip))
  running_cases next slot pts true e = inl (rw e refl, inr refl)
  running_cases next slot pts false e =
      ground (arith, e, eq_of_parts slot pts, ltb_ℤ_cases pts slot, ltb_ℤ_cases slot pts)

  module _ (laws : IsBounded m) where
    frame-Reads :
        (s : ForceFps) (input : ReadResult) (rest : List ReadResult)
        → input.status ≡ frame_read
        → Timed m s.time_base input
        → HasHistory s
        → (HasHistory (remember s input false) → Reads m (remember s input false) rest)
        → Reads m s (input ∷ rest)
    frame-Reads s input rest e t (inl (_, _, n)) more =
        forward-Reads m laws s input rest t (choose_frame m s input e t ∙ rw n refl) (inl n)
    frame-Reads s input rest e t (inr r) more =
        elim (running_cases s.next_pts r.slot t.pts
          (is_discontinuity m s.time_base s.last_input_pts t.pts) r.slot_is) [
            | inl (k, anchored) ↦
                forward-Reads m laws s input rest t (choose_frame m s input e t ∙ ap ok k)
                  (inr anchored)
            | inr (inl (k, h)) ↦
                repeat-Reads m laws s input rest t r h (choose_frame m s input e t ∙ ap ok k)
            | inr (inr k) ↦
                skip-Reads s input rest (choose_frame m s input e t ∙ ap ok k)
                  (more (skip_history s input t r))
          ]

    pub read_inputs-Reads :
        (s : ForceFps) (inputs : List ReadResult)
        → All (IsAccepted m s.time_base) inputs
        → HasHistory s
        → Reads m s inputs
    unfolding read_inputs
    read_inputs-Reads s [] a h = (
      no_result,
      record s { inputs = [] },
      refl,
      record {
        consumed = [];
        split = refl;
        history = h;
        base_kept = refl;
        capacity_kept = refl;
        stopped_kept = refl;
        outcome = inl (refl, refl, refl);
      },
    )
    read_inputs-Reads s (input ∷ rest) a h = elim (accepted-Passed m s input a.0) [
      | inl (e, k) ↦ finish-Reads m s input rest e k
      | inr (e, t) ↦
          frame-Reads s input rest e t h
            (λ g. read_inputs-Reads (remember s input false) rest a.1 g)
    ]
