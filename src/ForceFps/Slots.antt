-- ===== src/ForceFps/Slots.antt =====
-- Runs of the converter: the invariant, and the slots of what it returns.
use mw_streamer.Base.{
  ◌≡◌, refl, ◌⊎◌, inl, inr, true, false, none, [], ◌∷◌, ◌++◌, All, All-split, All-append, subst,
  sym, ℕ, ◌≤◌, leb, length, length-append, ℤ, ok, arith, Bool, Bool-cases,
}
use mw_streamer.Ffmpeg.{TimeMath, IsBounded, AvRational}
use mw_streamer.Media.{ReadResult, no_result}
use mw_streamer.ForceFps.{
  ForceFps, make, try_push_frame, try_read_frame, stop, reset, clear_history,
}
use mw_streamer.ForceFps.Accepted.{IsAccepted}
use mw_streamer.ForceFps.Branches.{HasHistory, ReadDone}
use mw_streamer.ForceFps.Read.{read_inputs-Reads}

module _ (m : TimeMath) where
  pub record Inv (s : ForceFps) : Type 0 where
    pub accepted : All (IsAccepted m s.time_base) s.inputs
    pub bounded : length s.inputs ≤ s.capacity
    pub history : HasHistory s
    pub cleared : s.stopped ≡ true → s.inputs ≡ []

  -- A run of the converter: every call that did not throw, in any order.
  pub data Run (av_reduce : ℤ → ℤ → AvRational) : ForceFps → Type 0 where
    made :
        {s : ForceFps} (fps : AvRational) (capacity : ℕ)
        → make av_reduce fps capacity ≡ ok s
        → Run av_reduce s
    pushed :
        {r s : ForceFps} (input : ReadResult) (taken : Bool)
        → Run av_reduce r
        → try_push_frame m r input ≡ ok (taken, s)
        → Run av_reduce s
    read :
        {r s : ForceFps} (out : ReadResult)
        → Run av_reduce r
        → try_read_frame m r ≡ ok (out, s)
        → Run av_reduce s
    stopped : {r s : ForceFps} → Run av_reduce r → s ≡ stop r → Run av_reduce s
    was_reset : {r s : ForceFps} → Run av_reduce r → s ≡ reset r → Run av_reduce s

  made_state :
      (av_reduce : ℤ → ℤ → AvRational) (fps : AvRational) (capacity : ℕ) (s : ForceFps)
      → make av_reduce fps capacity ≡ ok s
      → (s.inputs ≡ []) × (s.last ≡ none) × (s.last_input_pts ≡ none) × (s.next_pts ≡ none)
  unfolding make
  made_state av_reduce fps capacity s h = (ground arith, ground arith, ground arith, ground arith)

  empty-Inv :
      (s : ForceFps)
      → s.inputs ≡ []
      → s.last ≡ none
      → s.last_input_pts ≡ none
      → s.next_pts ≡ none
      → Inv s
  empty-Inv s i l p n = record {
    accepted = rw i tt;
    bounded = rw i (omega arith);
    history = inl (l, p, n);
    cleared = λ _. i;
  }

  -- What an accepted push does.
  pushed_cases :
      (r : ForceFps) (input : ReadResult) (taken : Bool) (s : ForceFps)
      → try_push_frame m r input ≡ ok (taken, s)
      → (s ≡ r)
        ⊎ ((s ≡ record r { inputs = r.inputs ++ input ∷ [] })
            × (r.stopped ≡ false)
            × (leb r.capacity (length r.inputs) ≡ false)
            × IsAccepted m r.time_base input)
  unfolding try_push_frame
  pushed_cases r input taken s h = ground arith

  push-Inv :
      (r : ForceFps) (input : ReadResult) (taken : Bool) (s : ForceFps)
      → Inv r
      → try_push_frame m r input ≡ ok (taken, s)
      → Inv s
  push-Inv r input taken s v h = elim (pushed_cases r input taken s h) [
    | inl e ↦ subst Inv (sym e) v
    | inr (e, open_yet, room, a) ↦ subst Inv (sym e) (record {
      accepted = All-append _ r.inputs (input ∷ []) v.accepted (a, tt);
      bounded = let n = length-append r.inputs (input ∷ []) in ground (arith, n, room);
      history = v.history;
      cleared = λ c. cc;
    })
  ]

  stop-Inv : (s : ForceFps) → Inv s → Inv (stop s)
  unfolding stop clear_history
  stop-Inv s v = elim (Bool-cases s.stopped) [
    | inl e ↦ simp e v
    | inr e ↦
        rw e
          (empty-Inv (clear_history (record s { stopped = true; inputs = [] })) refl refl refl refl)
  ]

  reset-Inv : (s : ForceFps) → Inv s → Inv (reset s)
  unfolding reset clear_history
  reset-Inv s v =
      empty-Inv (clear_history (record s { inputs = []; stopped = false })) refl refl refl refl

  -- What a read does in a state that keeps the invariant.
  abbrev pub ReadsNext : ForceFps → Type 0
  ReadsNext s =
      ((s.stopped ≡ true) × (try_read_frame m s ≡ ok (no_result, s)))
      ⊎ ((s.stopped ≡ false)
          × ((out : ReadResult) × (u : ForceFps) × (try_read_frame m s ≡ ok (out, u))
              × ReadDone m s s.inputs out u))

  Inv-ReadsNext : IsBounded m → (s : ForceFps) → Inv s → ReadsNext s
  unfolding try_read_frame
  Inv-ReadsNext laws s v = elim (Bool-cases s.stopped) [
    | inl e ↦ inl (e, simp e refl)
    | inr e ↦
        let (out, u, k, d) = read_inputs-Reads m laws s s.inputs v.accepted v.history in
        inr (e, (out, u, simp e k, d))
  ]

  done-Inv :
      (s : ForceFps) (out : ReadResult) (u : ForceFps)
      → Inv s
      → s.stopped ≡ false
      → ReadDone m s s.inputs out u
      → Inv u
  done-Inv s out u v f d = record {
    accepted =
        subst (λ b. All (IsAccepted m b) u.inputs) (sym d.base_kept)
          (All-split (IsAccepted m s.time_base) d.consumed u.inputs
            (subst (All (IsAccepted m s.time_base)) (sym d.split) v.accepted)).1;
    bounded =
        let n = length-append d.consumed u.inputs in
        let b = v.bounded in
        let e = d.split in let c = d.capacity_kept in ground (arith, n, b, e, c);
    history = d.history;
    cleared = λ c. let k = d.stopped_kept in cc;
  }

  read-Inv :
      (laws : IsBounded m) (r : ForceFps) (out : ReadResult) (s : ForceFps)
      → Inv r
      → try_read_frame m r ≡ ok (out, s)
      → Inv s
  read-Inv laws r out s v h = elim (Inv-ReadsNext laws r v) [
    | inl (e, k) ↦ subst Inv (ground (arith, h, k)) v
    | inr (e, (o, u, k, d)) ↦ subst Inv (ground (arith, h, k)) (done-Inv r o u v e d)
  ]

  -- Every run of the converter keeps the invariant.
  pub Run-Inv :
      (laws : IsBounded m) {av_reduce : ℤ → ℤ → AvRational} {s : ForceFps} → Run av_reduce s → Inv s
  Run-Inv laws (made {s} fps capacity h) =
      let (i, l, p, n) = made_state _ fps capacity s h in empty-Inv s i l p n
  Run-Inv laws (pushed {r} {s} input taken before h) =
      push-Inv r input taken s (Run-Inv laws before) h
  Run-Inv laws (read {r} {s} out before h) = read-Inv laws r out s (Run-Inv laws before) h
  Run-Inv laws (stopped {r} {s} before e) = subst Inv (sym e) (stop-Inv r (Run-Inv laws before))
  Run-Inv laws (was_reset {r} {s} before e) = subst Inv (sym e) (reset-Inv r (Run-Inv laws before))

  -- In every run, a read does not throw. It takes a front part of the queue, keeps the picture to
  -- repeat with a slot that is due, and returns the slot that is due, unless it anchors a new
  -- sequence of slots at the first frame or at a discontinuity; or it returns an EOF and forgets
  -- the history; or it returns nothing, as the queue is used up or the converter is stopped.
  pub Run-ReadsNext :
      (laws : IsBounded m) (av_reduce : ℤ → ℤ → AvRational) (s : ForceFps)
      → Run av_reduce s
      → ReadsNext s
  Run-ReadsNext laws av_reduce s h = Inv-ReadsNext laws s (Run-Inv laws h)
