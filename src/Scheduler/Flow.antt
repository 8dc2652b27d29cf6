-- ===== src/Scheduler/Flow.antt =====
-- The flow of one track: what the driver hands over, and what the worker makes of it.
use mw_streamer.Base.{
  ◌≡◌, refl, ◌⊎◌, inl, inr, true, false, Bool, Bool-cases, none, some, List, [], ◌∷◌, ℤ, arith,
  if◌then◌else◌,
}
use mw_streamer.Media.{ReadResult}
use mw_streamer.Scheduler.{Track, Worker, cleared, idle, is_null, complete, dispatch}

-- An item, unless it is the empty read result.
abbrev pub items : ReadResult → List ReadResult
items r = if is_null r then [] else r ∷ []

-- The task of a track and the state of its worker agree, and a converted head stands alone.
pub record Agree (t : Track) (w : Worker) : Type 0 where
  pub task_asked : t.requested ≡ false → items t.task ≡ []
  pub asked_busy : t.requested ≡ true → (t.busy ≡ true) × (w.holding ≡ none)
  pub held_busy : w.holding ≡ none → t.requested ≡ false → t.busy ≡ false
  pub rest_empty : t.busy ≡ false → w.holding ≡ none
  pub done_idle : t.completed ≡ true → t.busy ≡ false
  pub result_done : t.completed ≡ false → items t.result ≡ []
  pub busy_alone : t.busy ≡ true → items t.head ≡ []
  pub done_alone : t.completed ≡ true → items t.head ≡ []
  pub input_next : t.busy ≡ false → t.needs_input ≡ true → items w.pending ≡ []
  pub task_alone : (items t.task ≡ []) ⊎ (items w.pending ≡ [])
  pub held_alone :
      (input : ReadResult) → w.holding ≡ some input → (items input ≡ []) ⊎ (items w.pending ≡ [])

pub cleared-Agree : Agree cleared idle
cleared-Agree = record {
  task_asked = λ _. refl;
  asked_busy = λ h. ground (arith, h);
  held_busy = λ _ _. refl;
  rest_empty = λ _. refl;
  done_idle = λ _. refl;
  result_done = λ _. refl;
  busy_alone = λ _. refl;
  done_alone = λ _. refl;
  input_next = λ _ _. refl;
  task_alone = inl refl;
  held_alone = λ _ _. inr refl;
}

pub complete-Agree : (t : Track) (w : Worker) (now : ℤ) → Agree t w → Agree (complete t now) w
complete-Agree t w now a = elim (Bool-cases t.completed) [
  | inl c ↦
      let not_busy = a.done_idle c in
      simp c (record {
        task_asked = a.task_asked;
        asked_busy = a.asked_busy;
        held_busy = a.held_busy;
        rest_empty = a.rest_empty;
        done_idle = λ h. ground (arith, h);
        result_done = λ _. refl;
        busy_alone = λ h. ground (arith, h, not_busy);
        done_alone = λ h. ground (arith, h);
        input_next = a.input_next;
        task_alone = a.task_alone;
        held_alone = a.held_alone;
      })
  | inr c ↦ simp c a
]

-- Handing over an input, or nothing, to a worker that waits for it.
pub dispatch-Agree :
    (stopping : Bool) (t : Track) (w : Worker) (input : ReadResult)
    → t.busy ≡ false
    → t.completed ≡ false
    → items t.head ≡ []
    → w.holding ≡ none
    → (items input ≡ []) ⊎ (items w.pending ≡ [])
    → Agree t w
    → Agree (dispatch stopping t input) w
dispatch-Agree true t w input b c h k i a = a
dispatch-Agree false t w input b c h k i a = record {
  task_asked = λ r. ground (arith, r);
  asked_busy = λ _. (refl, k);
  held_busy = λ _ r. ground (arith, r);
  rest_empty = λ _. k;
  done_idle = λ r. ground (arith, r, c);
  result_done = a.result_done;
  busy_alone = λ _. h;
  done_alone = λ _. h;
  input_next = λ r _. ground (arith, r);
  task_alone = i;
  held_alone = a.held_alone;
}
