-- ===== src/SyncerTiming/Delivery.antt =====
-- What Real and Fill do to their track.
use mw_streamer.Base.{
  ◌≡◌, refl, ap, ok-subst, ◌⊎◌, inl, inr, true, false, Bool, Option, none, some, ℤ, ◌+ℤ◌, ◌≤ℤ◌, ok,
  >>=-eq-ok, arith, ltb_ℤ_cases,
}
use mw_streamer.Ffmpeg.{TimeMath, AvRational}
use mw_streamer.Media.{AvFrame, ReadResult}
use mw_streamer.SyncerTiming.{
  SyncerConfig, SyncerStep, ContinuityClock, Track, stamp, OnOutput, add, clock_update, update_from,
  frame_of, admit,
}
use mw_streamer.SyncerTiming.Output.{real, real_accepted, duration_of, to_us}

-- A frame that goes out: it takes the slot `pts`, and the next slot is where it ends.
pub record Accepted (time_base : AvRational) (pts : ℤ) (out : SyncerStep) (u : Track) : Type 0 where
  pub frame : AvFrame
  pub given : out.frame ≡ some frame
  pub at : frame.pts ≡ pts
  pub base : frame.time_base ≡ time_base
  pub next : u.next ≡ some (pts +ℤ frame.duration)
  pub base_kept : u.time_base ≡ time_base
  pub flows : out.blocked ≡ false

-- A frame that the receiver refuses: the slot stays due.
pub record Refused (time_base : AvRational) (slot : Option ℤ) (out : SyncerStep) (u : Track)
    : Type 0 where
  pub nothing : out.frame ≡ none
  pub blocked : out.blocked ≡ true
  pub head_kept : out.consumed ≡ false
  pub slot_kept : u.next ≡ slot
  pub base_kept : u.time_base ≡ time_base

pub add-ok : (a b r : ℤ) → add a b ≡ ok r → r ≡ a +ℤ b
unfolding add
add-ok a b r h = ground arith

-- The shared media clock stands, or goes forward.
abbrev pub NotEarlier : Option ℤ → Option ℤ → Type 0
NotEarlier none q = Unit
NotEarlier (some p) q = (r : ℤ) × (q ≡ some r) × (p ≤ℤ r)

abbrev pub Later : ContinuityClock → ContinuityClock → Type 0
Later c d = NotEarlier c.pts d.pts

refl_from : (p : Option ℤ) → NotEarlier p p
refl_from none = tt
refl_from (some p) = (p, refl, omega arith)

pub Later-refl : (c : ContinuityClock) → Later c c
Later-refl c = refl_from c.pts

pub Later-trans : (c d e : ContinuityClock) → Later c d → Later d e → Later c e
Later-trans c d e h k = trans_from c.pts d.pts e.pts h k
  where
    trans_from : (p q r : Option ℤ) → NotEarlier p q → NotEarlier q r → NotEarlier p r
    trans_from none q r h k = tt
    trans_from (some p) none r h k = ground arith
    trans_from (some p) (some q) r (a, e, l) (b, f, n) = (b, f, ground (arith, e, l, n))

pub clock_update-Later : (c : ContinuityClock) (pts now : ℤ) → Later c (clock_update c pts now)
unfolding clock_update
clock_update-Later c pts now = later c.pts refl
  where
    later : (p : Option ℤ) → c.pts ≡ p → NotEarlier p (update_from p c pts now).pts
    later none e = tt
    later (some p) e = elim (ltb_ℤ_cases p pts) [
      | inl (k, l) ↦ rw k (pts, refl, omega arith)
      | inr (k, l) ↦ rw k (p, e, omega arith)
    ]

-- What a call of `Real` does: the frame takes the slot and the input is consumed, or the frame is
-- refused and nothing changes.
abbrev pub RealDone : Track → ContinuityClock → ℤ → SyncerStep → Track → ContinuityClock → Type 0
RealDone t c pts out u d =
    Later c d
    × (u.fill_until ≡ t.fill_until)
    × (u.filled ≡ t.filled)
    × ((Accepted t.time_base pts out u × (out.consumed ≡ true)) ⊎ Refused t.time_base t.next out u)

module _ (m : TimeMath) (config : SyncerConfig) where
  real_accepted_lem :
      (accepted : Bool) (t : Track) (video : Bool) (f : AvFrame) (pts duration now : ℤ)
      (c : ContinuityClock) (out : SyncerStep) (u : Track) (d : ContinuityClock)
      → real_accepted m config accepted t video (stamp t pts duration f) pts duration now c
        ≡ ok (out, u, d)
      → RealDone t c pts out u d
  real_accepted_lem false t video f pts duration now c out u d h =
      ok-subst (λ x. RealDone t c pts x.0 x.1 x.2) h
        (
          Later-refl c,
          refl,
          refl,
          inr (record {
            nothing = refl;
            blocked = refl;
            head_kept = refl;
            slot_kept = refl;
            base_kept = refl;
          }),
        )
  real_accepted_lem true t video f pts duration now c out u d h =
      let (next, e, h) = >>=-eq-ok (add pts duration) _ h in
      let (wait, _, h) = >>=-eq-ok (add now config.options.timeout) _ h in
      ok-subst (λ x. RealDone t c pts x.0 x.1 x.2) h
        (
          Later-refl c,
          refl,
          refl,
          inl (
            record {
              frame = stamp t pts duration f;
              given = refl;
              at = refl;
              base = refl;
              next = ap some (add-ok pts duration next e);
              base_kept = refl;
              flows = refl;
            },
            refl,
          ),
        )

  pub real_lem :
      (t : Track) (c : ContinuityClock) (video : Bool) (input : ReadResult) (pts now : ℤ)
      (on_output : OnOutput) (out : SyncerStep) (u : Track) (d : ContinuityClock)
      → real m config t c video input pts now on_output ≡ ok (out, u, d)
      → RealDone t c pts out u d
  unfolding real
  real_lem t c video input pts now on_output out u d h =
      let (f, _, h) = >>=-eq-ok (frame_of input) _ h in
      let (duration, _, h) = >>=-eq-ok (duration_of m config t video f) _ h in
      let (us, _, h) = >>=-eq-ok (to_us m pts t) _ h in
      let (accepted, _, h) = >>=-eq-ok (admit on_output (stamp t pts duration f)) _ h in
      let (l, until, filled, rest) =
        real_accepted_lem accepted t video f pts duration now (clock_update c us now) out u d h in
      (Later-trans c (clock_update c us now) d (clock_update-Later c us now) l, until, filled, rest)
