-- ===== src/Signals/Retained.antt =====
-- `WaitUntil` and `Notify`: a notification between the look at the revision and the wait.
use mw_streamer.Base.{
  ◌≡◌, ◌≢◌, refl, true, false, some, ℕ, zero, suc, ◌+◌, ◌%◌, ◌<◌, uint64_mod, arith,
}
use mw_streamer.Signals.{WaitSignal, notify, changed, wait_until}

-- The signal after some notifications.
abbrev pub notified : ℕ → WaitSignal → WaitSignal
notified zero s = s
notified (suc n) s = notify (notified n s)

notified-revision :
    (n : ℕ) (s : WaitSignal)
    → s.revision < uint64_mod
    → (notified n s).revision ≡ (s.revision + n) % uint64_mod
unfolding notify
notified-revision zero s h = omega arith
notified-revision (suc n) s h = omega (arith, notified-revision n s h)

changed_lem : (t : WaitSignal) (r : ℕ) → t.revision ≢ r → changed t r ≡ true
unfolding changed
changed_lem t r h = ground arith

-- After at least one notification, and fewer than two to the 64, a wait on the revision that was
-- observed before them does not block, and reports the change, whether its deadline has passed.
pub wait_until-notified :
    (n : ℕ) (s : WaitSignal)
    → s.revision < uint64_mod
    → 0 < n
    → n < uint64_mod
    → (wait_until (notified n s) s.revision true ≡ some true)
      × (wait_until (notified n s) s.revision false ≡ some true)
wait_until-notified n s h low high =
    let c : changed (notified n s) s.revision ≡ true =
      changed_lem (notified n s) s.revision
        (let e = notified-revision n s h in ground (arith, e)) in
    (rw (wait_until, c) refl, rw (wait_until, c) refl)
