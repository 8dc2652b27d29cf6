-- ===== src/Signals.antt =====
-- include/mw/streamer/platform/wait_signal.h and write_signal.h: revisions that are waited on.
pub mod Retained
pub mod Examples
use mw_streamer.Base.{
  ◌≡◌, refl, Bool, true, false, not, Option, none, some, ℕ, zero, suc, ◌+◌, ◌%◌, ◌==◌, uint64_mod,
}

-- A revision is a std::uint64_t.
pub record WaitSignal : Type 0 where
  pub revision : ℕ

unfoldable pub notify : WaitSignal → WaitSignal
notify s = record { revision = (s.revision + 1) % uint64_mod }

-- The predicate of Wait and of WaitUntil: whether the revision has changed.
unfoldable pub changed : WaitSignal → ℕ → Bool
changed s observed = not (s.revision == observed)

-- WaitUntil, where the deadline has passed or not: whether it returns, and what.
abbrev pub wait_until : WaitSignal → ℕ → Bool → Option Bool
wait_until s observed expired = elim (changed s observed) [
  | true ↦ some true
  | false ↦ elim expired [ true ↦ some false | false ↦ none ]
]

pub record WriteSignal : Type 0 where
  pub revision : ℕ

-- `wake` is the event loop's signal, while it is alive.
unfoldable pub notify_write : WriteSignal → Option WaitSignal → WriteSignal × Option WaitSignal
notify_write s none = (record { revision = (s.revision + 1) % uint64_mod }, none)
notify_write s (some wake) =
    (record { revision = (s.revision + 1) % uint64_mod }, some (notify wake))
