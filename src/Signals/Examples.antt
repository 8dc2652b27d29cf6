-- ===== src/Signals/Examples.antt =====
-- A wait after two notifications.
use mw_streamer.Base.{◌≡◌, true, false, some, arith}
use mw_streamer.Signals.{WaitSignal, wait_until}
use mw_streamer.Signals.Retained.{notified, wait_until-notified}

abbrev start : WaitSignal
start = record { revision = 3 }

wait_until-notified_example :
    (wait_until (notified 2 start) 3 true ≡ some true)
    × (wait_until (notified 2 start) 3 false ≡ some true)
wait_until-notified_example = wait_until-notified 2 start (omega arith) (omega arith) (omega arith)
