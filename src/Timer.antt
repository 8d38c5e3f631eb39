-- ===== src/Timer.antt =====
-- flmodules/src/timer.rs: the timer that ticks every second, and every minute.
pub mod Minutes
use fledger.Prelude.{ℕ, zero, suc, ◌-◌, List, [], ◌∷◌, ◌==◌, if◌then◌else◌}

pub data TimerMessage : Type 0 where
  second minute : TimerMessage

pub record TimerBroker : Type 0 where
  pub seconds : ℕ

abbrev pub start : TimerBroker
start = record { seconds = 0 }

-- The handler does not look at the messages of its batch.
unfoldable pub messages : TimerBroker → List TimerMessage → TimerBroker × List TimerMessage
messages t batch =
    if t.seconds == 0
    then (record { seconds = 59 }, minute ∷ [])
    else (record { seconds = t.seconds - 1 }, [])

-- The replies to a number of batches, one second each.
unfoldable pub after : ℕ → TimerBroker → TimerBroker
unfolding messages
after zero t = t
after (suc n) t = (messages (after n t) (second ∷ [])).0
