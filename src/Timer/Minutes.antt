-- ===== src/Timer/Minutes.antt =====
-- flmodules/src/timer.rs: when the timer sends a minute.
use fledger.Prelude.{ℕ, zero, suc, ◌-◌, ◌%◌, ◌≡◌, [], ◌∷◌, ◌==◌, if◌then◌else◌, arith}
use fledger.Timer.{second, minute, start, messages, after}

after_seconds : (n : ℕ) → (after n start).seconds ≡ (60 - n % 60) % 60
unfolding after messages
after_seconds zero = omega arith
after_seconds (suc n) = ground (arith, after_seconds n)

-- The first second of a timer sends a minute, and from then on every sixtieth: no other second
-- sends anything.
minute_every_sixty :
    (n : ℕ) → (messages (after n start) (second ∷ [])).1 ≡ (if n % 60 == 0 then minute ∷ [] else [])
unfolding messages
minute_every_sixty n = ground (arith, after_seconds n)
