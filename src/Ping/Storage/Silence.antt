-- ===== src/Ping/Storage/Silence.antt =====
-- flmodules/src/ping/core.rs: a node that stays silent is dropped after exactly
-- `interval + timeout` ticks.
use fledger.Prelude.{
  ℕ, zero, suc, ◌+◌, ◌-◌, ◌<◌, ◌^◌, ◌≡◌, ap, subst, true, none, some, arith, contains, IsDistinct,
}
use fledger.Prelude.Maps.{keys, get}
use fledger.NodeIds.{NodeId}
use fledger.Ping.Storage.{PingConfig, PingStat, PingStorage, count_one, tick}
use fledger.Ping.Storage.Countdown.{tick-entry, config-tick, tick-IsDistinct}

-- A number of ticks, with no message in between.
pub ticks : ℕ → PingStorage → PingStorage
ticks zero s = s
ticks (suc n) s = ticks n (tick s)

-- The entry of a node is in time.
abbrev pub InTime : PingStorage → NodeId → ℕ → Type 0
InTime s k t = (stat : PingStat) × (get k s.stats ≡ some stat) × (stat.lastping ≡ t)

-- The nodes have one entry each, and the deadline is a `u32`.
record IsSound (s : PingStorage) : Type 0 where
  once : IsDistinct (keys s.stats)
  fits : s.config.timeout + s.config.interval < 2 ^ 32

tick-IsSound : (s : PingStorage) → IsSound s → IsSound (tick s)
tick-IsSound s v = record {
  once = tick-IsDistinct s v.once;
  fits = rw (config-tick s v.once 0) v.fits;
}

abbrev span : PingStorage → ℕ
span s = s.config.timeout + s.config.interval

span-tick : (s : PingStorage) → IsSound s → span (tick s) ≡ span s
span-tick s v = ap (λ (c : PingConfig). c.timeout + c.interval) (config-tick s v.once 0)

module _ (k : NodeId) where
  tick-InTime :
      (t : ℕ) (s : PingStorage)
      → IsSound s
      → InTime s k t
      → suc t < span s
      → InTime (tick s) k (suc t)
  tick-InTime t s v (stat, there, at) early =
      let entry = tick-entry s v.once k in
      (count_one s.config stat, ground (arith, entry.0, v.fits), ground (arith, v.fits))

  tick_fails :
      (t : ℕ) (s : PingStorage)
      → IsSound s
      → InTime s k t
      → suc t ≡ span s
      → (get k (tick s).stats ≡ none) × (contains (tick s).failed k ≡ true)
  tick_fails t s v (stat, there, at) now =
      let entry = tick-entry s v.once k in (ground (arith, entry.0), ground (arith, entry.1))

  silent-InTime :
      (n t : ℕ) (s : PingStorage)
      → IsSound s
      → InTime s k t
      → t + n < span s
      → InTime (ticks n s) k (t + n)
  unfolding ticks
  silent-InTime zero t s v (stat, there, at) h = (stat, there, omega arith)
  silent-InTime (suc n) t s v here h = subst (InTime (ticks n (tick s)) k) (omega arith) (
      silent-InTime n (suc t) (tick s) (tick-IsSound s v) (tick-InTime t s v here (omega arith))
        (omega (arith, span-tick s v)))

  silent_fails :
      (left t : ℕ) (s : PingStorage)
      → IsSound s
      → InTime s k t
      → t + suc left ≡ span s
      → (get k (ticks (suc left) s).stats ≡ none) × (contains (ticks (suc left) s).failed k ≡ true)
  unfolding ticks
  silent_fails zero t s v here h = tick_fails t s v here (omega arith)
  silent_fails (suc left) t s v here h =
      silent_fails left (suc t) (tick s) (tick-IsSound s v) (tick-InTime t s v here (omega arith))
        (omega (arith, span-tick s v))

  -- A node that has just been heard of and then stays silent keeps its entry, which counts the
  -- ticks, for fewer than `timeout + interval` of them. The tick that completes this number drops
  -- it and reports it as failed. Each node has one entry at most, and the number is positive and a
  -- `u32`.
  pub silent_node :
      (s : PingStorage)
      → IsDistinct (keys s.stats)
      → s.config.timeout + s.config.interval < 2 ^ 32
      → 0 < s.config.timeout + s.config.interval
      → InTime s k 0
      → ((n : ℕ) → n < s.config.timeout + s.config.interval → InTime (ticks n s) k n)
        × (get k (ticks (s.config.timeout + s.config.interval) s).stats ≡ none)
        × (contains (ticks (s.config.timeout + s.config.interval) s).failed k ≡ true)
  silent_node s once fits positive here =
      let v : IsSound s = record { once = once; fits = fits } in
      let end : suc (span s - 1) ≡ span s = omega arith in
      let last = silent_fails (span s - 1) 0 s v here (omega arith) in
      (
        λ n early.
            subst (InTime (ticks n s) k) (omega arith) (silent-InTime n 0 s v here (omega arith)),
        subst (λ m. get k (ticks m s).stats ≡ none) end last.0,
        subst (λ m. contains (ticks m s).failed k ≡ true) end last.1,
      )
