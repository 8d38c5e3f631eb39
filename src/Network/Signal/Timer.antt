-- ===== src/Network/Signal/Timer.antt =====
-- flmodules/src/network/signal.rs: when the timer removes a connection.
use fledger.Prelude.{
  ℕ, zero, suc, ◌+◌, ◌^◌, ◌<◌, ◌≡◌, refl, ap, ◌∙◌, false, Option, none, some, List, [], ◌∷◌, arith,
  ◌==◌, ==_iff, if◌then◌else◌, sub_u64, contains, count, IsDistinct,
}
use fledger.Prelude.Maps.{
  Map, keys, get, remove_all, get-remove_all, get-count, remove_all-IsDistinct,
}
use fledger.Network.Signal.{
  Env, BiMapLaws, SignalServer, remove_node, remove_nodes, count_down, msg_in_timer,
}

-- The time of a connection, if it has one.
abbrev of_ttl {ℓ} : {A : Type ℓ} → Option ℕ → A → (ℕ → A) → A
of_ttl none a f = a
of_ttl (some t) a f = f t

keys-count_down : (env : Env) (m : Map ℕ) → keys (count_down env m).0 ≡ keys m
unfolding count_down
keys-count_down env [] = refl
keys-count_down env ((index, ttl) ∷ m) = ap (◌∷◌ index) (keys-count_down env m)

module _ (env : Env) (k : ℕ) where
  get-count_down :
      (m : Map ℕ) → get k (count_down env m).0 ≡ of_ttl (get k m) none (λ t. some (sub_u64 t 1))
  unfolding count_down
  get-count_down [] = refl
  get-count_down ((index, ttl) ∷ m) = ground (arith, get-count_down m)

  contains-count_down_absent :
      (m : Map ℕ) → count k (keys m) ≡ 0 → contains (count_down env m).1 k ≡ false
  unfolding count_down
  contains-count_down_absent [] h = refl
  contains-count_down_absent ((index, ttl) ∷ m) h = ground (arith, contains-count_down_absent m)

  contains-count_down :
      (m : Map ℕ)
      → IsDistinct (keys m)
      → contains (count_down env m).1 k ≡ of_ttl (get k m) false (λ t. sub_u64 t 1 == 0)
  unfolding count_down
  contains-count_down [] d = refl
  contains-count_down ((index, ttl) ∷ m) d =
      let rest = contains-count_down m (λ j. ground (arith, d j)) in
      ground (arith, rest, contains-count_down_absent m, d k, ==_iff index k, get-count k m)

ttl-remove_nodes :
    (env : Env) (s : SignalServer env) (ids : List ℕ)
    → (remove_nodes env s ids).ttl ≡ remove_all ids s.ttl
unfolding remove_nodes remove_node
ttl-remove_nodes env s [] = refl
ttl-remove_nodes env s (index ∷ ids) = ttl-remove_nodes env (remove_node env s index) ids

minutes-remove_nodes :
    (env : Env) (s : SignalServer env) (ids : List ℕ)
    → (remove_nodes env s ids).ttl_minutes ≡ s.ttl_minutes
unfolding remove_nodes remove_node
minutes-remove_nodes env s [] = refl
minutes-remove_nodes env s (index ∷ ids) = minutes-remove_nodes env (remove_node env s index) ids

pub minutes-timer :
    (env : Env) (s : SignalServer env) → (msg_in_timer env s).ttl_minutes ≡ s.ttl_minutes
unfolding msg_in_timer
minutes-timer env s =
    minutes-remove_nodes env (record s { ttl = (count_down env s.ttl).0 }) (count_down env s.ttl).1

module _ (env : Env) (laws : BiMapLaws env) where
  right-remove_nodes :
      (s : SignalServer env) (ids : List ℕ) (k : ℕ)
      → env.get_by_right (remove_nodes env s ids).connection_ids k
        ≡ (if contains ids k then none else env.get_by_right s.connection_ids k)
  unfolding remove_nodes remove_node
  right-remove_nodes s [] k = refl
  right-remove_nodes s (index ∷ ids) k = ground (
    arith,
    right-remove_nodes (remove_node env s index) ids k,
    laws.right_remove s.connection_ids index k,
  )

  module _ (s : SignalServer env) (once : IsDistinct (keys s.ttl)) (k : ℕ) where
    abbrev counted : Map ℕ × List ℕ
    counted = count_down env s.ttl

    -- A timer takes one minute off each connection; at the last one the connection is removed.
    pub timer-entry :
        (get k (msg_in_timer env s).ttl
          ≡ of_ttl (get k s.ttl) none (λ t. if sub_u64 t 1 == 0 then none else some (sub_u64 t 1)))
        × (env.get_by_right (msg_in_timer env s).connection_ids k ≡ (
            if of_ttl (get k s.ttl) false (λ t. sub_u64 t 1 == 0)
            then none
            else env.get_by_right s.connection_ids k))
    unfolding msg_in_timer
    timer-entry =
        let lowered = record s { ttl = counted.0 } in
        (
          ground (
            arith,
            ttl-remove_nodes env lowered counted.1,
            get-remove_all counted.1 k counted.0,
            get-count_down env k s.ttl,
            contains-count_down env k s.ttl once,
          ),
          ground
              (arith, right-remove_nodes lowered counted.1 k, contains-count_down env k s.ttl once),
        )

  pub timer-IsDistinct :
      (s : SignalServer env) → IsDistinct (keys s.ttl) → IsDistinct (keys (msg_in_timer env s).ttl)
  unfolding msg_in_timer
  timer-IsDistinct s once =
      let counted = count_down env s.ttl in
      rw (ttl-remove_nodes env (record s { ttl = counted.0 }) counted.1)
        (remove_all-IsDistinct counted.1 counted.0 (λ j. rw keys-count_down (once j)))

  -- A number of timers, with no message in between.
  abbrev pub timers : ℕ → SignalServer env → SignalServer env
  timers zero s = s
  timers (suc n) s = timers n (msg_in_timer env s)

  module _ (index : ℕ) where
    -- One timer, away from the last minute.
    lowered :
        (t : ℕ) (s : SignalServer env)
        → IsDistinct (keys s.ttl)
        → suc (suc t) < 2 ^ 64
        → get index s.ttl ≡ some (suc (suc t))
        → (get index (msg_in_timer env s).ttl ≡ some (suc t))
          × (env.get_by_right (msg_in_timer env s).connection_ids index
              ≡ env.get_by_right s.connection_ids index)
    lowered t s once fits there =
        let entry = timer-entry s once index in (ground (arith, entry.0), ground (arith, entry.1))

    idle_kept :
        (n left : ℕ) (s : SignalServer env)
        → IsDistinct (keys s.ttl)
        → n + suc left < 2 ^ 64
        → get index s.ttl ≡ some (n + suc left)
        → (get index (timers n s).ttl ≡ some (suc left))
          × (env.get_by_right (timers n s).connection_ids index
              ≡ env.get_by_right s.connection_ids index)
    idle_kept zero left s once fits there = (there ∙ ap some (omega arith), refl)
    idle_kept (suc n) left s once fits there =
        let step = lowered (n + left) s once (omega arith) (there ∙ ap some (omega arith)) in
        let rest =
          idle_kept n left (msg_in_timer env s) (timer-IsDistinct s once) (omega arith)
            (step.0 ∙ ap some (omega arith)) in
        (rest.0, rest.1 ∙ step.1)

    idle_removed :
        (t : ℕ) (s : SignalServer env)
        → IsDistinct (keys s.ttl)
        → suc t < 2 ^ 64
        → get index s.ttl ≡ some (suc t)
        → (get index (timers (suc t) s).ttl ≡ none)
          × (env.get_by_right (timers (suc t) s).connection_ids index ≡ none)
    idle_removed zero s once fits there =
        let entry = timer-entry s once index in (ground (arith, entry.0), ground (arith, entry.1))
    idle_removed (suc t) s once fits there =
        idle_removed t (msg_in_timer env s) (timer-IsDistinct s once) (omega arith)
          (lowered t s once fits there).0

    -- A connection that stays silent keeps its identifier for fewer timers than it has minutes
    -- left, and the timer that completes them removes it. The minutes are positive and a `u64`, and
    -- each connection has them once.
    pub idle_connection :
        (t : ℕ) (s : SignalServer env)
        → IsDistinct (keys s.ttl)
        → t < 2 ^ 64
        → 0 < t
        → get index s.ttl ≡ some t
        → ((n left : ℕ)
            → n + suc left ≡ t
            → (get index (timers n s).ttl ≡ some (suc left))
              × (env.get_by_right (timers n s).connection_ids index
                  ≡ env.get_by_right s.connection_ids index))
          × (get index (timers t s).ttl ≡ none)
          × (env.get_by_right (timers t s).connection_ids index ≡ none)
    idle_connection zero s once fits positive there = absurd (omega arith)
    idle_connection (suc t) s once fits positive there =
        let gone = idle_removed t s once fits there in
        (
          λ n left e. idle_kept n left s once (omega arith) (there ∙ ap some (omega arith)),
          gone.0,
          gone.1,
        )
