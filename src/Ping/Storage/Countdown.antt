-- ===== src/Ping/Storage/Countdown.antt =====
-- flmodules/src/ping/core.rs: one tick, seen from one node.
use fledger.Prelude.{
  ◌≡◌, refl, sym, ◌∙◌, inl, inr, Bool, false, not, ◌&&◌, Option, none, some, List, [], ◌∷◌, ◌++◌,
  arith, leb, ◌==◌, ==_iff, if◌then◌else◌, add_u32, is_some, if_cases, Option-cases, contains,
  count, IsDistinct,
}
use fledger.Prelude.Maps.{
  Map, keys, get, remove, remove_all, get-remove_all, get-insert, get-remove, insert-IsDistinct,
  remove-IsDistinct, remove_all-IsDistinct,
}
use fledger.NodeIds.{NodeId}
use fledger.Ping.Storage.{
  PingConfig, PingStat, PingStorage, new_node, pong, remove_node, deadline, count_one, countdown,
  remove_nodes, tick_countdown, tick,
}
use mathlib.Core.List.{append_assoc, append-nil}

-- What holds of the entry of a node, if it has one.
abbrev of_entry {ℓ} : {A : Type ℓ} → Option PingStat → A → (PingStat → A) → A
of_entry none a f = a
of_entry (some stat) a f = f stat

-- The tick brings the entry to the deadline.
abbrev is_overdue : PingConfig → PingStat → Bool
is_overdue c stat = leb (deadline c) (add_u32 stat.lastping 1)

-- The tick brings the entry to the interval, and not yet to the deadline.
abbrev is_due : PingConfig → PingStat → Bool
is_due c stat = not (is_overdue c stat) && leb c.interval (add_u32 stat.lastping 1)

module _ (c : PingConfig) (k : NodeId) where
  get-countdown :
      (m : Map PingStat)
      → get k (countdown c m).0 ≡ of_entry (get k m) none (λ stat. some (count_one c stat))
  unfolding countdown
  get-countdown [] = refl
  get-countdown ((id, stat) ∷ m) = ground (arith, get-countdown m)

  contains-countdown_absent :
      (m : Map PingStat)
      → count k (keys m) ≡ 0
      → (contains (countdown c m).1 k ≡ false) × (contains (countdown c m).2 k ≡ false)
  unfolding countdown
  contains-countdown_absent [] h = (refl, refl)
  contains-countdown_absent ((id, stat) ∷ m) h = ground (arith, contains-countdown_absent m)

  contains-countdown :
      (m : Map PingStat)
      → IsDistinct (keys m)
      → (contains (countdown c m).1 k ≡ of_entry (get k m) false (is_due c))
        × (contains (countdown c m).2 k ≡ of_entry (get k m) false (is_overdue c))
  unfolding countdown
  contains-countdown [] d = (refl, refl)
  contains-countdown ((id, stat) ∷ m) d =
      let ih = contains-countdown m (λ j. ground (arith, d j)) in
      ground (arith, ih, d id, d k, contains-countdown_absent m, ==_iff id k)

  keys-countdown : (m : Map PingStat) → keys (countdown c m).0 ≡ keys m
  unfolding countdown
  keys-countdown [] = refl
  keys-countdown ((id, stat) ∷ m) = ground (arith, keys-countdown m)

remove_nodes_lem :
    (s : PingStorage) (ids : List NodeId)
    → remove_nodes s ids ≡ record s { stats = remove_all ids s.stats; failed = s.failed ++ ids }
unfolding remove_nodes
remove_nodes_lem s [] = λ i. record s { failed = sym (append-nil s.failed) i }
remove_nodes_lem s (id ∷ ids) = remove_nodes_lem (remove_node s id) ids ∙ λ i. record s {
  stats = remove_all ids (remove id s.stats);
  failed = append_assoc s.failed (id ∷ []) ids i;
}

module _ (s : PingStorage) (once : IsDistinct (keys s.stats)) (k : NodeId) where
  abbrev counted : Map PingStat × List NodeId × List NodeId
  counted = countdown s.config s.stats

  tick_lem :
      tick s
      ≡ record s { stats = remove_all counted.2 counted.0; ping = counted.1; failed = counted.2 }
  unfolding tick tick_countdown
  tick_lem =
      remove_nodes_lem (record s { stats = counted.0; ping = counted.1; failed = [] }) counted.2

  -- What one tick does to a node, where each node has one entry at most: its entry counts on,
  -- unless it reaches the deadline, at which it is dropped. The nodes that are dropped are exactly
  -- the failed ones, and those that reach the interval before the deadline are exactly the ones to
  -- ping.
  pub tick-entry :
      (get k (tick s).stats
        ≡ of_entry
            (get k s.stats)
            none
            λ stat. if is_overdue s.config stat then none else some (count_one s.config stat))
      × (contains (tick s).failed k ≡ of_entry (get k s.stats) false (is_overdue s.config))
      × (contains (tick s).ping k ≡ of_entry (get k s.stats) false (is_due s.config))
  tick-entry =
      let lists = contains-countdown s.config k s.stats once in
      rw tick_lem (
        ground (
          arith,
          get-remove_all counted.2 k counted.0,
          get-countdown s.config k s.stats,
          lists.1,
        ),
        lists.1,
        lists.0,
      )

  pub config-tick : (tick s).config ≡ s.config
  config-tick = rw tick_lem

pub tick-IsDistinct :
    (s : PingStorage) → IsDistinct (keys s.stats) → IsDistinct (keys (tick s).stats)
tick-IsDistinct s once = rw (tick_lem s once 0) (
    remove_all-IsDistinct (counted s once 0).2 (counted s once 0).0
      (λ j. rw keys-countdown (once j)))

new_node-IsDistinct :
    (s : PingStorage) (id : NodeId)
    → IsDistinct (keys s.stats)
    → IsDistinct (keys (new_node s id).stats)
unfolding new_node
new_node-IsDistinct s id once =
    if_cases (λ (t : PingStorage). IsDistinct (keys t.stats)) (is_some (get id s.stats)) _ _
      (λ h. once) (λ h. insert-IsDistinct id _ s.stats once)

pong-IsDistinct :
    (s : PingStorage) (id : NodeId)
    → IsDistinct (keys s.stats)
    → IsDistinct (keys (pong s id).stats)
unfolding pong
pong-IsDistinct s id once = elim (Option-cases (get id s.stats)) [
  | inl e ↦ rw (pong, e) (new_node-IsDistinct s id once)
  | inr (stat, e) ↦
      rw (pong, e) (insert-IsDistinct id _ (remove id s.stats) (remove-IsDistinct id s.stats once))
]

-- A pong, from a node that has an entry, sets its count back; a pong from another node makes an entry
-- and pings the node.
pub pong-entry :
    (s : PingStorage) (id k : NodeId)
    → get k (pong s id).stats ≡ (
        if id == k
        then of_entry
            (get id s.stats)
            (some (record { lastping = 0; rx = 0; tx = 1 }))
            (λ stat. some (record stat { lastping = 0; rx = add_u32 stat.rx 1 }))
        else get k s.stats)
unfolding pong new_node
pong-entry s id k = elim (Option-cases (get id s.stats)) [
  | inl e ↦ ground (arith, e, get-insert id k (record { lastping = 0; rx = 0; tx = 1 }) s.stats)
  | inr (stat, e) ↦ ground (
    arith,
    e,
    get-insert id k (record stat { lastping = 0; rx = add_u32 stat.rx 1 }) (remove id s.stats),
    get-remove id k s.stats,
  )
]
