-- ===== src/GossipEvents/Events/Limit.antt =====
-- flmodules/src/gossip_events/core.rs: `limit` keeps the number of events within its bound, and
-- keeps the latest ones.
use fledger.Prelude.{
  ℕ, ◌+◌, ◌≤◌, ◌<◌, ◌≡◌, subst, All-drop, length-drop, ◌||◌, refl, ap, ◌∙◌, inl, inr, true, false,
  not, none, some, List, [], ◌∷◌, ◌++◌, arith, leb, ◌==◌, ==_iff, ==-refl, Bool-cases, length,
  length-take, take, drop, take-append-drop, min, retain, All, contains, count, contains-count,
  count-map-append, IsDistinct,
}
use fledger.Prelude.Int.{ℤ, ltb_ℤ, ◌≤ℤ◌}
use fledger.Prelude.Sorting.{
  sort_by, All-sort_by, StrictOrder, sort_by-IsSorted, cut-IsSorted, count-sort_by,
  length-retain-sort_by, length-sort_by,
}
use fledger.Prelude.Maps.{
  Map, keys, get, remove_all, map_values, get-append, get-count, get-remove_all, get-sort_by,
  get-map_values, keys-map_values, length-map_values, remove_all-retain, length-retain_keys,
  length-retain-map_values, All-get, All-map_values, remove_all-IsDistinct,
}
use fledger.NodeIds.{U256}
use fledger.GossipEvents.Events.{Event, Events, later, surplus, limit}

later-order : StrictOrder later
later-order = record { asym = λ a b h. ground arith; cotrans = λ a b c h k. ground arith }

module _ {ℓ} {V : Type ℓ} (ks : List U256) where
  -- The entries whose keys are all listed go, and those of which none is listed stay.
  length-retain_own :
      (m : Map V)
      → ((k : U256) → count k (keys m) ≤ count k ks)
      → length (retain (λ e. not (contains ks e.0)) m) ≡ 0
  length-retain_own [] h = refl
  length-retain_own (e ∷ m) h =
      let ih = length-retain_own m (λ k. ground (arith, h k)) in
      ground (arith, ih, h e.0, contains-count e.0 ks)

  length-retain_apart :
      (m : Map V)
      → ((k : U256) → count k (keys m) + count k ks ≤ 1)
      → length (retain (λ e. not (contains ks e.0)) m) ≡ length m
  length-retain_apart [] h = refl
  length-retain_apart (e ∷ m) h =
      let ih = length-retain_apart m (λ k. ground (arith, h k)) in
      ground (arith, ih, h e.0, contains-count e.0 ks)

pub limit_within : (es : Events) → length es.events ≤ es.config.max_events → limit es ≡ es
unfolding limit
limit_within es h =
    let test : leb (length es.events) es.config.max_events ≡ true = ground arith in rw test

module _ (es : Events) (once : IsDistinct (keys es.events)) where
  abbrev max : ℕ
  max = es.config.max_events

  -- The dates of all entries, the latest first.
  abbrev dates : Map ℤ
  dates = sort_by later (map_values (λ (e : Event). e.created) es.events)

  abbrev latest : Map ℤ
  latest = take max dates

  abbrev earliest : Map ℤ
  earliest = drop max dates

  surplus_lem : surplus es ≡ keys earliest
  unfolding surplus
  surplus_lem = refl

  count-dates :
      (k : U256) → count k (keys latest) + count k (keys earliest) ≡ count k (keys es.events)
  count-dates k = omega (
    arith,
    count-map-append (λ (e : U256 × ℤ). e.0) k latest earliest,
    ap (λ l. count k (keys l)) (take-append-drop max dates),
    count-sort_by later (λ e. e.0) k (map_values (λ (e : Event). e.created) es.events),
    ap (count k) (keys-map_values (λ (e : Event). e.created) es.events),
  )

  length-dates : length dates ≡ length es.events
  length-dates = length-sort_by later _ ∙ length-map_values (λ (e : Event). e.created) es.events

  length-remove_surplus : length (remove_all (surplus es) es.events) ≡ min max (length es.events)
  length-remove_surplus =
      let p = λ (k : U256). not (contains (keys earliest) k) in
      omega (
        arith,
        ap length (remove_all-retain (keys earliest) es.events),
        length-retain-map_values (λ (e : Event). e.created) p es.events,
        length-retain-sort_by later (λ e. p e.0) (map_values (λ (e : Event). e.created) es.events),
        ap (λ l. length (retain (λ e. p e.0) l)) (take-append-drop max dates),
        length-retain_keys p latest earliest,
        length-retain_own (keys earliest) earliest (λ k. omega arith),
        length-retain_apart (keys earliest) latest (λ k. omega (arith, count-dates k, once k)),
        length-take max dates,
        length-dates,
        ap (λ ks. length (remove_all ks es.events)) surplus_lem,
      )

  -- Where each event has its own key, `limit` keeps as many events as the configuration allows, or
  -- all of them if there are fewer.
  pub length-limit : length (limit es).events ≡ min max (length es.events)
  unfolding limit
  length-limit = elim (Bool-cases (leb (length es.events) max)) [
    | inl few ↦ rw few (ground arith)
    | inr many ↦ rw many length-remove_surplus
  ]

  pub limit-IsDistinct : IsDistinct (keys (limit es).events)
  unfolding limit
  limit-IsDistinct = elim (Bool-cases (leb (length es.events) max)) [
    | inl few ↦ rw few once
    | inr many ↦ rw many (remove_all-IsDistinct (surplus es) es.events once)
  ]

  get-limit : (k : U256) (e : Event) → get k (limit es).events ≡ some e → get k es.events ≡ some e
  unfolding limit
  get-limit k e h = ground (arith, get-remove_all (surplus es) k es.events)

  module _ (k : U256) (e : Event) (stored : get k es.events ≡ some e) where
    get-dates : get k (latest ++ earliest) ≡ some e.created
    get-dates = rw (take-append-drop max dates) (
        get-sort_by later k (map_values (λ (e : Event). e.created) es.events)
          (λ j. rw keys-map_values (once j))
        ∙ get-map_values (λ (e : Event). e.created) k es.events
        ∙ rw stored)

    -- A date stands in one of the two parts, as the entry is kept or not.
    get-latest : contains (keys earliest) k ≡ false → get k latest ≡ some e.created
    get-latest h = ground (
      arith,
      get-dates,
      get-append k latest earliest,
      get-count k earliest,
      contains-count k (keys earliest),
    )

    get-earliest : contains (keys earliest) k ≡ true → get k earliest ≡ some e.created
    get-earliest h = ground (
      arith,
      get-dates,
      get-append k latest earliest,
      contains-count k (keys latest),
      contains-count k (keys earliest),
      count-dates k,
      once k,
    )

  cut_order :
      (k j : U256) (kept evicted : Event)
      → get k es.events ≡ some kept
      → get j es.events ≡ some evicted
      → contains (keys earliest) k ≡ false
      → contains (keys earliest) j ≡ true
      → evicted.created ≤ℤ kept.created
  cut_order k j kept evicted hk hj stays goes =
      let order = cut-IsSorted later max dates (sort_by-IsSorted later later-order _) in
      let behind =
        All-get (λ a. All (λ b. later b a ≡ false) earliest) k kept.created latest order
          (get-latest k kept hk stays) in
      let not_later =
        All-get (λ b. later b (k, kept.created) ≡ false) j evicted.created earliest behind
          (get-earliest j evicted hj goes) in
      ground (arith, not_later)

  -- Where each event has its own key, an event that `limit` evicts was not created after any event
  -- that it keeps.
  pub limit_keeps_latest :
      (k j : U256) (kept evicted : Event)
      → get k (limit es).events ≡ some kept
      → get j es.events ≡ some evicted
      → get j (limit es).events ≡ none
      → evicted.created ≤ℤ kept.created
  unfolding limit
  limit_keeps_latest k j kept evicted hk hj gone = elim (Bool-cases (leb (length es.events) max)) [
    | inl few ↦ ground arith
    | inr many ↦
        let at_k = get-remove_all (surplus es) k es.events in
        let at_j = get-remove_all (surplus es) j es.events in
        cut_order k j kept evicted (ground arith) hj (ground (arith, surplus_lem))
          (ground (arith, surplus_lem))
  ]

  non_empty : (l : Map ℤ) → 0 < length l → (x : U256 × ℤ) × (rest : Map ℤ) × (l ≡ x ∷ rest)
  non_empty [] h = absurd (omega arith)
  non_empty (x ∷ rest) h = (x, rest, refl)

  -- An event that is older than all others does not survive a surplus.
  pub limit_evicts_oldest :
      (id : U256) (msg : Event)
      → get id es.events ≡ some msg
      → max < length es.events
      → All (λ e. ((e.0 == id) || ltb_ℤ msg.created e.1.created) ≡ true) es.events
      → get id (limit es).events ≡ none
  unfolding limit
  limit_evicts_oldest id msg stored many oldest =
      let test : leb (length es.events) max ≡ false = ground arith in
      let (x, rest, shape) =
        non_empty earliest (omega (arith, length-drop max dates, length-dates)) in
      let first : All (λ e. ((e.0 == id) || ltb_ℤ msg.created e.1) ≡ true) (x ∷ rest) =
        subst (All (λ e. ((e.0 == id) || ltb_ℤ msg.created e.1) ≡ true)) shape
          (All-drop _ max dates (All-sort_by later _ _ (All-map_values _ _ es.events oldest))) in
      rw (test, get-remove_all (surplus es) id es.events, surplus_lem)
        (elim (Bool-cases (contains (keys earliest) id)) [
          | inl gone ↦ rw gone
          | inr kept ↦
              let order = cut-IsSorted later max dates (sort_by-IsSorted later later-order _) in
              let behind =
                All-get (λ a. All (λ b. later b a ≡ false) earliest) id msg.created latest order
                  (get-latest id msg stored kept) in
              let behind_x = subst (All (λ b. later b (id, msg.created) ≡ false)) shape behind in
              let listed : contains (keys earliest) x.0 ≡ true =
                rw shape (ground (arith, ==-refl x.0)) in
              ground (arith, behind_x.0, first.0, ==_iff x.0 id)
        ])
