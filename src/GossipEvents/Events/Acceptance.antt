-- ===== src/GossipEvents/Events/Acceptance.antt =====
-- flmodules/src/gossip_events/core.rs: which events `insert` accepts.
use fledger.Prelude.{
  ◌<◌, ◌≡◌, inl, inr, ◌⊎◌, Bool, true, false, not, none, some, arith, ◌==◌, ==-refl, Option-cases,
  is_some, if_cases, length, length-retain-le, find, All, All-weaken, ◌||◌,
}
use fledger.Prelude.Int.{ltb_ℤ}
use fledger.Prelude.Maps.{
  get, insert as map_insert, remove, get-insert, get-remove, insert-IsDistinct, length-insert_new,
  All-insert,
}
use fledger.NodeIds.{U256}
use fledger.GossipEvents.Events.{Event, Events, limit, insert_simple, insert_unique, insert}
use fledger.GossipEvents.Events.Unique.{IsValid}
use fledger.GossipEvents.Events.Limit.{limit_evicts_oldest, limit_within}

module _ (get_id : Event → U256) where
  -- An event that is refused changes nothing. It is refused only if it is stored already, or if the
  -- category is unique and holds a later event of the same source.
  pub insert_refused :
      (es : Events) (msg : Event)
      → (insert get_id es msg).1 ≡ false
      → ((insert get_id es msg).0 ≡ es)
        × ((is_some (get (get_id msg) es.events) ≡ true)
            ⊎ ((es.config.unique ≡ true)
                × ((e : U256 × Event) × (find (λ e. e.1.src == msg.src) es.events ≡ some e)
                    × (ltb_ℤ msg.created e.1.created ≡ true))))
  unfolding insert insert_unique insert_simple
  insert_refused es msg refused = elim (Option-cases (get (get_id msg) es.events)) [
    | inr (old, stored) ↦ (ground arith, inl (rw stored))
    | inl absent ↦ elim (Option-cases (find (λ e. e.1.src == msg.src) es.events)) [
      | inl new_source ↦ absurd (ground arith)
      | inr (e, found) ↦ (ground arith, inr (ground arith, (e, found, ground arith)))
    ]
  ]

  -- A full category without unique events accepts an event that is older than all of its own: `insert`
  -- reports a change, and the event is not stored.
  pub insert_too_old :
      (es : Events) (msg : Event)
      → IsValid get_id es
      → es.config.unique ≡ false
      → length es.events ≡ es.config.max_events
      → get (get_id msg) es.events ≡ none
      → All (λ e. ltb_ℤ msg.created e.1.created ≡ true) es.events
      → ((insert get_id es msg).1 ≡ true)
        × (get (get_id msg) (insert get_id es msg).0.events ≡ none)
  unfolding insert insert_simple
  insert_too_old es msg v simple full absent older =
      let id = get_id msg in
      let wide = record es { events = map_insert id msg es.events } in
      let Older = λ (e : U256 × Event). ((e.0 == id) || ltb_ℤ msg.created e.1.created) ≡ true in
      let gone : get id (limit wide).events ≡ none =
        limit_evicts_oldest wide (insert-IsDistinct id msg es.events v.once) id msg
          (ground (arith, get-insert id id msg es.events, ==-refl id))
          (omega (arith, length-insert_new id msg es.events absent))
          (All-insert Older id msg es.events (ground (arith, ==-refl id))
            (All-weaken _ Older es.events (λ e h. ground arith) older)) in
      (ground arith, ground (arith, gone))

  insert_simple_stored :
      (es : Events) (msg : Event)
      → length es.events < es.config.max_events
      → get (get_id msg) es.events ≡ none
      → (get (get_id msg) (insert_simple get_id es msg).0.events ≡ some msg)
        × ((insert_simple get_id es msg).1 ≡ true)
  unfolding insert_simple
  insert_simple_stored es msg room absent =
      let id = get_id msg in
      let wide = record es { events = map_insert id msg es.events } in
      rw (limit_within wide (omega (arith, length-insert_new id msg es.events absent)))
        (ground (arith, get-insert id id msg es.events, ==-refl id))

  -- A new event is stored under its identifier where there is room for it, unless the category is
  -- unique and holds a later event of the same source.
  pub insert_stored :
      (es : Events) (msg : Event)
      → length es.events < es.config.max_events
      → get (get_id msg) es.events ≡ none
      → (es.config.unique ≡ true
          → (e : U256 × Event) → find (λ e. e.1.src == msg.src) es.events ≡ some e
          → ltb_ℤ msg.created e.1.created ≡ false)
      → (get (get_id msg) (insert get_id es msg).0.events ≡ some msg)
        × ((insert get_id es msg).1 ≡ true)
  unfolding insert insert_unique
  insert_stored es msg room absent latest =
      let Stored = λ (r : Events × Bool). (get (get_id msg) r.0.events ≡ some msg) × (r.1 ≡ true) in
      if_cases Stored (is_some (get (get_id msg) es.events)) _ _ (λ there. absurd (ground arith))
        λ new.
          if_cases Stored es.config.unique _ _
            (λ unique. elim (Option-cases (find (λ e. e.1.src == msg.src) es.events)) [
              | inl new_source ↦
                  rw (insert_unique, new_source) (insert_simple_stored es msg room absent)
              | inr (e, found) ↦
                  rw (insert_unique, found, latest unique e found)
                    (insert_simple_stored (record es { events = remove e.0 es.events }) msg
                      (omega (arith, length-retain-le (λ x. not (x.0 == e.0)) es.events))
                      (ground (arith, get-remove e.0 (get_id msg) es.events)))
            ])
            (λ simple. insert_simple_stored es msg room absent)
