-- ===== src/GossipEvents/Messages/Requests.antt =====
-- flmodules/src/gossip_events/messages.rs: which events are asked for, and from whom.
use fledger.Prelude.{
  ◌≡◌, refl, ap, sym, subst, ◌∙◌, fun_ext, Bool, true, false, not, ◌&&◌, List, [], ◌∷◌, ◌++◌, arith,
  if_cases, is_empty, retain, contains, contains-append, contains-retain, ==_iff,
}
use mathlib.Core.List.{append-nil}
use fledger.NodeIds.{NodeId, U256}
use fledger.GossipEvents.Events.{Event}
use fledger.GossipEvents.Storage
use fledger.GossipEvents.Messages.{
  GossipEvents, GossipOut, on_tick, filter_known_events, node_known_event_ids,
}

module _ (get_id : Event → U256) where
  -- An identifier is asked for if it was announced, is not stored, and is not asked for already.
  contains-filter_known_events :
      (g : GossipEvents) (ids : List U256) (id : U256)
      → contains (filter_known_events get_id g ids) id ≡ (
          contains ids id
          && (not (contains (Storage.event_ids get_id g.store) id)
              && not (contains g.outstanding id)))
  unfolding filter_known_events
  contains-filter_known_events g ids id = contains-retain _ ids id

  retain_nothing :
      (p : U256 → Bool) (ids : List U256)
      → ((id : U256) → contains ids id ≡ true → p id ≡ false)
      → retain p ids ≡ []
  retain_nothing p [] h = refl
  retain_nothing p (x ∷ ids) h =
      ground (arith, h x, ==_iff x x, retain_nothing p ids (λ id c. h id (ground arith)))

  retain_twice :
      (p q : U256 → Bool) (ids : List U256)
      → ((id : U256) → q id ≡ false → p id ≡ false)
      → retain p ids ≡ retain p (retain q ids)
  retain_twice p q [] h = refl
  retain_twice p q (x ∷ ids) h = ground (arith, h x, retain_twice p q ids h)

  same_unknown :
      (g : GossipEvents) (src : NodeId) (ids others : List U256)
      → filter_known_events get_id g ids ≡ filter_known_events get_id g others
      → node_known_event_ids get_id g src ids ≡ node_known_event_ids get_id g src others
  unfolding node_known_event_ids
  same_unknown g src ids others h = rw h refl

  -- What was announced before is now stored or asked for.
  asked_once :
      (g : GossipEvents) (ids more : List U256)
      → filter_known_events get_id
          (record g { outstanding = g.outstanding ++ filter_known_events get_id g ids })
          more
        ≡ filter_known_events get_id
            (record g { outstanding = g.outstanding ++ filter_known_events get_id g ids })
            (retain (λ id. not (contains ids id)) more)
  asked_once g ids more =
      let asked = filter_known_events get_id g ids in
      unfold filter_known_events in
      retain_twice _ _ more λ id c.
        ground
          (arith, contains-append g.outstanding asked id, contains-filter_known_events g ids id)

  after_announcement :
      (g : GossipEvents) (src : NodeId) (ids : List U256)
      → (node_known_event_ids get_id g src ids).0
        ≡ record g { outstanding = g.outstanding ++ filter_known_events get_id g ids }
  unfolding node_known_event_ids
  after_announcement g src ids =
      let asked = filter_known_events get_id g ids in
      if_cases
        (λ (h : GossipEvents × List GossipOut).
          h.0 ≡ record g { outstanding = g.outstanding ++ asked })
        (not (is_empty asked)) _ _ (λ some_unknown. refl)
        (λ none_unknown.
          ap (λ os. record g { outstanding = os })
            (sym (
              ap (λ ids. g.outstanding ++ ids) (none_left asked none_unknown)
              ∙ append-nil g.outstanding)))
    where
      none_left : (ids : List U256) → not (is_empty ids) ≡ false → ids ≡ []
      none_left [] h = refl
      none_left (x ∷ ids) h = cc

  nothing_announced :
      (g : GossipEvents) (src : NodeId) → node_known_event_ids get_id g src [] ≡ (g, [])
  unfolding node_known_event_ids filter_known_events
  nothing_announced g src = refl

  without_first :
      (g : GossipEvents) (src other : NodeId) (ids more : List U256)
      → let g' = (node_known_event_ids get_id g src ids).0 in
        node_known_event_ids get_id g' other more
        ≡ node_known_event_ids get_id g' other (retain (λ id. not (contains ids id)) more)
  without_first g src other ids more =
      same_unknown (node_known_event_ids get_id g src ids).0 other more _ (
        subst
          (λ h.
            filter_known_events get_id h more
            ≡ filter_known_events get_id h (retain (λ id. not (contains ids id)) more))
          (sym (after_announcement g src ids)) (asked_once g ids more))

  -- Directly after one announcement, from whichever node, the next announcement does what it would do
  -- without the identifiers of the first: none of them is asked for a second time. The same list
  -- again brings no request and changes nothing. Nothing is said of announcements after a tick, which
  -- forgets what was asked for.
  pub node_known_event_ids_twice :
      (g : GossipEvents) (src other : NodeId) (ids more : List U256)
      → let g' = (node_known_event_ids get_id g src ids).0 in
        (node_known_event_ids get_id g' other more
          ≡ node_known_event_ids get_id g' other (retain (λ id. not (contains ids id)) more))
        × (node_known_event_ids get_id g' other ids ≡ (g', []))
  node_known_event_ids_twice g src other ids more =
      let g' = (node_known_event_ids get_id g src ids).0 in
      let none_new = retain_nothing (λ id. not (contains ids id)) ids (λ id c. ground (arith, c)) in
      (
        without_first g src other ids more,
        without_first g src other ids ids
            ∙ ap (λ l. node_known_event_ids get_id g' other l) none_new
            ∙ nothing_announced g' other,
      )

  -- A tick forgets what was asked for: whatever is announced after it and is not stored is asked for,
  -- so that a reply that got lost is asked for anew.
  filter_known_events-on_tick :
      (g : GossipEvents) (ids : List U256)
      → filter_known_events get_id (on_tick g).0 ids
        ≡ retain (λ id. not (contains (Storage.event_ids get_id g.store) id)) ids
  unfolding filter_known_events on_tick
  filter_known_events-on_tick g ids =
      ap (λ p. retain p ids)
        (fun_ext λ id. and_true (not (contains (Storage.event_ids get_id g.store) id)))
    where
      and_true : (b : Bool) → (b && true) ≡ b
      and_true true = refl
      and_true false = refl
