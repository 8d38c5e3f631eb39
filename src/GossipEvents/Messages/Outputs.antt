-- ===== src/GossipEvents/Messages/Outputs.antt =====
-- flmodules/src/gossip_events/messages.rs: the storages that the handler sends.
use fledger.Prelude.{
  true, not, List, [], ◌∷◌, ◌++◌, ◌≡◌, ◌≢◌, refl, ◌∙◌, map, arith, inl, inr, Bool-cases, is_empty,
  if◌then◌else◌, filter_map, retain, ◌==◌, ◌&&◌, some, none, contains,
}
use fledger.NodeIds.{U256, NodeId}
use fledger.GossipEvents.Events.{Event}
use fledger.GossipEvents.Storage.{EventsStorage, add_event}
use fledger.GossipEvents.Storage.Laws.{add_event_unchanged}
use fledger.GossipEvents.Messages.{
  ModuleMessage, GossipIn, GossipOut, GossipEvents, known_event_ids, events, request_event_ids,
  request_events, tick, from_network, set_storage, get_storage, add_event as in_add_event,
  node_list, to_network, storage, updated, process_message, process_node_message, on_tick,
  on_node_list, on_add_event, send_events, take_event, add_events, node_known_event_ids,
  node_events, node_request_events, node_request_event_list,
}

-- The last storage among the messages that are sent, or the one that was known before.
abbrev pub seen : EventsStorage → List GossipOut → EventsStorage
seen s [] = s
seen s (storage u ∷ out) = seen u out
seen s (to_network id msg ∷ out) = seen s out
seen s (updated ∷ out) = seen s out

pub seen-append :
    (s : EventsStorage) (xs ys : List GossipOut) → seen s (xs ++ ys) ≡ seen (seen s xs) ys
seen-append s [] ys = refl
seen-append s (storage u ∷ xs) ys = seen-append u xs ys
seen-append s (to_network id msg ∷ xs) ys = seen-append s xs ys
seen-append s (updated ∷ xs) ys = seen-append s xs ys

seen-sends :
    (s : EventsStorage) (msg : NodeId → ModuleMessage) (ids : List NodeId)
    → seen s (map (λ id. to_network id (msg id)) ids) ≡ s
seen-sends s msg [] = refl
seen-sends s msg (id ∷ ids) = seen-sends s msg ids

module _ (get_id : Event → U256) where
  add_events_unchanged :
      (g : GossipEvents) (evs : List Event)
      → is_empty (add_events get_id g evs).1 ≡ true
      → (add_events get_id g evs).0.store ≡ g.store
  unfolding add_events take_event
  add_events_unchanged g [] h = refl
  add_events_unchanged g (e ∷ evs) h = elim (Bool-cases (take_event get_id g e).1) [
    | inl taken ↦ absurd (ground (arith, h, taken))
    | inr refused ↦
        let rest : is_empty (add_events get_id (take_event get_id g e).0 evs).1 ≡ true =
          ground (arith, h, refused) in
        add_events_unchanged (take_event get_id g e).0 evs rest
        ∙ add_event_unchanged get_id g.store e refused
  ]

  seen-send_events :
      (s : EventsStorage) (g : GossipEvents) (src : NodeId) (evs : List Event)
      → seen s (send_events get_id g src evs) ≡ s
  seen-send_events s g src evs =
      seen-sends s
        (λ node_id.
          known_event_ids
            (filter_map (λ e. if not (node_id == e.src) then some (get_id e) else none) evs))
        (retain (λ node_id. not (node_id == src) && not (node_id == g.our_id)) g.nodes)

  -- Whoever knows the storage of before, and takes the storages that are sent, knows the storage of
  -- after.
  abbrev Follows : GossipEvents → GossipEvents × List GossipOut → Type 0
  Follows g r = seen g.store r.1 ≡ r.0.store

  on_add_event-Follows : (g : GossipEvents) (ev : Event) → Follows g (on_add_event get_id g ev)
  unfolding on_add_event
  on_add_event-Follows g ev =
      let (s, modified) = add_event get_id g.store ev in
      let g' = record g { store = s } in
      elim (Bool-cases modified) [
        | inl e ↦ ground (
          arith,
          e,
          seen-append g.store (send_events get_id g' g.our_id (ev ∷ [])) (updated ∷ storage s ∷ []),
        )
        | inr e ↦ ground (arith, e, add_event_unchanged get_id g.store ev e)
      ]

  node_events-Follows :
      (g : GossipEvents) (src : NodeId) (evs : List Event)
      → Follows g (node_events get_id g src evs)
  unfolding node_events
  node_events-Follows g src evs =
      let (g', taken) = add_events get_id g evs in
      let sends = send_events get_id g' src taken in
      let ends =
        seen-append g.store sends
          (if not (is_empty taken) then updated ∷ storage g'.store ∷ [] else []) in
      let sent = seen-send_events g.store g' src taken in
      elim (Bool-cases (is_empty taken)) [
        | inl e ↦ ground (arith, e, ends, sent, add_events_unchanged g evs e)
        | inr e ↦ ground (arith, e, ends, sent)
      ]

  node_message-Follows :
      (g : GossipEvents) (src : NodeId) (msg : ModuleMessage)
      → Follows g (process_node_message get_id g src msg)
  unfolding process_node_message node_known_event_ids node_request_events node_request_event_list
  node_message-Follows g src (known_event_ids ids) = ground arith
  node_message-Follows g src (events evs) = node_events-Follows g src evs
  node_message-Follows g src (request_events ids) = ground arith
  node_message-Follows g src request_event_ids = refl

  -- A storage that is set from outside is not sent.
  pub process_message-Follows :
      (g : GossipEvents) (i : GossipIn)
      → ((s : EventsStorage) → i ≢ set_storage s)
      → Follows g (process_message get_id g i)
  unfolding process_message on_tick on_node_list
  process_message-Follows g tick h = seen-sends g.store (λ id. request_event_ids) g.nodes
  process_message-Follows g (from_network src msg) h = node_message-Follows g src msg
  process_message-Follows g (in_add_event ev) h = on_add_event-Follows g ev
  process_message-Follows g (node_list ids) h =
      seen-sends g.store (λ id. request_event_ids)
        (retain (λ id. not (contains g.nodes id) && not (id == g.our_id)) ids)
  process_message-Follows g get_storage h = refl
  process_message-Follows g (set_storage s) h = absurd (h s refl)
