-- ===== src/GossipEvents/Messages.antt =====
-- flmodules/src/gossip_events/messages.rs: the messages of the module and its handler.
pub mod Invariant
pub mod Requests
pub mod Exchange
pub mod Outputs
use fledger.Prelude.{
  Bool, true, false, not, ◌&&◌, Option, none, some, List, [], ◌∷◌, ◌++◌, map, ◌==◌, if◌then◌else◌,
  is_empty, retain, filter_map, contains,
}
use fledger.NodeIds.{NodeId, NodeIds, U256}
use fledger.GossipEvents.Events.{Event}
use fledger.GossipEvents.Storage
use fledger.GossipEvents.Storage.{EventsStorage}

pub data ModuleMessage : Type 0 where
  known_event_ids : List U256 → ModuleMessage
  events : List Event → ModuleMessage
  request_event_ids : ModuleMessage
  request_events : List U256 → ModuleMessage

pub data GossipIn : Type 0 where
  tick : GossipIn
  from_network : NodeId → ModuleMessage → GossipIn
  set_storage : EventsStorage → GossipIn
  get_storage : GossipIn
  add_event : Event → GossipIn
  node_list : NodeIds → GossipIn

pub data GossipOut : Type 0 where
  to_network : NodeId → ModuleMessage → GossipOut
  storage : EventsStorage → GossipOut
  updated : GossipOut

pub record GossipEvents : Type 0 where
  pub store : EventsStorage
  pub our_id : NodeId
  pub nodes : NodeIds
  pub outstanding : List U256

abbrev pub new : NodeId → GossipEvents
new our_id = record { store = Storage.new; our_id = our_id; nodes = []; outstanding = [] }

abbrev pub Handled : Type 0
Handled = GossipEvents × List GossipOut

pub on_tick : GossipEvents → Handled
on_tick g = (record g { outstanding = [] }, map (λ id. to_network id request_event_ids) g.nodes)

pub on_node_list : GossipEvents → NodeIds → Handled
on_node_list g ids = (
  record g { nodes = ids },
  map (λ id. to_network id request_event_ids)
      (retain (λ id. not (contains g.nodes id) && not (id == g.our_id)) ids),
)

module _ (get_id : Event → U256) where
  abbrev pub send_events : GossipEvents → NodeId → List Event → List GossipOut
  send_events g src evs =
      map
        (λ node_id. to_network node_id (
          known_event_ids
            (filter_map (λ e. if not (node_id == e.src) then some (get_id e) else none) evs)))
        (retain (λ node_id. not (node_id == src) && not (node_id == g.our_id)) g.nodes)

  pub on_add_event : GossipEvents → Event → Handled
  on_add_event g event =
      let (s, modified) = Storage.add_event get_id g.store event in
      let g' = record g { store = s } in
      if modified
      then (g', send_events g' g.our_id (event ∷ []) ++ updated ∷ storage s ∷ [])
      else (g', [])

  -- One event of `add_events`: it is no longer outstanding, and the storage takes it or not.
  pub take_event : GossipEvents → Event → GossipEvents × Bool
  take_event g e =
      let (s, modified) = Storage.add_event get_id g.store e in
      (
        record g { store = s; outstanding = retain (λ os. not (os == get_id e)) g.outstanding },
        modified,
      )

  -- The iterator runs both steps for one event before it goes on to the next.
  pub add_events : GossipEvents → List Event → GossipEvents × List Event
  unfolding take_event
  add_events g [] = (g, [])
  add_events g (e ∷ evs) =
      let rest = add_events (take_event g e).0 evs in
      (rest.0, if (take_event g e).1 then e ∷ rest.1 else rest.1)

  pub filter_known_events : GossipEvents → List U256 → List U256
  filter_known_events g eventids =
      retain
        (λ id.
          not (contains (Storage.event_ids get_id g.store) id) && not (contains g.outstanding id))
        eventids

  pub node_known_event_ids : GossipEvents → NodeId → List U256 → Handled
  node_known_event_ids g src ids =
      let unknown_ids = filter_known_events g ids in
      if not (is_empty unknown_ids)
      then (
        record g { outstanding = g.outstanding ++ unknown_ids },
        to_network src (request_events unknown_ids) ∷ [],
      )
      else (g, [])

  pub node_events : GossipEvents → NodeId → List Event → Handled
  node_events g src evs =
      let (g', events_out) = add_events g evs in
      (
        g',
        send_events g' src events_out
            ++ (if not (is_empty events_out) then updated ∷ storage g'.store ∷ [] else []),
      )

  pub node_request_events : GossipEvents → NodeId → List U256 → Handled
  node_request_events g src ids =
      let evs = Storage.get_events_by_ids get_id g.store ids in
      (g, if not (is_empty evs) then to_network src (events evs) ∷ [] else [])

  pub node_request_event_list : GossipEvents → NodeId → Handled
  node_request_event_list g src =
      (g, to_network src (known_event_ids (Storage.event_ids get_id g.store)) ∷ [])

  pub process_node_message : GossipEvents → NodeId → ModuleMessage → Handled
  process_node_message g src (known_event_ids ids) = node_known_event_ids g src ids
  process_node_message g src (events evs) = node_events g src evs
  process_node_message g src (request_events ids) = node_request_events g src ids
  process_node_message g src request_event_ids = node_request_event_list g src

  -- The source returns a `Result`, and no branch is an error.
  pub process_message : GossipEvents → GossipIn → Handled
  unfolding process_node_message
  process_message g tick = on_tick g
  process_message g (from_network src msg) = process_node_message g src msg
  process_message g (add_event ev) = on_add_event g ev
  process_message g (node_list ids) = on_node_list g ids
  process_message g get_storage = (g, storage g.store ∷ [])
  process_message g (set_storage s) = (record g { store = s }, [])

  pub process_messages : GossipEvents → List GossipIn → Handled
  process_messages g [] = (g, [])
  process_messages g (msg ∷ msgs) =
      let (g', out) = process_message g msg in
      let (g'', rest) = process_messages g' msgs in (g'', out ++ rest)
