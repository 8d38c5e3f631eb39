-- ===== src/GossipEvents/Messages/Invariant.antt =====
-- flmodules/src/gossip_events/messages.rs: the stored events stay valid under every message.
use fledger.Prelude.{List, [], ◌∷◌, All, is_empty, not, if_cases}
use fledger.NodeIds.{NodeId, U256}
use fledger.GossipEvents.Events.{Event}
use fledger.GossipEvents.Storage
use fledger.GossipEvents.Storage.{EventsStorage}
use fledger.GossipEvents.Storage.Laws
use fledger.GossipEvents.Storage.Laws.{add_event-IsValid}
use fledger.GossipEvents.Messages.{
  ModuleMessage, known_event_ids, events, request_event_ids, request_events, GossipIn, tick,
  from_network, set_storage, get_storage, add_event, node_list, GossipEvents, Handled, on_tick,
  on_node_list, on_add_event, add_events, take_event, filter_known_events, node_known_event_ids,
  node_events, node_request_events, node_request_event_list, process_node_message, process_message,
  process_messages,
}

module _ (get_id : Event → U256) where
  abbrev IsValid : EventsStorage → Type 0
  IsValid = Laws.IsValid get_id

  -- A storage that is handed in from outside is valid.
  abbrev BringsValid : GossipIn → Type 0
  BringsValid tick = Unit
  BringsValid (from_network src msg) = Unit
  BringsValid (set_storage s) = Laws.IsValid get_id s
  BringsValid get_storage = Unit
  BringsValid (add_event e) = Unit
  BringsValid (node_list ids) = Unit

  add_events-IsValid :
      (g : GossipEvents) (evs : List Event)
      → IsValid g.store
      → IsValid (add_events get_id g evs).0.store
  unfolding add_events
  add_events-IsValid g [] v = v
  add_events-IsValid g (e ∷ evs) v =
      add_events-IsValid (take_event get_id g e).0 evs (add_event-IsValid get_id g.store e v)

  abbrev Keeps : Handled → Type 0
  Keeps h = IsValid h.0.store

  node_message-IsValid :
      (g : GossipEvents) (src : NodeId) (msg : ModuleMessage)
      → IsValid g.store
      → Keeps (process_node_message get_id g src msg)
  unfolding process_node_message node_known_event_ids node_events node_request_events
      node_request_event_list
  node_message-IsValid g src (known_event_ids ids) v =
      if_cases Keeps (not (is_empty (filter_known_events get_id g ids))) _ _ (λ h. v) (λ h. v)
  node_message-IsValid g src (events evs) v = add_events-IsValid g evs v
  node_message-IsValid g src (request_events ids) v = v
  node_message-IsValid g src request_event_ids v = v

  process_message-IsValid :
      (g : GossipEvents) (msg : GossipIn)
      → BringsValid msg
      → IsValid g.store
      → Keeps (process_message get_id g msg)
  unfolding process_message on_tick on_node_list on_add_event
  process_message-IsValid g tick b v = v
  process_message-IsValid g (from_network src msg) b v = node_message-IsValid g src msg v
  process_message-IsValid g (set_storage s) b v = b
  process_message-IsValid g get_storage b v = v
  process_message-IsValid g (add_event e) b v =
      if_cases Keeps (Storage.add_event get_id g.store e).1 _ _
        (λ h. add_event-IsValid get_id g.store e v) (λ h. add_event-IsValid get_id g.store e v)
  process_message-IsValid g (node_list ids) b v = v

  -- From a valid storage, and where a storage that is handed in from outside is valid, whatever the
  -- network and the user send, every category stays within its number of events, with each event
  -- under its own identifier and one event of a source at most where events are unique.
  pub process_messages-IsValid :
      (g : GossipEvents) (msgs : List GossipIn)
      → All BringsValid msgs
      → Laws.IsValid get_id g.store
      → Laws.IsValid get_id (process_messages get_id g msgs).0.store
  unfolding process_messages
  process_messages-IsValid g [] b v = v
  process_messages-IsValid g (msg ∷ msgs) b v =
      process_messages-IsValid (process_message get_id g msg).0 msgs b.1
        (process_message-IsValid g msg b.0 v)
