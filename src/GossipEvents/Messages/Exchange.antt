-- ===== src/GossipEvents/Messages/Exchange.antt =====
-- flmodules/src/gossip_events/messages.rs: how an event gets from one node to another.
use fledger.Prelude.{◌<◌, ◌≡◌, true, false, ◌==◌, none, some, length, find, contains}
use fledger.Prelude.Int.{ltb_ℤ}
use fledger.Prelude.Maps.{get}
use fledger.NodeIds.{U256}
use fledger.GossipEvents.Events.{Event, Events}
use fledger.GossipEvents.Storage
use fledger.GossipEvents.Storage.{EventsStorage, get_category}
use fledger.GossipEvents.Messages.{GossipEvents, events}

module _ (get_id : Event → U256) where
  -- The storage holds the event under its identifier.
  abbrev pub Stores : EventsStorage → Event → Type 0
  Stores s e =
      (es : Events) × (get_category s e.category ≡ some es) × (get (get_id e) es.events ≡ some e)

  -- There is room for the event, and no later one of the same source in a unique category.
  pub record Accepts (s : EventsStorage) (e : Event) : Type 0 where
    pub there : Events
    pub category_there : get_category s e.category ≡ some there
    pub room : length there.events < there.config.max_events
    pub absent : get (get_id e) there.events ≡ none
    pub latest :
        there.config.unique ≡ true
        → (other : U256 × Event) → find (λ x. x.1.src == e.src) there.events ≡ some other
        → ltb_ℤ e.created other.1.created ≡ false

  -- The node neither has the event nor has asked for it.
  pub record IsMissing (g : GossipEvents) (e : Event) : Type 0 where
    pub not_stored : contains (Storage.event_ids get_id g.store) (get_id e) ≡ false
    pub not_asked : contains g.outstanding (get_id e) ≡ false
