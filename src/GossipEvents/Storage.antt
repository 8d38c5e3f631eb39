-- ===== src/GossipEvents/Storage.antt =====
-- flmodules/src/gossip_events/core.rs: the events of all categories.
-- The methods of `EventsStorage` are the functions of this module.
pub mod Laws
pub mod Migration
use fledger.Prelude.{Bool, true, false, Option, none, some, List, [], ◌++◌, ◌∷◌, map, flat_map}
use fledger.Prelude.Maps.{values}
use fledger.NodeIds.{U256}
use fledger.GossipEvents.Events
use fledger.GossipEvents.Events.{Category, text_message, node_info, Event, Events}

-- A map over the two categories: an entry for each category, or none. `values()` runs through them
-- in this order here.
pub record EventsStorage : Type 0 where
  pub text_messages : Option Events
  pub node_infos : Option Events

abbrev pub new : EventsStorage
new = record {
  text_messages =
      some (record { config = record { unique = false; max_events = 50 }; events = [] });
  node_infos = some (record { config = record { unique = true; max_events = 100 }; events = [] });
}

abbrev pub get_category : EventsStorage → Category → Option Events
get_category s text_message = s.text_messages
get_category s node_info = s.node_infos

abbrev pub put_category : EventsStorage → Category → Events → EventsStorage
put_category s text_message es = record s { text_messages = some es }
put_category s node_info es = record s { node_infos = some es }

abbrev option_list {ℓ} : {A : Type ℓ} → Option A → List A
option_list none = []
option_list (some a) = a ∷ []

abbrev storage_values : EventsStorage → List Events
storage_values s = option_list s.text_messages ++ option_list s.node_infos

-- `get_id` is the SHA-256 hash over the fields of an event.
module _ (get_id : Event → U256) where
  -- `entry(..).and_modify(..)`: a category that is not there stays away.
  pub add_event : EventsStorage → Event → EventsStorage × Bool
  add_event s msg = elim (get_category s msg.category) [
    | none ↦ (s, false)
    | some es ↦
        let (es', modified) = Events.insert get_id es msg in
        (put_category s msg.category es', modified)
  ]

  unfoldable pub first_event : List Events → U256 → Option Event
  first_event [] id = none
  first_event (es ∷ l) id = elim (Events.get_event get_id es id) [
    | none ↦ first_event l id
    | some e ↦ some e
  ]

  unfoldable pub event : EventsStorage → U256 → Option Event
  unfolding first_event
  event s id = first_event (storage_values s) id

  unfoldable pub get_events_by_ids : EventsStorage → List U256 → List Event
  get_events_by_ids s ids =
      flat_map (λ es. Events.get_events_by_ids get_id es ids) (storage_values s)

  unfoldable pub event_ids : EventsStorage → List U256
  event_ids s = flat_map (λ es. map get_id (values es.events)) (storage_values s)

-- `none` is the panic of `unwrap` at a category that is not there.
abbrev pub events : EventsStorage → Category → Option (List Event)
events s cat = elim (get_category s cat) [ none ↦ none | some es ↦ some (values es.events) ]
