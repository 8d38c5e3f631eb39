-- ===== src/GossipEvents/Storage/Migration.antt =====
-- flmodules/src/gossip_events/core.rs: storages as texts, older versions included. A date of version 2
-- is an `f64`, whose conversions are parameters.
pub mod Named
use fledger.Prelude.{ℕ, String, Bool, true, false, Option, none, some, List, [], ◌∷◌, map}
use fledger.Prelude.Int.{ℤ}
use fledger.Prelude.Maps.{Map, insert}
use fledger.NodeIds.{U256, NodeId}
use fledger.NetworkWrapper.{Yaml}
use fledger.GossipEvents.Events.{Category, Event, Events, CategoryConfig}
use fledger.GossipEvents.Storage.{EventsStorage}

-- `as f64` and `as i64`.
pub record Floats : Type 1 where
  pub F : Type 0
  pub of_i64 : ℤ → F
  pub to_i64 : F → ℤ

-- A map over the two categories.
pub record Categories (E : Type 0) : Type 0 where
  pub text_messages : Option E
  pub node_infos : Option E

module _ {A B : Type 0} (f : A → B) where
  abbrev pub map_option : Option A → Option B
  map_option none = none
  map_option (some a) = some (f a)

  abbrev map_categories : Categories A → Categories B
  map_categories c = record {
    text_messages = map_option c.text_messages;
    node_infos = map_option c.node_infos;
  }

pub record EventV1 : Type 0 where
  pub category : Category
  pub src : U256
  pub created : ℤ
  pub msg : String

pub record EventsV1 : Type 0 where
  pub config : CategoryConfig
  pub events : Map EventV1

abbrev pub EventsStorageV1 : Type 0
EventsStorageV1 = Categories EventsV1

abbrev EventsStorageV3 : Type 0
EventsStorageV3 = Categories Events

-- `collect` into a map: of entries with one key, the last one stays.
unfoldable pub collect_from : Map Event → List (U256 × Event) → Map Event
collect_from m [] = m
collect_from m (e ∷ es) = collect_from (insert e.0 e.1 m) es

unfoldable pub collect : List (U256 × Event) → Map Event
unfolding collect_from
collect es = collect_from [] es

abbrev pub storage_of : Categories Events → EventsStorage
storage_of c = record { text_messages = c.text_messages; node_infos = c.node_infos }

module _ (floats : Floats) where
  pub record EventV2 : Type 0 where
    pub category : Category
    pub src : NodeId
    pub created : floats.F
    pub msg : String

  pub record EventsV2 : Type 0 where
    pub config : CategoryConfig
    pub events : Map EventV2

  abbrev EventsStorageV2 : Type 0
  EventsStorageV2 = Categories EventsV2

  unfoldable events_v1_to_latest : EventsV1 → EventsV2
  events_v1_to_latest es = record {
    config = es.config;
    events =
        map
          (λ e. (
            e.0,
            record {
              category = e.1.category;
              src = e.1.src;
              created = floats.of_i64 e.1.created;
              msg = e.1.msg;
            },
          ))
          es.events;
  }

  unfoldable pub event_v2_to_latest : EventV2 → Event
  event_v2_to_latest v = record {
    category = v.category;
    src = v.src;
    created = floats.to_i64 v.created;
    msg = v.msg;
  }

module _ (get_id : Event → U256) where
  -- `to_latest` of version 3: the events are stored under their identifiers again.
  unfoldable pub rename : Events → Events
  unfolding collect
  rename es = record {
    config = es.config;
    events = collect (map (λ e. (get_id e.1, e.1)) es.events);
  }

  unfoldable pub v3_to_latest : EventsStorageV3 → EventsStorage
  unfolding rename
  v3_to_latest s = storage_of (map_categories rename s)

  module _ (floats : Floats) where
    unfoldable pub events_v2_to_latest : EventsV2 floats → Events
    unfolding collect event_v2_to_latest
    events_v2_to_latest es = record {
      config = es.config;
      events = collect (
          map (λ e. let latest = event_v2_to_latest floats e.1 in (get_id latest, latest))
            es.events);
    }

    unfoldable pub v2_to_latest : EventsStorageV2 floats → EventsStorage
    unfolding events_v2_to_latest
    v2_to_latest s = storage_of (map_categories events_v2_to_latest s)

    unfoldable pub v1_to_latest : EventsStorageV1 → EventsStorage
    unfolding events_v1_to_latest v2_to_latest
    v1_to_latest s = v2_to_latest (map_categories (events_v1_to_latest floats) s)

    pub data EventsStorageSave : Type 0 where
      v1 : EventsStorageV1 → EventsStorageSave
      v2 : EventsStorageV2 floats → EventsStorageSave
      v3 : EventsStorageV3 → EventsStorageSave
      v4 : EventsStorage → EventsStorageSave

    unfoldable pub to_latest : EventsStorageSave → EventsStorage
    unfolding v1_to_latest v2_to_latest v3_to_latest
    to_latest (v1 es) = v1_to_latest es
    to_latest (v2 es) = v2_to_latest es
    to_latest (v3 es) = v3_to_latest es
    to_latest (v4 es) = es

    module _ (yaml : Yaml EventsStorageSave) (yaml_v1 : Yaml EventsStorageV1) where
      -- A text without a version is one of version 1.
      unfoldable pub from_str : String → Option EventsStorage
      unfolding to_latest
      from_str text = elim (yaml.from_str text) [
        | some es ↦ some (to_latest es)
        | none ↦ map_option v1_to_latest (yaml_v1.from_str text)
      ]

      unfoldable pub get : EventsStorage → Option String
      get s = yaml.to_string (v4 s)

      abbrev or_kept : EventsStorage → Option EventsStorage → EventsStorage × Bool
      or_kept s none = (s, false)
      or_kept s (some new) = (new, true)

      -- The storage afterwards, and whether the text could be read.
      unfoldable pub set : EventsStorage → String → EventsStorage × Bool
      unfolding from_str
      set s text = or_kept s (from_str text)
