-- ===== src/GossipEvents/Storage/Migration/Named.antt =====
-- flmodules/src/gossip_events/core.rs: what storages of the versions are read as.
use fledger.Prelude.{
  String, Option, none, some, List, [], ◌∷◌, ◌≡◌, refl, arith, map, true, All, IsDistinct,
}
use fledger.Prelude.Maps.{Map, keys, insert, All-insert, insert-IsDistinct}
use fledger.NodeIds.{U256}
use fledger.NetworkWrapper.{Yaml, RoundTrips}
use fledger.GossipEvents.Events.{Event, Events}
use fledger.GossipEvents.Storage.{EventsStorage}
use fledger.GossipEvents.Storage.Migration.{
  Floats, map_option, EventsStorageV1, EventsV2, collect_from, collect, rename, event_v2_to_latest,
  events_v2_to_latest, v1_to_latest, v2_to_latest, v3_to_latest, EventsStorageSave, v1, v2, v3, v4,
  to_latest, from_str, get, set,
}

module _ (get_id : Event → U256) where
  -- Every event is stored under its own identifier, and under no other.
  abbrev IsNamed : Map Event → Type 0
  IsNamed m = All (λ e. e.0 ≡ get_id e.1) m × IsDistinct (keys m)

  abbrev NamedEvents : Option Events → Type 0
  NamedEvents none = Unit
  NamedEvents (some es) = IsNamed es.events

  abbrev pub NamedStorage : EventsStorage → Type 0
  NamedStorage s = NamedEvents s.text_messages × NamedEvents s.node_infos

  collect_from-IsNamed :
      (m : Map Event) (es : List (U256 × Event))
      → IsNamed m
      → All (λ e. e.0 ≡ get_id e.1) es
      → IsNamed (collect_from m es)
  unfolding collect_from
  collect_from-IsNamed m [] n h = n
  collect_from-IsNamed m (e ∷ es) n h =
      collect_from-IsNamed (insert e.0 e.1 m) es
        (All-insert (λ e. e.0 ≡ get_id e.1) e.0 e.1 m h.0 n.0, insert-IsDistinct e.0 e.1 m n.1) h.1

  collect-IsNamed :
      (es : List (U256 × Event)) → All (λ e. e.0 ≡ get_id e.1) es → IsNamed (collect es)
  unfolding collect
  collect-IsNamed es h = collect_from-IsNamed [] es (tt, λ j. omega arith) h

  named_entries {ℓ} :
      {A : Type ℓ} (f : A → Event) (xs : List A)
      → All (λ (e : U256 × Event). e.0 ≡ get_id e.1) (map (λ x. (get_id (f x), f x)) xs)
  named_entries f [] = tt
  named_entries f (x ∷ xs) = (refl, named_entries f xs)

  rename-IsNamed : (o : Option Events) → NamedEvents (map_option (rename get_id) o)
  unfolding rename
  rename-IsNamed none = tt
  rename-IsNamed (some es) = collect-IsNamed _ (named_entries (λ e. e.1) es.events)

  module _ (floats : Floats) where
    v2-IsNamed :
        (o : Option (EventsV2 floats))
        → NamedEvents (map_option (events_v2_to_latest get_id floats) o)
    unfolding events_v2_to_latest
    v2-IsNamed none = tt
    v2-IsNamed (some es) =
        collect-IsNamed _ (named_entries (λ e. event_v2_to_latest floats e.1) es.events)

    -- A storage of an older version.
    abbrev IsOld : EventsStorageSave get_id floats → Type 0
    IsOld (v1 s) = Unit
    IsOld (v2 s) = Unit
    IsOld (v3 s) = Unit
    IsOld (v4 s) = ⊥

    -- Whatever keys a storage of version 1, 2 or 3 has: in what it is migrated to, every event is
    -- stored under its own identifier, and no identifier is there twice.
    pub to_latest-IsNamed :
        (s : EventsStorageSave get_id floats) → IsOld s → NamedStorage (to_latest get_id floats s)
    unfolding to_latest v1_to_latest v2_to_latest v3_to_latest
    to_latest-IsNamed (v1 s) old = (v2-IsNamed _, v2-IsNamed _)
    to_latest-IsNamed (v2 s) old = (v2-IsNamed s.text_messages, v2-IsNamed s.node_infos)
    to_latest-IsNamed (v3 s) old = (rename-IsNamed s.text_messages, rename-IsNamed s.node_infos)
    to_latest-IsNamed (v4 s) old = elim old [ ]

    module _ (yaml : Yaml (EventsStorageSave get_id floats)) (yaml_v1 : Yaml EventsStorageV1) where
      -- A storage that was saved is set again as it was, whatever was there, if YAML that was written
      -- is read back.
      set-get :
          RoundTrips yaml
          → (s other : EventsStorage) (text : String) → get get_id floats yaml yaml_v1 s ≡ some text
          → set get_id floats yaml yaml_v1 other text ≡ (s, true)
      unfolding set get from_str to_latest
      set-get trips s other text e = ground (arith, trips.from_str-to_string (v4 s) text e)
