-- ===== src/GossipEvents/Events.antt =====
-- flmodules/src/gossip_events/core.rs: the events of one category, with their limits.
-- The methods of `Events` are the functions of this module.
pub mod Limit
pub mod Unique
pub mod Acceptance
use fledger.Prelude.{
  ℕ, String, Bool, true, false, Option, none, some, List, [], ◌∷◌, map, leb, ◌==◌, if◌then◌else◌,
  is_some, length, drop, retain, find, filter_map, contains,
}
use fledger.Prelude.Int.{ℤ, ltb_ℤ}
use fledger.Prelude.Sorting.{sort_by}
use fledger.Prelude.Maps.{
  Map, keys, values, get, insert as map_insert, remove, remove_all, map_values,
}
use fledger.NodeIds.{NodeId, U256}

pub data Category : Type 0 where
  text_message node_info : Category

pub record Event : Type 0 where
  pub category : Category
  pub src : NodeId
  pub created : ℤ
  pub msg : String

pub record CategoryConfig : Type 0 where
  pub unique : Bool
  pub max_events : ℕ

pub record Events : Type 0 where
  pub config : CategoryConfig
  pub events : Map Event

abbrev head {ℓ} : {A : Type ℓ} → List A → Option A
head [] = none
head (a ∷ l) = some a

-- The comparison of `limit`: the entry with the later date comes first.
abbrev pub later : U256 × ℤ → U256 × ℤ → Bool
later a b = ltb_ℤ b.1 a.1

-- The identifiers past the first `max_events`, the latest first.
unfoldable pub surplus : Events → List U256
surplus es =
    keys (drop es.config.max_events (sort_by later (map_values (λ e. e.created) es.events)))

unfoldable pub limit : Events → Events
unfolding surplus
limit es =
    if leb (length es.events) es.config.max_events
    then es
    else record es { events = remove_all (surplus es) es.events }

-- `get_id` is the SHA-256 hash over the fields of an event.
module _ (get_id : Event → U256) where
  pub insert_simple : Events → Event → Events × Bool
  insert_simple es msg =
      (limit (record es { events = map_insert (get_id msg) msg es.events }), true)

  unfoldable pub insert_unique : Events → Event → Events × Bool
  insert_unique es msg = elim (find (λ e. e.1.src == msg.src) es.events) [
    | none ↦ insert_simple es msg
    | some (id, ev) ↦
        if ltb_ℤ msg.created ev.created
        then (es, false)
        else insert_simple (record es { events = remove id es.events }) msg
  ]

  unfoldable pub insert : Events → Event → Events × Bool
  insert es msg =
      if is_some (get (get_id msg) es.events)
      then (es, false)
      else if es.config.unique
      then insert_unique es msg
      else insert_simple es msg

  unfoldable pub get_events_by_ids : Events → List U256 → List Event
  get_events_by_ids es ids =
      if es.config.unique
      then retain (λ msg. contains ids (get_id msg)) (values es.events)
      else filter_map (λ id. get id es.events) ids

  unfoldable pub get_event : Events → U256 → Option Event
  get_event es id = head (get_events_by_ids es (id ∷ []))
