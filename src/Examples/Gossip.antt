-- ===== src/Examples/Gossip.antt =====
-- flmodules/src/gossip_events with concrete events.
use fledger.Prelude.{
  ℕ, ◌+◌, ◌*◌, ◌≡◌, refl, subst, true, false, none, some, List, [], ◌∷◌, arith, find, ◌==◌,
  IsDistinct,
}
use fledger.Prelude.Int.{ℤ, pos, negsuc, ltb_ℤ, ◌≤ℤ◌}
use fledger.Prelude.Maps.{keys, get, map_values}
use fledger.Prelude.Sorting.{sort_by}
use mathlib.Core.Option.{some-injective}
use fledger.NodeIds.{NodeId, U256}
use fledger.GossipEvents.Events.{
  text_message, node_info, Event, Events, limit, surplus, insert, get_events_by_ids, get_event,
}
use fledger.GossipEvents.Events.Limit.{limit_keeps_latest}
use fledger.GossipEvents.Events.Unique
use fledger.GossipEvents.Events.Acceptance.{insert_too_old, insert_stored}
use fledger.GossipEvents.Storage
use fledger.GossipEvents.Storage.{EventsStorage, get_category, add_event as store_event}
use fledger.GossipEvents.Storage.Laws
use fledger.GossipEvents.Storage.Laws.{add_event_other, new-IsValid}
use fledger.GossipEvents.Messages.{
  GossipEvents, GossipIn, known_event_ids, events, tick, from_network, set_storage, add_event,
  node_list, new, process_messages, node_known_event_ids,
}
use fledger.GossipEvents.Messages.Invariant.{process_messages-IsValid}
use fledger.GossipEvents.Messages.Requests.{node_known_event_ids_twice}

-- An identifier that tells the events of this file apart.
abbrev pub event_id : Event → U256
event_id e = e.src * 1000 + date e.created
  where
    date : ℤ → ℕ
    date (pos n) = n
    date (negsuc n) = 500 + n

abbrev pub text : NodeId → ℕ → Event
text src created = record {
  category = text_message;
  src = src;
  created = pos created;
  msg = "hello";
}

abbrev info : NodeId → ℕ → Event
info src created = record { category = node_info; src = src; created = pos created; msg = "info" }

-- A full category, with two events.
abbrev pub full : Events
full = record {
  config = record { unique = false; max_events = 2 };
  events = (1020, text 1 20) ∷ (2030, text 2 30) ∷ [];
}

-- One event more than the category allows.
abbrev crowded : Events
crowded = record full { events = (1020, text 1 20) ∷ (3010, text 3 10) ∷ (2030, text 2 30) ∷ [] }

-- A category that holds one event of each source.
abbrev latest_infos : Events
latest_infos = record {
  config = record { unique = true; max_events = 5 };
  events = (1020, info 1 20) ∷ [];
}

crowded-IsDistinct : IsDistinct (keys crowded.events)
crowded-IsDistinct = λ y. ground arith

full-IsValid : Unique.IsValid event_id full
full-IsValid = record {
  once = λ y. ground arith;
  named = (refl, (refl, tt));
  bounded = omega arith;
  one_per_source = λ unique src. ground arith;
}

limit_run : limit crowded ≡ full
unfolding limit surplus sort_by map_values
limit_run = refl

limit_keeps_latest_example : (text 3 10).created ≤ℤ (text 1 20).created
limit_keeps_latest_example =
    limit_keeps_latest crowded crowded-IsDistinct 1020 3010 (text 1 20) (text 3 10)
      (rw limit_run refl) refl (rw limit_run refl)

insert_too_old_example :
    ((insert event_id full (text 3 10)).1 ≡ true)
    × (get 3010 (insert event_id full (text 3 10)).0.events ≡ none)
insert_too_old_example =
    insert_too_old event_id full (text 3 10) full-IsValid refl refl refl (refl, (refl, tt))

insert_stored_example :
    (get 1030 (insert event_id latest_infos (info 1 30)).0.events ≡ some (info 1 30))
    × ((insert event_id latest_infos (info 1 30)).1 ≡ true)
insert_stored_example = insert_stored event_id latest_infos (info 1 30) (omega arith) refl older
  where
    older :
        latest_infos.config.unique ≡ true
        → (e : U256 × Event) → find (λ e. e.1.src == 1) latest_infos.events ≡ some e
        → ltb_ℤ (pos 30) e.1.created ≡ false
    older unique e found =
        subst (λ (x : U256 × Event). ltb_ℤ (pos 30) x.1.created ≡ false) (some-injective _ _ found)
          refl

abbrev exchange : List GossipIn
exchange =
    node_list (1 ∷ 2 ∷ [])
    ∷ add_event (text 7 20)
    ∷ from_network 1 (known_event_ids (1020 ∷ []))
    ∷ from_network 1 (events (text 1 20 ∷ info 1 10 ∷ []))
    ∷ set_storage Storage.new
    ∷ tick
    ∷ []

process_messages-IsValid_example :
    Laws.IsValid event_id (process_messages event_id (new 7) exchange).0.store
process_messages-IsValid_example =
    process_messages-IsValid event_id (new 7) exchange
      (tt, (tt, (tt, (tt, (new-IsValid event_id, (tt, tt)))))) (new-IsValid event_id)

node_known_event_ids_twice_example :
    let g' = (node_known_event_ids event_id (new 7) 1 (1020 ∷ [])).0 in
    (node_known_event_ids event_id g' 2 (1020 ∷ 2030 ∷ [])
      ≡ node_known_event_ids event_id g' 2 (2030 ∷ []))
    × (node_known_event_ids event_id g' 2 (1020 ∷ []) ≡ (g', []))
node_known_event_ids_twice_example =
    node_known_event_ids_twice event_id (new 7) 1 2 (1020 ∷ []) (1020 ∷ 2030 ∷ [])

-- Node 1 holds the event, node 2 does not.
abbrev holder : GossipEvents
holder = record (new 1) {
  store = record Storage.new {
    text_messages = some (record {
      config = record { unique = false; max_events = 50 };
      events = (1020, text 1 20) ∷ [];
    });
  };
}

abbrev asker : GossipEvents
asker = record (new 2) { nodes = 1 ∷ 3 ∷ [] }

event_run :
    (Storage.event event_id holder.store 1020 ≡ some (text 1 20))
    × (Storage.event event_id holder.store 1021 ≡ none)
unfolding Storage.event Storage.first_event get_event get_events_by_ids
event_run = (refl, refl)
