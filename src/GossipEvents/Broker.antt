-- ===== src/GossipEvents/Broker.antt =====
-- flmodules/src/gossip_events/broker.rs: the handler of the module in its broker, and the links to
-- the broker of the random connections.
pub mod Views
use fledger.Prelude.{Bool, String, Option, none, some, List, [], ◌∷◌, ◌++◌, map, filter_map}
use fledger.NodeIds.{U256}
use fledger.NetworkWrapper.{
  NetworkWrapper, Yaml, wrap_yaml, unwrap_yaml, Linked, linked, ignored, panicked,
}
use fledger.Timer.{TimerMessage, second, minute}
use fledger.RandomConnections.Messages.{
  node_ids_connected, network_wrapper_from_network, network_mapper_to_network, connect_node,
  disconnect_node, node_infos_connected, node_comm_to_network,
}
use fledger.RandomConnections.Messages
use fledger.RandomConnections.Broker.{RandomMessage}
use fledger.GossipEvents.Events.{Event, Category, text_message}
use fledger.Broker.Handle.{Broker, emit_msg}
use fledger.GossipEvents.Storage
use fledger.GossipEvents.Storage.{EventsStorage}
use fledger.GossipEvents.Messages.{
  ModuleMessage, GossipIn, GossipOut, GossipEvents, tick, from_network, node_list, to_network,
  storage, updated, process_message,
}

pub data GossipMessage : Type 0 where
  input : GossipIn → GossipMessage
  output : GossipOut → GossipMessage

abbrev pub module_name : String
module_name = "Gossip"

abbrev from_node : U256 → Option ModuleMessage → Linked GossipMessage
from_node id none = ignored
from_node id (some msg) = linked (input (from_network id msg))

abbrev to_node : U256 → Option NetworkWrapper → Linked RandomMessage
to_node id none = panicked
to_node id (some w) = linked (RandomMessage.input (network_mapper_to_network id w))

module _ (yaml : Yaml ModuleMessage) where
  unfoldable pub link_rnd_gossip : RandomMessage → Linked GossipMessage
  unfolding unwrap_yaml
  link_rnd_gossip (RandomMessage.output (node_ids_connected list)) = linked (input (node_list list))
  link_rnd_gossip (RandomMessage.output (network_wrapper_from_network id msg)) =
      from_node id (unwrap_yaml yaml msg module_name)
  link_rnd_gossip (RandomMessage.output (connect_node id)) = ignored
  link_rnd_gossip (RandomMessage.output (disconnect_node id)) = ignored
  link_rnd_gossip (RandomMessage.output (node_infos_connected infos)) = ignored
  link_rnd_gossip (RandomMessage.output (node_comm_to_network id msg)) = ignored
  link_rnd_gossip (RandomMessage.output (Messages.storage s)) = ignored
  link_rnd_gossip (RandomMessage.input msg) = ignored

  unfoldable pub link_gossip_rnd : GossipMessage → Linked RandomMessage
  unfolding wrap_yaml
  link_gossip_rnd (output (to_network id msg_node)) =
      to_node id (wrap_yaml yaml module_name msg_node)
  link_gossip_rnd (output (storage s)) = ignored
  link_gossip_rnd (output updated) = ignored
  link_gossip_rnd (input msg) = ignored

-- The closure of `add_timer`.
unfoldable link_timer_gossip : TimerMessage → Option GossipMessage
link_timer_gossip minute = some (input tick)
link_timer_gossip second = none

abbrev storage_of : GossipOut → Option EventsStorage
storage_of (storage s) = some s
storage_of (to_network id msg) = none
storage_of updated = none

-- The module behind its handler, and what was sent to `storage_tx`.
pub record Translate : Type 0 where
  pub storage_tx : List EventsStorage
  pub module_state : GossipEvents

module _ (get_id : Event → U256) where
  unfoldable pub handle_inputs : Translate → List GossipMessage → Translate × List GossipOut
  handle_inputs tr [] = (tr, [])
  handle_inputs tr (output msg ∷ msgs) = handle_inputs tr msgs
  handle_inputs tr (input msg ∷ msgs) =
      let (g, out) = process_message get_id tr.module_state msg in
      let (tr', rest) = handle_inputs (record tr { module_state = g }) msgs in (tr', out ++ rest)

  -- The handler's reply to a batch.
  unfoldable pub messages : Translate → List GossipMessage → Translate × List GossipMessage
  unfolding handle_inputs
  messages tr msgs =
      let (tr', out) = handle_inputs tr msgs in
      (record tr' { storage_tx = tr'.storage_tx ++ filter_map storage_of out }, map output out)

-- What the rest of the program sees of the module.
pub record GossipBroker : Type 0 where
  pub storage : EventsStorage
  pub storage_rx : List EventsStorage

unfoldable pub start : GossipBroker
start = record { storage = Storage.new; storage_rx = [] }

-- The `for` of `update`: the last storage that waits is kept.
unfoldable pub latest : EventsStorage → List EventsStorage → EventsStorage
latest s [] = s
latest s (u ∷ us) = latest u us

unfoldable pub update : GossipBroker → GossipBroker
unfolding latest
update b = record { storage = latest b.storage b.storage_rx; storage_rx = [] }

-- `add_event` of the broker: the event goes to the module as a message; `false` is the error of a
-- broker that is gone.
unfoldable add_event : {S : Type 0} → Event → Broker GossipMessage S → Broker GossipMessage S × Bool
unfolding emit_msg
add_event event broker = emit_msg (input (GossipIn.add_event event)) broker

-- `none` is the panic of a category that is not there.
unfoldable events : GossipBroker → Category → Option (List Event)
events b cat = Storage.events b.storage cat

unfoldable chat_events : GossipBroker → Option (List Event)
unfolding events
chat_events b = events b text_message

unfoldable event_ids : (Event → U256) → GossipBroker → List U256
event_ids get_id b = Storage.event_ids get_id b.storage

unfoldable event : (Event → U256) → GossipBroker → U256 → Option Event
event get_id b id = Storage.event get_id b.storage id
