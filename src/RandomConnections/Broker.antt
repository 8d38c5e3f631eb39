-- ===== src/RandomConnections/Broker.antt =====
-- flmodules/src/random_connections/broker.rs: the handler of the module in its broker, and the links
-- to the network's broker.
pub mod Views
pub mod Transport
use fledger.Prelude.{
  ℕ, String, Bool, true, false, not, Option, none, some, List, [], ◌∷◌, ◌++◌, map, ◌==◌,
  if◌then◌else◌, filter_map,
}
use fledger.NodeIds.{U256}
use fledger.NodeInfo.{NodeInfo, get_id}
use fledger.NetworkWrapper.{Yaml, Linked, linked, ignored, panicked}
use fledger.Timer.{TimerMessage, second, minute}
use fledger.Network.Broker.{
  NetworkMessage, message_to_node, connect_to, disconnect_from, message_from_node,
  node_list_from_ws, connection_state, connected, disconnected,
}
use fledger.RandomConnections.Storage.{Env, RandomStorage}
use fledger.RandomConnections.Storage
use fledger.RandomConnections.Messages.{
  ModuleMessage, RandomIn, RandomOut, RandomConnections, node_list, node_connected,
  node_disconnected, node_comm_from_network, tick, connect_node, disconnect_node,
  node_ids_connected, node_infos_connected, node_comm_to_network, network_wrapper_from_network,
  storage, new, default_config, process_message,
}

pub data RandomMessage : Type 0 where
  input : RandomIn → RandomMessage
  output : RandomOut → RandomMessage

-- The nodes but this one; `none` is the panic of `get_id`.
unfoldable pub others : U256 → List NodeInfo → Option (List NodeInfo)
unfolding get_id
others our_id [] = some []
others our_id (ni ∷ list) = elim (get_id ni) [
  | none ↦ none
  | some id ↦ elim (others our_id list) [
    | none ↦ none
    | some rest ↦ some (if id == our_id then rest else ni ∷ rest)
  ]
]

abbrev list_input : Option (List NodeInfo) → Linked RandomMessage
list_input none = panicked
list_input (some list) = linked (input (node_list list))

abbrev from_node : U256 → Option ModuleMessage → Linked RandomMessage
from_node id none = ignored
from_node id (some msg) = linked (input (node_comm_from_network id msg))

abbrev to_node : U256 → Option String → Linked NetworkMessage
to_node id none = panicked
to_node id (some text) = linked (NetworkMessage.input (message_to_node id text))

module _ (yaml : Yaml ModuleMessage) where
  unfoldable pub link_net_rnd : U256 → NetworkMessage → Linked RandomMessage
  unfolding others
  link_net_rnd our_id (NetworkMessage.output (message_from_node id msg_str)) =
      from_node id (yaml.from_str msg_str)
  link_net_rnd our_id (NetworkMessage.output (node_list_from_ws list)) =
      list_input (others our_id list)
  link_net_rnd our_id (NetworkMessage.output (connected id)) = linked (input (node_connected id))
  link_net_rnd our_id (NetworkMessage.output (disconnected id)) =
      linked (input (node_disconnected id))
  link_net_rnd our_id (NetworkMessage.output (connection_state s)) = ignored
  link_net_rnd our_id (NetworkMessage.input msg) = ignored
  link_net_rnd our_id (NetworkMessage.web_socket msg) = ignored
  link_net_rnd our_id (NetworkMessage.web_rtc msg) = ignored

  unfoldable pub link_rnd_net : RandomMessage → Linked NetworkMessage
  link_rnd_net (output (connect_node id)) = linked (NetworkMessage.input (connect_to id))
  link_rnd_net (output (disconnect_node id)) = linked (NetworkMessage.input (disconnect_from id))
  link_rnd_net (output (node_comm_to_network id msg)) = to_node id (yaml.to_string msg)
  link_rnd_net (output (node_ids_connected ids)) = ignored
  link_rnd_net (output (node_infos_connected infos)) = ignored
  link_rnd_net (output (network_wrapper_from_network id msg)) = ignored
  link_rnd_net (output (storage s)) = ignored
  link_rnd_net (input msg) = ignored

-- The closure of `add_timer`.
unfoldable link_timer_rnd : TimerMessage → Option RandomMessage
link_timer_rnd second = some (input tick)
link_timer_rnd minute = none

abbrev storage_of : RandomOut → Option RandomStorage
storage_of (storage s) = some s
storage_of (connect_node id) = none
storage_of (disconnect_node id) = none
storage_of (node_ids_connected ids) = none
storage_of (node_infos_connected infos) = none
storage_of (node_comm_to_network id msg) = none
storage_of (network_wrapper_from_network id msg) = none

module _ (env : Env) where
  -- The module behind its handler, with the generator that it draws from and what was sent to
  -- `storage_tx`.
  pub record Translate : Type 0 where
    pub storage_tx : List RandomStorage
    pub module_state : RandomConnections
    pub rng : env.Rng

  unfoldable pub handle_inputs : Translate → List RandomMessage → Translate × List RandomOut
  handle_inputs tr [] = (tr, [])
  handle_inputs tr (output msg ∷ msgs) = handle_inputs tr msgs
  handle_inputs tr (input msg ∷ msgs) =
      let (rc, out, rng) = process_message env tr.rng tr.module_state msg in
      let (tr', rest) = handle_inputs (record tr { module_state = rc; rng = rng }) msgs in
      (tr', out ++ rest)

  -- The handler's reply to a batch.
  unfoldable pub messages : Translate → List RandomMessage → Translate × List RandomMessage
  unfolding handle_inputs
  messages tr msgs =
      let (tr', out) = handle_inputs tr msgs in
      (record tr' { storage_tx = tr'.storage_tx ++ filter_map storage_of out }, map output out)

-- What the rest of the program sees of the module.
pub record RandomBroker : Type 0 where
  pub storage : RandomStorage
  pub storage_rx : List RandomStorage

unfoldable pub start : RandomBroker
start = record { storage = Storage.default; storage_rx = [] }

-- The `for` of `update`: the last storage that waits is kept.
unfoldable pub latest : RandomStorage → List RandomStorage → RandomStorage
latest s [] = s
latest s (u ∷ us) = latest u us

unfoldable pub update : RandomBroker → RandomBroker
unfolding latest
update b = record { storage = latest b.storage b.storage_rx; storage_rx = [] }
