-- ===== src/Ping/Broker.antt =====
-- flmodules/src/ping/broker.rs: the handler of the module in its broker, and the links to the broker
-- of the random connections.
pub mod Views
use fledger.Prelude.{String, Option, none, some, List, [], ◌∷◌, ◌++◌, map, filter_map}
use fledger.NodeIds.{U256}
use fledger.NetworkWrapper.{
  NetworkWrapper, Yaml, wrap_yaml, unwrap_yaml, Linked, linked, ignored, panicked,
}
use fledger.Timer.{TimerMessage, second, minute}
use fledger.RandomConnections.Messages.{
  node_ids_connected, network_wrapper_from_network, network_mapper_to_network, node_failure,
  connect_node, node_infos_connected, node_comm_to_network,
}
use fledger.RandomConnections.Messages
use fledger.RandomConnections.Broker.{RandomMessage}
use fledger.Ping.Storage
use fledger.Ping.Storage.{PingConfig, PingStorage}
use fledger.Ping.Messages.{
  ModuleMessage, PingIn, PingOut, Ping, tick, from_network, node_list, disconnect_node, to_network,
  storage, failed, process_msg,
}

pub data PingMessage : Type 0 where
  input : PingIn → PingMessage
  output : PingOut → PingMessage

abbrev pub module_name : String
module_name = "Ping"

abbrev from_node : U256 → Option ModuleMessage → Linked PingMessage
from_node id none = ignored
from_node id (some msg) = linked (input (from_network id msg))

abbrev to_node : U256 → Option NetworkWrapper → Linked RandomMessage
to_node id none = panicked
to_node id (some w) = linked (RandomMessage.input (network_mapper_to_network id w))

module _ (yaml : Yaml ModuleMessage) where
  unfoldable pub link_rnd_ping : RandomMessage → Linked PingMessage
  unfolding unwrap_yaml
  link_rnd_ping (RandomMessage.output (Messages.disconnect_node id)) =
      linked (input (disconnect_node id))
  link_rnd_ping (RandomMessage.output (node_ids_connected list)) = linked (input (node_list list))
  link_rnd_ping (RandomMessage.output (network_wrapper_from_network id msg)) =
      from_node id (unwrap_yaml yaml msg module_name)
  link_rnd_ping (RandomMessage.output (connect_node id)) = ignored
  link_rnd_ping (RandomMessage.output (node_infos_connected infos)) = ignored
  link_rnd_ping (RandomMessage.output (node_comm_to_network id msg)) = ignored
  link_rnd_ping (RandomMessage.output (Messages.storage s)) = ignored
  link_rnd_ping (RandomMessage.input msg) = ignored

  unfoldable pub link_ping_rnd : PingMessage → Linked RandomMessage
  unfolding wrap_yaml
  link_ping_rnd (output (to_network id msg_node)) = to_node id (wrap_yaml yaml module_name msg_node)
  link_ping_rnd (output (failed id)) = linked (RandomMessage.input (node_failure id))
  link_ping_rnd (output (storage s)) = ignored
  link_ping_rnd (input msg) = ignored

-- The closure of `add_timer`.
unfoldable link_timer_ping : TimerMessage → Option PingMessage
link_timer_ping second = some (input tick)
link_timer_ping minute = none

abbrev storage_of : PingOut → Option PingStorage
storage_of (storage s) = some s
storage_of (to_network id msg) = none
storage_of (failed id) = none

-- The module behind its handler, and what was sent to `storage_tx`.
pub record Translate : Type 0 where
  pub storage_tx : List PingStorage
  pub module_state : Ping

unfoldable pub handle_inputs : Translate → List PingMessage → Translate × List PingOut
handle_inputs tr [] = (tr, [])
handle_inputs tr (output msg ∷ msgs) = handle_inputs tr msgs
handle_inputs tr (input msg ∷ msgs) =
    let (p, out) = process_msg tr.module_state msg in
    let (tr', rest) = handle_inputs (record tr { module_state = p }) msgs in (tr', out ++ rest)

-- The handler's reply to a batch.
unfoldable pub messages : Translate → List PingMessage → Translate × List PingMessage
unfolding handle_inputs
messages tr msgs =
    let (tr', out) = handle_inputs tr msgs in
    (record tr' { storage_tx = tr'.storage_tx ++ filter_map storage_of out }, map output out)

-- What the rest of the program sees of the module.
pub record PingBroker : Type 0 where
  pub storage : PingStorage
  pub storage_rx : List PingStorage

unfoldable pub start : PingConfig → PingBroker
start config = record { storage = Storage.new config; storage_rx = [] }

-- The `for` of `update`: the last storage that waits is kept.
unfoldable pub latest : PingStorage → List PingStorage → PingStorage
latest s [] = s
latest s (u ∷ us) = latest u us

unfoldable pub update : PingBroker → PingBroker
unfolding latest
update b = record { storage = latest b.storage b.storage_rx; storage_rx = [] }
