-- ===== src/Network/Testing.antt =====
-- flmodules/src/network/testing.rs: the hub that passes the messages of simulated nodes, and
-- flmodules/src/network/messages.rs: `Network`, through which a program uses its broker.
pub mod Hub
use fledger.Prelude.{String, Bool, Option, none, some, List, [], ◌∷◌, ◌++◌, ◌==◌, if◌then◌else◌}
use fledger.NodeIds.{U256, NodeId}
use fledger.NodeInfo.{NodeInfo}
use fledger.Broker.Handle.{Broker, emit_msg}
use fledger.Network.Broker.{
  NetworkMessage, NetworkIn, NetworkOut, input, output, web_socket, web_rtc, message_to_node,
  stats_to_ws, ws_update_list_request, connect_to, disconnect_from, tick, message_from_node,
  node_list_from_ws,
}

pub data NsHubMessage : Type 0 where
  from_client : U256 → NetworkMessage → NsHubMessage
  to_client : U256 → NetworkMessage → NsHubMessage
  new_client : NodeInfo → NsHubMessage

unfoldable pub nsh_net : U256 → NsHubMessage → Option NetworkMessage
nsh_net our_id (to_client dst net_msg) = if dst == our_id then some net_msg else none
nsh_net our_id (from_client id net_msg) = none
nsh_net our_id (new_client info) = none

unfoldable pub net_nsh : U256 → NetworkMessage → Option NsHubMessage
net_nsh our_id msg = some (from_client our_id msg)

pub record NsHub : Type 0 where
  pub nodes : List NodeInfo

unfoldable net_msg : NsHub → U256 → NetworkMessage → List NsHubMessage
net_msg hub id (input (message_to_node id_dst msg_node)) =
    to_client id_dst (output (message_from_node id msg_node)) ∷ []
net_msg hub id (input ws_update_list_request) =
    to_client id (output (node_list_from_ws hub.nodes)) ∷ []
net_msg hub id (input (stats_to_ws s)) = []
net_msg hub id (input (connect_to dst)) = []
net_msg hub id (input (disconnect_from dst)) = []
net_msg hub id (input tick) = []
net_msg hub id (output msg) = []
net_msg hub id (web_socket msg) = []
net_msg hub id (web_rtc msg) = []

-- The handler's reply to a batch.
unfoldable pub messages : NsHub → List NsHubMessage → NsHub × List NsHubMessage
unfolding net_msg
messages hub [] = (hub, [])
messages hub (from_client id msg ∷ msgs) =
    let (hub', out) = messages hub msgs in (hub', net_msg hub id msg ++ out)
messages hub (to_client id msg ∷ msgs) = messages hub msgs
messages hub (new_client info ∷ msgs) =
    messages (record hub { nodes = hub.nodes ++ info ∷ [] }) msgs

-- `recv`, with what the tap has left; `none` while it waits.
unfoldable recv : List NetworkMessage → Option (NetworkOut × List NetworkMessage)
recv [] = none
recv (output msg ∷ tap) = some (msg, tap)
recv (input msg ∷ tap) = recv tap
recv (web_socket msg ∷ tap) = recv tap
recv (web_rtc msg ∷ tap) = recv tap

module _ {S : Type 0} where
  unfoldable send : NetworkIn → Broker NetworkMessage S → Broker NetworkMessage S × Bool
  unfolding emit_msg
  send msg broker_net = emit_msg (input msg) broker_net

  unfoldable send_msg : NodeId → String → Broker NetworkMessage S → Broker NetworkMessage S × Bool
  unfolding send
  send_msg dst msg broker_net = send (message_to_node dst msg) broker_net

  unfoldable send_list_request : Broker NetworkMessage S → Broker NetworkMessage S × Bool
  unfolding send
  send_list_request broker_net = send ws_update_list_request broker_net
