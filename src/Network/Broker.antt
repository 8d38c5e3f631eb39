-- ===== src/Network/Broker.antt =====
-- flmodules/src/network/messages.rs: the client of the signalling server, which asks for connections
-- and passes messages on. A handler that can panic returns an `Option`, with `none` for the panic.
pub mod Requests
pub mod Updates
use fledger.Prelude.{
  ℕ, String, Bool, not, Option, none, some, List, [], ◌∷◌, ◌++◌, ◌==◌, if◌then◌else◌, contains,
  retain, sub_u64,
}
use fledger.NodeIds.{U256, NodeId, NodeIds, to_bytes}
use fledger.NodeInfo.{NodeInfo, NodeConfig, get_id}
use fledger.WebRtc.Messages.{
  ConnType, SignalingState, ConnectionStateMap, PeerInfo, PeerMessage, Direction, incoming,
  outgoing, get_remote, get_direction,
}
use fledger.WebRtc.NodeConnection.{
  NcInput, NcOutput, nc_connected, nc_disconnected, nc_text, nc_state, nc_setup,
}
use fledger.WebRtc.NodeConnection
use fledger.WebRtc.Websocket.{
  WsClientOutput, WsClientMessage, client_output, client_input, send_message,
}
use fledger.WebRtc.Websocket
use fledger.WebRtc.Connections.{WebRtcConnMessage, input_nc, output_nc}
use fledger.WebRtc.Connections
use fledger.Network.Messages.{
  NodeStat, WsSignalMessageToNode, challenge, list_ids_reply, peer_setup, WsSignalMessageFromNode,
  announce, list_ids_request, from_peer_setup, node_stats, signal_version,
}

pub data NetworkIn : Type 0 where
  message_to_node : NodeId → String → NetworkIn
  stats_to_ws : List NodeStat → NetworkIn
  ws_update_list_request : NetworkIn
  connect_to : NodeId → NetworkIn
  disconnect_from : NodeId → NetworkIn
  tick : NetworkIn

pub record ConnStats : Type 0 where
  pub type_local : ConnType
  pub type_remote : ConnType
  pub signaling : SignalingState
  pub rx_bytes : ℕ
  pub tx_bytes : ℕ
  pub delay_ms : ℕ

pub record NetworkConnectionState : Type 0 where
  pub id : NodeId
  pub dir : Direction
  pub s : ConnStats

pub data NetworkOut : Type 0 where
  message_from_node : NodeId → String → NetworkOut
  node_list_from_ws : List NodeInfo → NetworkOut
  connection_state : NetworkConnectionState → NetworkOut
  connected : NodeId → NetworkOut
  disconnected : NodeId → NetworkOut

pub data NetworkMessage : Type 0 where
  input : NetworkIn → NetworkMessage
  output : NetworkOut → NetworkMessage
  web_socket : WsClientMessage → NetworkMessage
  web_rtc : WebRtcConnMessage → NetworkMessage

pub record NetworkBroker : Type 0 where
  pub node_config : NodeConfig
  pub get_update : ℕ
  pub connections : NodeIds

abbrev pub update_interval : ℕ
update_interval = 10

abbrev pub new : NodeConfig → NetworkBroker
new node_config = record {
  node_config = node_config;
  get_update = update_interval;
  connections = [];
}

-- `serde_json`, and the signature with a key pair: `none` is the panic at one that cannot be read.
pub record Env : Type 0 where
  pub from_str : String → Option WsSignalMessageToNode
  pub to_string : WsSignalMessageFromNode → String
  pub sign : List ℕ → List ℕ → Option (List ℕ)

abbrev pub Handled : Type 0
Handled = NetworkBroker × List NetworkMessage

abbrev pub from_nc : NcInput → NodeId → NetworkMessage
from_nc msg dst = web_rtc (input_nc dst msg)

-- The link to the WebRTC connections: all but what comes from them.
abbrev to_rtc : WebRtcConnMessage → Option WebRtcConnMessage
to_rtc (input_nc id msg) = some (input_nc id msg)
to_rtc (output_nc id msg) = none
to_rtc (Connections.connect id) = some (Connections.connect id)
to_rtc (Connections.disconnect id) = some (Connections.disconnect id)

abbrev pub to_web_rtc : NetworkMessage → Option WebRtcConnMessage
to_web_rtc (input msg) = none
to_web_rtc (output msg) = none
to_web_rtc (web_socket msg) = none
to_web_rtc (web_rtc msg) = to_rtc msg

unfoldable pub connect : NetworkBroker → NodeId → Handled
connect nb dst = if contains nb.connections dst then (nb, output (connected dst) ∷ []) else (
  record nb { connections = nb.connections ++ dst ∷ [] },
  output (connected dst) ∷ web_rtc (Connections.connect dst) ∷ [],
)

unfoldable pub disconnect : NetworkBroker → NodeId → Handled
disconnect nb dst =
    if not (contains nb.connections dst) then (nb, output (disconnected dst) ∷ []) else (
      record nb { connections = retain (λ id. not (id == dst)) nb.connections },
      output (disconnected dst) ∷ from_nc NodeConnection.disconnect dst ∷ [],
    )

-- Connects to a node that is not connected yet.
unfoldable pub ensure_connected : NetworkBroker → NodeId → Handled
unfolding connect
ensure_connected nb id = if not (contains nb.connections id) then connect nb id else (nb, [])

module _ (env : Env) where
  abbrev pub to_ws : WsSignalMessageFromNode → NetworkMessage
  to_ws msg = web_socket (client_input (send_message (env.to_string msg)))

  unfoldable pub msg_signal : NetworkBroker → WsSignalMessageToNode → Option Handled
  unfolding ensure_connected
  msg_signal nb (challenge version ch) =
      if version == signal_version
      then elim (env.sign nb.node_config.keypair (to_bytes ch)) [
        | none ↦ none
        | some signature ↦ some (
          nb,
          to_ws (
                announce (record {
                  version = version;
                  challenge = ch;
                  node_info = nb.node_config.info;
                  signature = signature;
                }))
              ∷ to_ws list_ids_request
              ∷ [],
        )
      ]
      else none
  msg_signal nb (list_ids_reply list) = some (nb, output (node_list_from_ws list) ∷ [])
  msg_signal nb (peer_setup pi) = elim (get_id nb.node_config.info) [
    | none ↦ none
    | some own_id ↦ elim (get_remote pi own_id) [
      | none ↦ some (nb, [])
      | some remote_node ↦
          let (nb', out) = ensure_connected nb remote_node in
          some (
            nb',
            out
                ++ from_nc (NodeConnection.setup (get_direction pi own_id) pi.message) remote_node
                  ∷ [],
          )
    ]
  ]

  unfoldable pub msg_ws : NetworkBroker → WsClientOutput → Option Handled
  unfolding msg_signal
  msg_ws nb (Websocket.message msg) = elim (env.from_str msg) [
    | none ↦ some (nb, [])
    | some msg_node ↦ msg_signal nb msg_node
  ]
  msg_ws nb (Websocket.error e) = some (nb, [])
  msg_ws nb Websocket.disconnected = some (nb, [])
  msg_ws nb Websocket.connected = some (nb, [])

  -- The source returns a `Result`, and no branch is an error.
  unfoldable pub msg_call : NetworkBroker → NetworkIn → Handled
  unfolding ensure_connected disconnect
  msg_call nb (message_to_node id msg_str) =
      let (nb', out) = ensure_connected nb id in
      (nb', out ++ from_nc (NodeConnection.text msg_str) id ∷ [])
  msg_call nb (stats_to_ws ss) = (nb, to_ws (node_stats ss) ∷ [])
  msg_call nb ws_update_list_request = (nb, to_ws list_ids_request ∷ [])
  msg_call nb (connect_to id) = connect nb id
  msg_call nb (disconnect_from id) = disconnect nb id
  msg_call nb tick =
      let left = sub_u64 nb.get_update 1 in
      if left == 0
      then (record nb { get_update = update_interval }, to_ws list_ids_request ∷ [])
      else (record nb { get_update = left }, [])

  abbrev peer_info : Direction → NodeId → NodeId → PeerMessage → PeerInfo
  peer_info outgoing own_id id pm = record { id_init = own_id; id_follow = id; message = pm }
  peer_info incoming own_id id pm = record { id_init = id; id_follow = own_id; message = pm }

  pub msg_node : NetworkBroker → NodeId → NcOutput → Option Handled
  msg_node nb id (nc_connected dir) = some (nb, output (connected id) ∷ [])
  msg_node nb id (nc_disconnected dir) = some (nb, output (disconnected id) ∷ [])
  msg_node nb id (nc_text msg) = some (nb, output (message_from_node id msg) ∷ [])
  msg_node nb id (nc_state dir state) = some (
    nb,
    output (
          connection_state (record {
            id = id;
            dir = dir;
            s = record {
              type_local = state.type_local;
              type_remote = state.type_remote;
              signaling = state.signaling;
              rx_bytes = state.rx_bytes;
              tx_bytes = state.tx_bytes;
              delay_ms = state.delay_ms;
            };
          }))
        ∷ [],
  )
  msg_node nb id (nc_setup dir pm) = elim (get_id nb.node_config.info) [
    | none ↦ none
    | some own_id ↦ some (nb, to_ws (from_peer_setup (peer_info dir own_id id pm)) ∷ [])
  ]

  unfoldable pub message : NetworkBroker → NetworkMessage → Option Handled
  unfolding msg_call msg_ws msg_node
  message nb (input c) = some (msg_call nb c)
  message nb (web_socket (client_output ws)) = msg_ws nb ws
  message nb (web_socket (client_input ws)) = some (nb, [])
  message nb (web_rtc (output_nc id msg)) = msg_node nb id msg
  message nb (web_rtc (input_nc id msg)) = some (nb, [])
  message nb (web_rtc (Connections.connect id)) = some (nb, [])
  message nb (web_rtc (Connections.disconnect id)) = some (nb, [])
  message nb (output msg) = some (nb, [])

  unfoldable pub messages : NetworkBroker → List NetworkMessage → Option Handled
  messages nb [] = some (nb, [])
  messages nb (msg ∷ msgs) = elim (message nb msg) [
    | none ↦ none
    | some (nb', out) ↦ elim (messages nb' msgs) [
      | none ↦ none
      | some (nb'', rest) ↦ some (nb'', out ++ rest)
    ]
  ]
