-- ===== src/Overlay/Direct.antt =====
-- flmodules/src/overlay/broker.rs: `OverlayDirect`, which keeps count of the nodes that the network
-- reports. A handler that can panic returns an `Option`, with `none` for the panic of `get_id`.
pub mod Connected
use fledger.Prelude.{
  String, Bool, true, false, not, Option, none, some, List, [], ◌∷◌, ◌++◌, ◌==◌, ◌&&◌,
  if◌then◌else◌, contains, retain,
}
use fledger.NodeIds.{U256, NodeIds}
use fledger.NodeInfo.{NodeInfo, get_id}
use fledger.NetworkWrapper.{NetworkWrapper, Yaml}
use fledger.Network.Broker.{
  NetworkMessage, message_to_node, message_from_node, node_list_from_ws, connection_state,
}
use fledger.Network.Broker
use fledger.Overlay.{
  OverlayMessage, OverlayIn, OverlayOut, OverlayInternal, network_wrapper_to_network,
  node_info_available, node_ids_connected, node_infos_connected, network_wrapper_from_network,
  connected, disconnected, available, input, output, internal,
}

pub record OverlayDirect : Type 0 where
  pub nodes_available : List NodeInfo
  pub nodes_connected : List U256

abbrev pub start : OverlayDirect
start = record { nodes_available = []; nodes_connected = [] }

abbrev wrapped_from : U256 → Option NetworkWrapper → Option OverlayMessage
wrapped_from id none = none
wrapped_from id (some msg) = some (output (network_wrapper_from_network id msg))

abbrev text_to : U256 → Option String → Option NetworkMessage
text_to id none = none
text_to id (some msg_str) = some (NetworkMessage.input (message_to_node id msg_str))

module _ (yaml : Yaml NetworkWrapper) where
  unfoldable link_net_overlay : NetworkMessage → Option OverlayMessage
  link_net_overlay (NetworkMessage.output (message_from_node id msg_str)) =
      wrapped_from id (yaml.from_str msg_str)
  link_net_overlay (NetworkMessage.output (node_list_from_ws list)) =
      some (internal (available list))
  link_net_overlay (NetworkMessage.output (Broker.connected id)) = some (internal (connected id))
  link_net_overlay (NetworkMessage.output (Broker.disconnected id)) =
      some (internal (disconnected id))
  link_net_overlay (NetworkMessage.output (connection_state s)) = none
  link_net_overlay (NetworkMessage.input msg) = none
  link_net_overlay (NetworkMessage.web_socket msg) = none
  link_net_overlay (NetworkMessage.web_rtc msg) = none

  unfoldable link_overlay_net : OverlayMessage → Option NetworkMessage
  link_overlay_net (input (network_wrapper_to_network id msg)) = text_to id (yaml.to_string msg)
  link_overlay_net (output msg) = none
  link_overlay_net (internal msg) = none

-- `find` of a node, which stops at the first that fits.
unfoldable pub is_available : U256 → List NodeInfo → Option Bool
unfolding get_id
is_available id [] = some false
is_available id (info ∷ infos) = elim (get_id info) [
  | none ↦ none
  | some other ↦ elim (other == id) [ true ↦ some true | false ↦ is_available id infos ]
]

unfoldable pub available_connected : OverlayDirect → U256 → Option (Bool × Bool)
unfolding is_available
available_connected od id = elim (is_available id od.nodes_available) [
  | none ↦ none
  | some found ↦ some (found, contains od.nodes_connected id)
]

-- One message of the `for`, and whether something changed.
unfoldable pub handle_internal : OverlayDirect → OverlayInternal → Option (OverlayDirect × Bool)
unfolding available_connected
handle_internal od (connected id) = elim (available_connected od id) [
  | none ↦ none
  | some (a, c) ↦
      if a && not c
      then some (record od { nodes_connected = od.nodes_connected ++ id ∷ [] }, true)
      else some (od, false)
]
handle_internal od (disconnected id) = elim (available_connected od id) [
  | none ↦ none
  | some (a, c) ↦
      if c
      then some (
        record od { nodes_connected = retain (λ other. not (other == id)) od.nodes_connected },
        true,
      )
      else some (od, false)
]
handle_internal od (available infos) = some (record od { nodes_available = infos }, true)

unfoldable pub handle_all :
    OverlayDirect → Bool → List OverlayMessage → Option (OverlayDirect × Bool)
unfolding handle_internal
handle_all od ret [] = some (od, ret)
handle_all od ret (input msg ∷ msgs) = handle_all od ret msgs
handle_all od ret (output msg ∷ msgs) = handle_all od ret msgs
handle_all od ret (internal msg ∷ msgs) = elim (handle_internal od msg) [
  | none ↦ none
  | some (od', changed) ↦ handle_all od' (if changed then true else ret) msgs
]

-- The available nodes that are connected.
unfoldable infos_connected : List U256 → List NodeInfo → Option (List NodeInfo)
unfolding get_id
infos_connected ids [] = some []
infos_connected ids (info ∷ infos) = elim (get_id info) [
  | none ↦ none
  | some id ↦ elim (infos_connected ids infos) [
    | none ↦ none
    | some rest ↦ some (if contains ids id then info ∷ rest else rest)
  ]
]

unfoldable pub outputs : OverlayDirect → Option (List OverlayMessage)
unfolding infos_connected
outputs od = elim (infos_connected od.nodes_connected od.nodes_available) [
  | none ↦ none
  | some infos ↦ some (
      output (node_info_available od.nodes_available)
      ∷ output (node_ids_connected od.nodes_connected)
      ∷ output (node_infos_connected infos)
      ∷ [])
]

-- The handler's reply to a batch.
unfoldable pub messages :
    OverlayDirect → List OverlayMessage → Option (OverlayDirect × List OverlayMessage)
unfolding handle_all outputs
messages od msgs = elim (handle_all od false msgs) [
  | none ↦ none
  | some (od', ret) ↦ elim ret [
    | false ↦ some (od', [])
    | true ↦ elim (outputs od') [ none ↦ none | some out ↦ some (od', out) ]
  ]
]
