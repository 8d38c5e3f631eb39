-- ===== src/Overlay.antt =====
-- flmodules/src/overlay/messages.rs and broker.rs: the overlay that modules use in place of the random
-- connections or the network, and its two implementations.
pub mod Direct
use fledger.Prelude.{Option, none, some, List, [], ◌∷◌}
use fledger.NodeIds.{NodeId, NodeIds, U256}
use fledger.NodeInfo.{NodeInfo}
use fledger.NetworkWrapper.{NetworkWrapper}
use fledger.RandomConnections.Messages
use fledger.RandomConnections.Messages.{
  RandomIn, RandomOut, network_mapper_to_network, connect_node, disconnect_node,
  node_comm_to_network, storage,
}
use fledger.RandomConnections.Broker.{RandomMessage}

pub data OverlayIn : Type 0 where
  network_wrapper_to_network : NodeId → NetworkWrapper → OverlayIn

pub data OverlayOut : Type 0 where
  node_info_available : List NodeInfo → OverlayOut
  node_ids_connected : NodeIds → OverlayOut
  node_infos_connected : List NodeInfo → OverlayOut
  network_wrapper_from_network : NodeId → NetworkWrapper → OverlayOut

pub data OverlayInternal : Type 0 where
  connected : U256 → OverlayInternal
  disconnected : U256 → OverlayInternal
  available : List NodeInfo → OverlayInternal

pub data OverlayMessage : Type 0 where
  input : OverlayIn → OverlayMessage
  output : OverlayOut → OverlayMessage
  internal : OverlayInternal → OverlayMessage

-- The links of `OverlayRandom`.
unfoldable link_random_overlay : RandomMessage → Option OverlayMessage
link_random_overlay (RandomMessage.output (Messages.node_ids_connected node_ids)) =
    some (output (node_ids_connected node_ids))
link_random_overlay (RandomMessage.output (Messages.node_infos_connected infos)) =
    some (output (node_infos_connected infos))
link_random_overlay (RandomMessage.output (Messages.network_wrapper_from_network id msg)) =
    some (output (network_wrapper_from_network id msg))
link_random_overlay (RandomMessage.output (connect_node id)) = none
link_random_overlay (RandomMessage.output (disconnect_node id)) = none
link_random_overlay (RandomMessage.output (node_comm_to_network id msg)) = none
link_random_overlay (RandomMessage.output (storage s)) = none
link_random_overlay (RandomMessage.input msg) = none

unfoldable link_overlay_random : OverlayMessage → Option RandomMessage
link_overlay_random (input (network_wrapper_to_network id msg)) =
    some (RandomMessage.input (network_mapper_to_network id msg))
link_overlay_random (output msg) = none
link_overlay_random (internal msg) = none
