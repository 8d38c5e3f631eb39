-- ===== src/Network/Messages.antt =====
-- flmodules/src/network/signal.rs: the messages between a node and the signalling server.
use fledger.Prelude.{ℕ, String, List}
use fledger.NodeIds.{NodeId, U256}
use fledger.NodeInfo.{NodeInfo}
use fledger.WebRtc.Messages.{PeerInfo}

pub record MessageAnnounce : Type 0 where
  pub version : ℕ
  pub challenge : U256
  pub node_info : NodeInfo
  pub signature : List ℕ

pub record NodeStat : Type 0 where
  pub id : NodeId
  pub version : String
  pub ping_ms : ℕ
  pub ping_rx : ℕ

pub data WsSignalMessageToNode : Type 0 where
  challenge : ℕ → U256 → WsSignalMessageToNode
  list_ids_reply : List NodeInfo → WsSignalMessageToNode
  peer_setup : PeerInfo → WsSignalMessageToNode

pub data WsSignalMessageFromNode : Type 0 where
  announce : MessageAnnounce → WsSignalMessageFromNode
  list_ids_request : WsSignalMessageFromNode
  from_peer_setup : PeerInfo → WsSignalMessageFromNode
  node_stats : List NodeStat → WsSignalMessageFromNode

abbrev pub signal_version : ℕ
signal_version = 3
