-- ===== src/WebRtc/Messages.antt =====
-- flarch/src/web_rtc/messages.rs: the messages of the WebRTC subsystem. A constructor has its enum's
-- short name in front where two enums of the source share a name.
use fledger.Prelude.{ℕ, String, Option, none, some, ◌==◌, if◌then◌else◌}
use fledger.NodeIds.{NodeId}

-- How the current connection is being set up.
pub data ConnType : Type 0 where
  unknown host stun_peer stun_server turn : ConnType

pub data SignalingState : Type 0 where
  signaling_closed signaling_setup signaling_stable : SignalingState

pub data IceGatheringState : Type 0 where
  gathering_new gathering gathering_complete : IceGatheringState

pub data IceConnectionState : Type 0 where
  ice_new ice_checking ice_connected ice_completed ice_failed ice_disconnected ice_closed :
      IceConnectionState

pub data DataChannelState : Type 0 where
  data_connecting data_open data_closing data_closed : DataChannelState

pub record ConnectionStateMap : Type 0 where
  pub type_local : ConnType
  pub type_remote : ConnType
  pub signaling : SignalingState
  pub ice_gathering : IceGatheringState
  pub ice_connection : IceConnectionState
  pub data_connection : Option DataChannelState
  pub rx_bytes : ℕ
  pub tx_bytes : ℕ
  pub delay_ms : ℕ

abbrev pub default : ConnectionStateMap
default = record {
  type_local = unknown;
  type_remote = unknown;
  signaling = signaling_closed;
  ice_gathering = gathering_new;
  ice_connection = ice_new;
  data_connection = none;
  rx_bytes = 0;
  tx_bytes = 0;
  delay_ms = 0;
}

pub data PeerMessage : Type 0 where
  init : PeerMessage
  offer answer ice_candidate : String → PeerMessage

pub data WebRtcOutput : Type 0 where
  out_connected : WebRtcOutput
  out_disconnected : WebRtcOutput
  out_text : String → WebRtcOutput
  out_setup : PeerMessage → WebRtcOutput
  out_state : ConnectionStateMap → WebRtcOutput
  out_error : String → WebRtcOutput

pub data WebRtcInput : Type 0 where
  in_text : String → WebRtcInput
  in_setup : PeerMessage → WebRtcInput
  in_flush : WebRtcInput
  in_update_state : WebRtcInput
  in_reset : WebRtcInput
  in_disconnect : WebRtcInput

pub data WebRtcMessage : Type 0 where
  rtc_output : WebRtcOutput → WebRtcMessage
  rtc_input : WebRtcInput → WebRtcMessage

-- flarch/src/web_rtc/node_connection.rs: one of the directions for a connection.
pub data Direction : Type 0 where
  incoming outgoing : Direction

pub record PeerInfo : Type 0 where
  pub id_init : NodeId
  pub id_follow : NodeId
  pub message : PeerMessage

-- The identifier of the other node, if the given one is one of the two.
abbrev pub get_remote : PeerInfo → NodeId → Option NodeId
get_remote pi local =
    if pi.id_init == local
    then some pi.id_follow
    else if pi.id_follow == local
    then some pi.id_init
    else none

abbrev pub get_direction : PeerInfo → NodeId → Direction
get_direction pi local = if pi.id_init == local then outgoing else incoming
