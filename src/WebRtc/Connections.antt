-- ===== src/WebRtc/Connections.antt =====
-- flarch/src/web_rtc/mod.rs: the connections to all nodes. The broker of a connection is what receives
-- its input: a handler returns the new state and the inputs that it passes on, each with its node.
use fledger.Prelude.{Bool, List, [], ◌∷◌, ◌++◌, if◌then◌else◌, contains}
use fledger.NodeIds.{NodeId, NodeIds}
use fledger.WebRtc.Messages.{outgoing, init}
use fledger.WebRtc.NodeConnection.{NcInput, NcOutput, setup}
use fledger.WebRtc.NodeConnection

pub data WebRtcConnMessage : Type 0 where
  input_nc : NodeId → NcInput → WebRtcConnMessage
  output_nc : NodeId → NcOutput → WebRtcConnMessage
  connect : NodeId → WebRtcConnMessage
  disconnect : NodeId → WebRtcConnMessage

-- The nodes that have a connection, which is the keys of the map in the source.
pub record WebRtcConn : Type 0 where
  pub connections : NodeIds

abbrev pub new : WebRtcConn
new = record { connections = [] }

abbrev pub Handled : Type 0
Handled = WebRtcConn × List (NodeId × NcInput)

unfoldable pub try_send : WebRtcConn → NodeId → NcInput → List (NodeId × NcInput)
try_send c dst msg = if contains c.connections dst then (dst, msg) ∷ [] else []

-- `spawns` tells for which nodes the WebRTC library makes a connection.
module _ (spawns : NodeId → Bool) where
  unfoldable pub ensure_connection : WebRtcConn → NodeId → WebRtcConn
  ensure_connection c id =
      if contains c.connections id
      then c
      else if spawns id
      then record c { connections = c.connections ++ id ∷ [] }
      else c

  unfoldable pub message : WebRtcConn → WebRtcConnMessage → Handled
  unfolding try_send ensure_connection
  message c (input_nc dst msg) = (c, try_send c dst msg)
  message c (disconnect dst) = (c, try_send c dst NodeConnection.disconnect)
  message c (connect dst) =
      let c' = ensure_connection c dst in (c', try_send c' dst (setup outgoing init))
  message c (output_nc id msg) = (c, [])

  unfoldable pub messages : WebRtcConn → List WebRtcConnMessage → Handled
  messages c [] = (c, [])
  messages c (msg ∷ msgs) =
      let (c', out) = message c msg in let (c'', rest) = messages c' msgs in (c'', out ++ rest)
