-- ===== src/WebRtc/NodeConnection.antt =====
-- flarch/src/web_rtc/node_connection.rs: the two connections, incoming and outgoing, to one node, with
-- the queue of the texts that wait for one of them to open.
pub mod Queue
pub mod Opening
use fledger.Prelude.{
  String, Bool, true, false, not, Option, none, some, List, [], ◌∷◌, ◌++◌, map, if◌then◌else◌,
  is_empty, is_some,
}
use fledger.WebRtc.Messages
use fledger.WebRtc.Messages.{
  ConnectionStateMap, DataChannelState, data_connecting, data_open, data_closing, data_closed,
  PeerMessage, init, WebRtcOutput, out_connected, out_disconnected, out_text, out_setup, out_state,
  out_error, WebRtcInput, in_text, in_setup, in_reset, in_disconnect, WebRtcMessage, rtc_output,
  rtc_input, Direction, incoming, outgoing,
}

pub data NcOutput : Type 0 where
  nc_connected : Direction → NcOutput
  nc_disconnected : Direction → NcOutput
  nc_text : String → NcOutput
  nc_state : Direction → ConnectionStateMap → NcOutput
  nc_setup : Direction → PeerMessage → NcOutput

pub data NcInput : Type 0 where
  text : String → NcInput
  disconnect : NcInput
  get_states : NcInput
  setup : Direction → PeerMessage → NcInput

pub data NcMessage : Type 0 where
  output : NcOutput → NcMessage
  input : NcInput → NcMessage
  from_incoming : WebRtcMessage → NcMessage
  from_outgoing : WebRtcMessage → NcMessage

pub record NodeConnection : Type 0 where
  pub msg_queue : List String
  pub state_incoming : Option ConnectionStateMap
  pub state_outgoing : Option ConnectionStateMap

abbrev pub new : NodeConnection
new = record { msg_queue = []; state_incoming = none; state_outgoing = none }

-- A method returns the new state and the messages that it sends.
abbrev pub Handled : Type 0
Handled = NodeConnection × List NcMessage

-- The message to or from the connection in the given direction.
abbrev pub on_connection : Direction → WebRtcMessage → NcMessage
on_connection incoming msg = from_incoming msg
on_connection outgoing msg = from_outgoing msg

abbrev channel_open : Option DataChannelState → Bool
channel_open none = false
channel_open (some data_connecting) = false
channel_open (some data_open) = true
channel_open (some data_closing) = false
channel_open (some data_closed) = false

abbrev pub is_open : Option ConnectionStateMap → Bool
is_open none = false
is_open (some csm) = channel_open csm.data_connection

pub send : NodeConnection → Direction → Option ConnectionStateMap → Handled
send nc dir state =
    if is_open state
    then (
      record nc { msg_queue = [] },
      map (λ msg. on_connection dir (rtc_input (in_text msg))) nc.msg_queue,
    )
    else (nc, [])

send_waiting : NodeConnection → Direction → Option ConnectionStateMap → Handled
unfolding send
send_waiting nc dir state = if not (is_empty nc.msg_queue) then send nc dir state else (nc, [])

-- First through the outgoing connection, and if that fails through the incoming one.
pub send_queue : NodeConnection → Handled
unfolding send_waiting
send_queue nc =
    let (nc', out) = send_waiting nc outgoing nc.state_outgoing in
    let (nc'', out') = send_waiting nc' incoming nc'.state_incoming in (nc'', out ++ out')

abbrev pub state_list : Direction → Option ConnectionStateMap → List NcMessage
state_list dir none = []
state_list dir (some state) = output (nc_state dir state) ∷ []

pub msg_in : NodeConnection → NcInput → Handled
unfolding send_queue
msg_in nc (text msg_str) =
    let (nc', out) = send_queue (record nc { msg_queue = nc.msg_queue ++ msg_str ∷ [] }) in
    if is_some nc'.state_outgoing then (nc', out) else (
      record nc' { state_outgoing = some Messages.default },
      out ++ from_outgoing (rtc_input (in_setup init)) ∷ [],
    )
msg_in nc disconnect =
    (nc, from_incoming (rtc_input in_disconnect) ∷ from_outgoing (rtc_input in_disconnect) ∷ [])
msg_in nc get_states =
    (nc, state_list incoming nc.state_incoming ++ state_list outgoing nc.state_outgoing)
msg_in nc (setup dir pm) = (nc, on_connection dir (rtc_input (in_setup pm)) ∷ [])

abbrev pub put_state : NodeConnection → Direction → Option ConnectionStateMap → NodeConnection
put_state nc incoming state = record nc { state_incoming = state }
put_state nc outgoing state = record nc { state_outgoing = state }

abbrev pub open_state : ConnectionStateMap
open_state = record Messages.default { data_connection = some data_open }

-- `Disconnected` and `Error` share a branch.
reset : NodeConnection → Direction → Handled
reset nc dir = (
  put_state nc dir none,
  on_connection dir (rtc_input in_reset) ∷ output (nc_disconnected dir) ∷ [],
)

pub msg_conn : NodeConnection → Direction → WebRtcMessage → Handled
unfolding send_queue reset
msg_conn nc dir (rtc_output out_connected) =
    let (nc', out) = send_queue (put_state nc dir (some open_state)) in
    (nc', output (nc_connected dir) ∷ out)
msg_conn nc dir (rtc_output (out_setup pm)) = (nc, output (nc_setup dir pm) ∷ [])
msg_conn nc dir (rtc_output (out_text msg_str)) = (nc, output (nc_text msg_str) ∷ [])
msg_conn nc dir (rtc_output (out_state state)) =
    (put_state nc dir (some state), output (nc_state dir state) ∷ [])
msg_conn nc dir (rtc_output out_disconnected) = reset nc dir
msg_conn nc dir (rtc_output (out_error e)) = reset nc dir
msg_conn nc dir (rtc_input msg) = (nc, [])

unfoldable pub message : NodeConnection → NcMessage → Handled
unfolding msg_in msg_conn
message nc (input msg) = msg_in nc msg
message nc (from_incoming msg) = msg_conn nc incoming msg
message nc (from_outgoing msg) = msg_conn nc outgoing msg
message nc (output msg) = (nc, [])

unfoldable pub messages : NodeConnection → List NcMessage → Handled
messages nc [] = (nc, [])
messages nc (msg ∷ msgs) =
    let (nc', out) = message nc msg in let (nc'', rest) = messages nc' msgs in (nc'', out ++ rest)
