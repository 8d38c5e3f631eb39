-- ===== src/WebRtc/Websocket.antt =====
-- flarch/src/web_rtc/websocket.rs: the messages of the websocket server and of its clients.
use fledger.Prelude.{ℕ, String}

pub data WsServerOutput : Type 0 where
  out_message : ℕ → String → WsServerOutput
  new_connection : ℕ → WsServerOutput
  disconnection : ℕ → WsServerOutput
  stopped : WsServerOutput

pub data WsServerInput : Type 0 where
  in_message : ℕ → String → WsServerInput
  close : ℕ → WsServerInput
  stop : WsServerInput

pub data WsServerMessage : Type 0 where
  server_output : WsServerOutput → WsServerMessage
  server_input : WsServerInput → WsServerMessage

pub data WsClientInput : Type 0 where
  send_message : String → WsClientInput
  disconnect : WsClientInput
  connect : WsClientInput

pub data WsClientOutput : Type 0 where
  message : String → WsClientOutput
  disconnected : WsClientOutput
  connected : WsClientOutput
  error : String → WsClientOutput

pub data WsClientMessage : Type 0 where
  client_output : WsClientOutput → WsClientMessage
  client_input : WsClientInput → WsClientMessage
