-- ===== src/Examples/Handshake.antt =====
-- flmodules/src/network: a handshake, and a server that serves one connection.
use fledger.Prelude.{
  ℕ, suc, ◌≡◌, refl, String, true, none, some, List, [], ◌∷◌, arith, if◌then◌else◌,
}
use text.Mathlib.Text.{◌==◌}
use fledger.Prelude.Maps.{get}
use fledger.NodeIds.{to_bytes}
use fledger.NodeInfo.{NodeConfig, verify, id_of}
use fledger.WebRtc.Websocket.{
  new_connection, out_message, in_message, server_output, server_input, client_input, send_message,
  message,
}
use fledger.Network.Messages.{
  MessageAnnounce, WsSignalMessageToNode, challenge, list_ids_reply, peer_setup,
  WsSignalMessageFromNode, announce, list_ids_request, from_peer_setup, node_stats, signal_version,
}
use fledger.Network.Signal
use fledger.Network.Signal.{
  BiMapLaws, SignalServer, SignalMessage, ws_server, input, output, new_node, timer, messages,
  msg_wss, msg_ws_connect, msg_in_timer, count_down, remove_nodes, renew,
}
use fledger.Network.Signal.Invariant.{IsTimed, new-IsTimed, messages-IsTimed}
use fledger.Network.Broker
use fledger.Network.Broker.{web_socket, msg_ws}
use fledger.Network.Broker.Updates.{repeat}
use fledger.Network.Handshake.{Agree, Signs, connected, listed, handshake}
use fledger.Examples.Network.{trusting, server_env, server_env-BiMapLaws, client_env, announcement}

-- The server sends and reads the three messages of a handshake, with 40 as the challenge.
abbrev greeting_reply : MessageAnnounce
greeting_reply = record (announcement (repeat 32 0)) { signature = to_bytes 40 }

abbrev greeting_server : Signal.Env
greeting_server = record server_env {
  rnd = λ n. (40, suc n);
  to_string = write;
  from_str = λ text.
      if text == "announce"
      then some (announce greeting_reply)
      else if text == "request"
      then some list_ids_request
      else none;
}
  where
    write : WsSignalMessageToNode → String
    write (challenge version ch) = "challenge"
    write (list_ids_reply list) = "list"
    write (peer_setup pi) = "peer"

abbrev greeting_client : Broker.Env
greeting_client = record client_env {
  to_string = write;
  from_str = λ text. if text == "challenge" then some (challenge signal_version 40) else none;
}
  where
    write : WsSignalMessageFromNode → String
    write (announce ann) = "announce"
    write list_ids_request = "request"
    write (from_peer_setup pi) = "peer"
    write (node_stats ns) = "stats"

greeting_server-BiMapLaws : BiMapLaws greeting_server
greeting_server-BiMapLaws = record {
  right_empty = λ r. refl;
  right_insert = λ m l r k. refl;
  right_remove = λ m r k. refl;
}

abbrev greeting_config : NodeConfig
greeting_config = record { info = greeting_reply.node_info; keypair = [] }

verify_run : (bytes : List ℕ) → verify trusting greeting_config.info bytes bytes ≡ some true
unfolding verify
verify_run bytes = refl

abbrev greeting_Signs : Signs greeting_server greeting_client greeting_config
greeting_Signs = record {
  signature = λ bytes. bytes;
  signed = λ bytes. refl;
  verified = verify_run;
}

greeting_Agree : Agree greeting_server greeting_client 40 greeting_reply
greeting_Agree = record { reads_challenge = refl; reads_announce = refl; reads_request = refl }

handshake_example :
    let reached =
      connected greeting_server greeting_client greeting_server-BiMapLaws 0
        (Signal.new greeting_server 2)
        7
        (Broker.new greeting_config)
        greeting_Signs in
    let after =
      listed greeting_server greeting_client greeting_server-BiMapLaws 0
        (Signal.new greeting_server 2)
        7
        (Broker.new greeting_config)
        greeting_Signs
        greeting_Agree in
    (reached.1 ≡ ws_server (server_input (in_message 7 "challenge")) ∷ [])
    × (msg_ws greeting_client (Broker.new greeting_config) (message "challenge")
        ≡ some (
          Broker.new greeting_config,
          web_socket (client_input (send_message "announce"))
              ∷ web_socket (client_input (send_message "request"))
              ∷ [],
        ))
    × (msg_wss greeting_server reached.2 reached.0 (out_message 7 "announce")
        ≡ some (after, output (new_node (id_of greeting_config.info)) ∷ [], reached.2))
    × (greeting_server.get_by_right after.connection_ids 7 ≡ some (id_of greeting_config.info))
    × (get (id_of greeting_config.info) after.info ≡ some greeting_config.info)
    × (msg_wss greeting_server reached.2 after (out_message 7 "request")
        ≡ some (
          renew greeting_server after 7,
          ws_server (server_input (in_message 7 "list")) ∷ [],
          reached.2,
        ))
handshake_example =
    handshake greeting_server greeting_client greeting_server-BiMapLaws 0
      (Signal.new greeting_server 2) 7 (Broker.new greeting_config) greeting_Signs greeting_Agree
      refl

abbrev served : List SignalMessage
served = ws_server (server_output (new_connection 7)) ∷ input timer ∷ []

abbrev served_result : SignalServer server_env × List SignalMessage × ℕ
served_result = elim (messages server_env 0 (Signal.new server_env 2) served) [
  | none ↦ (Signal.new server_env 2, [], 0)
  | some r ↦ r
]

served_run : messages server_env 0 (Signal.new server_env 2) served ≡ some served_result
unfolding messages Signal.message msg_wss msg_ws_connect msg_in_timer count_down remove_nodes
served_run = refl

messages-IsTimed_example : IsTimed server_env served_result.0
messages-IsTimed_example =
    messages-IsTimed server_env server_env-BiMapLaws 0 served_result.2 (Signal.new server_env 2)
      served_result.0 served served_result.1
      (new-IsTimed server_env server_env-BiMapLaws 2 (omega arith)) served_run
