-- ===== src/Network/Handshake.antt =====
-- flmodules/src/network: a node's broker and the signalling server, from the new connection to the list
-- of nodes.
use fledger.Prelude.{
  ℕ, ◌≡◌, refl, ap, ◌∙◌, true, some, List, [], ◌∷◌, arith, ==-refl, if_cases, is_some, length,
}
use fledger.Prelude.Maps.{get, insert, values}
use fledger.NodeIds.{U256, to_bytes}
use fledger.NodeInfo.{NodeInfo, NodeConfig, get_id, id_of, verify}
use fledger.WebRtc.Websocket.{
  out_message, in_message, server_input, client_input, send_message, message,
}
use fledger.Network.Messages.{
  MessageAnnounce, challenge, list_ids_reply, WsSignalMessageFromNode, announce, list_ids_request,
  signal_version,
}
use fledger.Network.Signal
use fledger.Network.Signal.{
  BiMapLaws, SignalServer, Handled, ws_server, output, new_node, msg_ws_connect, msg_wss,
  msg_ws_process, ws_announce, ws_list_ids, renew, with_rng,
}
use fledger.Network.Signal.Announcing.{registers}
use fledger.Network.Broker
use fledger.Network.Broker.{NetworkBroker, web_socket, msg_ws, msg_signal}

-- JSON at the three messages of the handshake: what one side writes, the other side reads.
pub record Agree (server : Signal.Env) (client : Broker.Env) (ch : U256) (reply : MessageAnnounce)
    : Type 0 where
  pub reads_challenge :
      client.from_str (server.to_string (challenge signal_version ch))
      ≡ some (challenge signal_version ch)
  pub reads_announce : server.from_str (client.to_string (announce reply)) ≡ some (announce reply)
  pub reads_request : server.from_str (client.to_string list_ids_request) ≡ some list_ids_request

-- The key pair of the node signs, and the public key that the node shows verifies it.
pub record Signs (server : Signal.Env) (client : Broker.Env) (config : NodeConfig) : Type 0 where
  pub signature : List ℕ → List ℕ
  pub signed : (bytes : List ℕ) → client.sign config.keypair bytes ≡ some (signature bytes)
  pub verified :
      (bytes : List ℕ) → verify server.ed25519 config.info bytes (signature bytes) ≡ some true

module _ (senv : Signal.Env) (cenv : Broker.Env) (laws : BiMapLaws senv) where
  accepted :
      (s : SignalServer senv) (index : ℕ) (ch id : U256) (msg : MessageAnnounce)
      → senv.get_by_right s.connection_ids index ≡ some ch
      → verify senv.ed25519 msg.node_info (to_bytes ch) msg.signature ≡ some true
      → get_id msg.node_info ≡ some id
      → ws_announce senv s index msg
        ≡ some (
          record s {
            connection_ids = senv.insert_pair s.connection_ids id index;
            info = insert id msg.node_info s.info;
          },
          output (new_node id) ∷ [],
        )
  unfolding ws_announce
  accepted s index ch id msg had signed named = rw (had, ws_announce, signed, named) refl

  ids-renew :
      (s : SignalServer senv) (index : ℕ) → (renew senv s index).connection_ids ≡ s.connection_ids
  ids-renew s index =
      if_cases (λ (t : SignalServer senv). t.connection_ids ≡ s.connection_ids)
        (is_some (get index s.ttl)) _ _ (λ h. refl) (λ h. refl)

  info-renew : (s : SignalServer senv) (index : ℕ) → (renew senv s index).info ≡ s.info
  info-renew s index =
      if_cases (λ (t : SignalServer senv). t.info ≡ s.info) (is_some (get index s.ttl)) _ _
        (λ h. refl) (λ h. refl)

  get_id_key : (ni : NodeInfo) → length ni.pubkey ≡ 32 → get_id ni ≡ some (id_of ni)
  unfolding get_id
  get_id_key ni h = rw h refl

  module _ (rng : senv.Rng) (s : SignalServer senv) (index : ℕ) (nb : NetworkBroker)
      (signs : Signs senv cenv nb.node_config) where
    abbrev pub connected : SignalServer senv × List Signal.SignalMessage × senv.Rng
    connected = msg_ws_connect senv rng s index

    abbrev ch : U256
    ch = (senv.rnd rng).0

    abbrev reply : MessageAnnounce
    reply = record {
      version = signal_version;
      challenge = ch;
      node_info = nb.node_config.info;
      signature = signs.signature (to_bytes ch);
    }

    module _ (agree : Agree senv cenv ch reply) where
      -- The node answers the challenge.
      answers :
          msg_ws cenv nb (message (senv.to_string (challenge signal_version ch)))
          ≡ some (
            nb,
            web_socket (client_input (send_message (cenv.to_string (announce reply))))
                ∷ web_socket (client_input (send_message (cenv.to_string list_ids_request)))
                ∷ [],
          )
      unfolding msg_ws msg_signal
      answers = rw (agree.reads_challenge, msg_ws, signs.signed (to_bytes ch)) refl

      had_challenge :
          senv.get_by_right (renew senv connected.0 index).connection_ids index ≡ some ch
      unfolding msg_ws_connect
      had_challenge =
          ap (λ m. senv.get_by_right m index) (ids-renew connected.0 index)
          ∙ ground (arith, laws.right_insert s.connection_ids ch index index, ==-refl index)

      receives :
          (rng' : senv.Rng) (t : SignalServer senv) (msg : WsSignalMessageFromNode)
          → senv.from_str (cenv.to_string msg) ≡ some msg
          → msg_wss senv rng' t (out_message index (cenv.to_string msg))
            ≡ with_rng senv rng' (msg_ws_process senv (renew senv t index) index msg)
      unfolding msg_wss
      receives rng' t msg reads = rw (reads, msg_wss) refl

      -- The state of the server after the announcement.
      abbrev pub listed : SignalServer senv
      listed =
          let r = renew senv connected.0 index in
          record r {
            connection_ids = senv.insert_pair r.connection_ids (id_of nb.node_config.info) index;
            info = insert (id_of nb.node_config.info) nb.node_config.info r.info;
          }

      announces :
          length nb.node_config.info.pubkey ≡ 32
          → msg_wss senv connected.2 connected.0
              (out_message index (cenv.to_string (announce reply)))
            ≡ some (listed, output (new_node (id_of nb.node_config.info)) ∷ [], connected.2)
      unfolding msg_ws_process with_rng
      announces key =
          receives connected.2 connected.0 (announce reply) agree.reads_announce
          ∙ ap (with_rng senv connected.2) (
              accepted (renew senv connected.0 index) index ch (id_of nb.node_config.info) reply
                had_challenge (signs.verified (to_bytes ch)) (get_id_key nb.node_config.info key))

      lists :
          (rng' : senv.Rng) (t : SignalServer senv)
          → msg_wss senv rng' t (out_message index (cenv.to_string list_ids_request))
            ≡ some (
              renew senv t index,
              ws_server (
                    server_input
                      (in_message index (senv.to_string (list_ids_reply (values t.info)))))
                  ∷ [],
              rng',
            )
      unfolding msg_ws_process ws_list_ids with_rng
      lists rng' t =
          receives rng' t list_ids_request agree.reads_request
          ∙ ap
              (λ infos. some (
                renew senv t index,
                ws_server (
                      server_input
                        (in_message index (senv.to_string (list_ids_reply (values infos)))))
                    ∷ [],
                rng',
              ))
              (info-renew t index)

      -- A node whose keys fit gets onto the list of the signalling server: a new connection is sent a
      -- challenge, the node's broker answers it and asks for the list, the server registers the node
      -- under its own identifier, and then replies with a list that holds the node.
      pub handshake :
          length nb.node_config.info.pubkey ≡ 32
          → let id = id_of nb.node_config.info in
            let announced = cenv.to_string (announce reply) in
            let requested = cenv.to_string list_ids_request in
            (connected.1
              ≡ ws_server
                  (server_input (in_message index (senv.to_string (challenge signal_version ch))))
                ∷ [])
            × (msg_ws cenv nb (message (senv.to_string (challenge signal_version ch)))
                ≡ some (
                  nb,
                  web_socket (client_input (send_message announced))
                      ∷ web_socket (client_input (send_message requested))
                      ∷ [],
                ))
            × (msg_wss senv connected.2 connected.0 (out_message index announced)
                ≡ some (listed, output (new_node id) ∷ [], connected.2))
            × (senv.get_by_right listed.connection_ids index ≡ some id)
            × (get id listed.info ≡ some nb.node_config.info)
            × (msg_wss senv connected.2 listed (out_message index requested)
                ≡ some (
                  renew senv listed index,
                  ws_server (
                        server_input
                          (in_message index (senv.to_string (list_ids_reply (values listed.info)))))
                      ∷ [],
                  connected.2,
                ))
      unfolding msg_ws_connect
      handshake key =
          let entry =
            registers senv laws (renew senv connected.0 index) index reply ch had_challenge
              (signs.verified (to_bytes ch)) in
          (refl, answers, announces key, entry.registered, entry.listed, lists connected.2 listed)
