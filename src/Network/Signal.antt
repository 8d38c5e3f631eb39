-- ===== src/Network/Signal.antt =====
-- flmodules/src/network/signal.rs: the signalling server. A handler that can panic returns an
-- `Option`, with `none` for the panic.
pub mod Timer
pub mod Routing
pub mod Invariant
pub mod Announcing
use fledger.Prelude.{
  ℕ, ◌+◌, ◌-◌, ◌^◌, ◌%◌, ◌≢◌, ◌≡◌, String, Bool, true, false, not, Option, none, some, List, [],
  ◌∷◌, ◌++◌, ◌==◌, if◌then◌else◌, is_some, length, sub_u64,
}
use fledger.Prelude.Maps.{Map, get, insert, remove, values}
use fledger.NodeIds.{U256, NodeId, to_bytes}
use fledger.NodeInfo.{NodeInfo, get_id, Ed25519, verify}
use fledger.WebRtc.Messages.{PeerInfo, get_remote}
use fledger.WebRtc.Websocket.{
  WsServerOutput, out_message, new_connection, disconnection, stopped, WsServerInput, in_message,
  WsServerMessage, server_output, server_input,
}
use fledger.Network.Messages.{
  MessageAnnounce, NodeStat, WsSignalMessageToNode, challenge, list_ids_reply, peer_setup,
  WsSignalMessageFromNode, announce, list_ids_request, from_peer_setup, node_stats, signal_version,
}

pub data SignalInput : Type 0 where
  timer : SignalInput

pub data SignalOutput : Type 0 where
  node_stats_out : List NodeStat → SignalOutput
  new_node : NodeId → SignalOutput
  server_stopped : SignalOutput

pub data SignalMessage : Type 0 where
  input : SignalInput → SignalMessage
  output : SignalOutput → SignalMessage
  ws_server : WsServerMessage → SignalMessage

-- What the server takes from other crates: `BiMap` of `bimap`, `U256::rnd` over the state of the
-- generator, `serde_json`, and the signatures.
pub record Env : Type 1 where
  pub BiMap : Type 0
  pub empty : BiMap
  pub insert_pair : BiMap → U256 → ℕ → BiMap
  pub get_by_left : BiMap → U256 → Option ℕ
  pub get_by_right : BiMap → ℕ → Option U256
  pub remove_by_right : BiMap → ℕ → BiMap
  pub Rng : Type 0
  pub rnd : Rng → U256 × Rng
  pub from_str : String → Option WsSignalMessageFromNode
  pub to_string : WsSignalMessageToNode → String
  pub ed25519 : Ed25519

-- `usize` keys on the right, identifiers on the left: a new pair pushes out those that share its
-- left or its right side.
pub record BiMapLaws (env : Env) : Type 0 where
  pub right_empty : (r : ℕ) → env.get_by_right env.empty r ≡ none
  pub right_insert :
      (m : env.BiMap) (l : U256) (r k : ℕ)
      → env.get_by_right (env.insert_pair m l r) k ≡ (
          if r == k then some l else elim (env.get_by_right m k) [
            | none ↦ none
            | some l' ↦ if l' == l then none else some l'
          ])
  pub right_remove :
      (m : env.BiMap) (r k : ℕ)
      → env.get_by_right (env.remove_by_right m r) k
        ≡ (if r == k then none else env.get_by_right m k)

module _ (env : Env) where
  open env use {
    BiMap, empty, insert_pair, get_by_left, get_by_right, remove_by_right, Rng, rnd, from_str,
    to_string, ed25519,
  }

  pub record SignalServer : Type 0 where
    pub connection_ids : BiMap
    pub info : Map NodeInfo
    pub ttl : Map ℕ
    pub ttl_minutes : ℕ

  -- Two minutes more than asked for.
  abbrev pub new : ℕ → SignalServer
  new ttl_minutes = record {
    connection_ids = empty;
    info = [];
    ttl = [];
    ttl_minutes = (ttl_minutes + 2) % 2 ^ 64;
  }

  abbrev pub Handled : Type 0
  Handled = SignalServer × List SignalMessage

  abbrev pub send_msg_node : ℕ → WsSignalMessageToNode → List SignalMessage
  send_msg_node index msg = ws_server (server_input (in_message index (to_string msg))) ∷ []

  pub remove_node : SignalServer → ℕ → SignalServer
  remove_node s index = record s {
    connection_ids = remove_by_right s.connection_ids index;
    info = elim (get_by_right s.connection_ids index) [
      | none ↦ s.info
      | some id ↦ remove id s.info
    ];
    ttl = remove index s.ttl;
  }

  unfoldable pub remove_nodes : SignalServer → List ℕ → SignalServer
  unfolding remove_node
  remove_nodes s [] = s
  remove_nodes s (index ∷ ids) = remove_nodes (remove_node s index) ids

  unfoldable pub ws_announce : SignalServer → ℕ → MessageAnnounce → Option Handled
  ws_announce s index msg = elim (get_by_right s.connection_ids index) [
    | none ↦ some (s, [])
    | some ch ↦ elim (verify ed25519 msg.node_info (to_bytes ch) msg.signature) [
      | none ↦ none
      | some false ↦ some (s, [])
      | some true ↦ elim (get_id msg.node_info) [
        | none ↦ none
        | some id ↦ some (
          record s {
            connection_ids = insert_pair s.connection_ids id index;
            info = insert id msg.node_info s.info;
          },
          output (new_node id) ∷ [],
        )
      ]
    ]
  ]

  unfoldable pub ws_list_ids : SignalServer → ℕ → Handled
  ws_list_ids s id = (s, send_msg_node id (list_ids_reply (values s.info)))

  unfoldable pub ws_peer_setup : SignalServer → ℕ → PeerInfo → Handled
  ws_peer_setup s index pi = elim (get_by_right s.connection_ids index) [
    | none ↦ (s, [])
    | some id ↦ elim (get_remote pi id) [
      | none ↦ (s, [])
      | some dst ↦ elim (get_by_left s.connection_ids dst) [
        | none ↦ (s, [])
        | some dst_index ↦ (s, send_msg_node dst_index (peer_setup pi))
      ]
    ]
  ]

  pub ws_node_stats : SignalServer → List NodeStat → Handled
  ws_node_stats s ns = (s, output (node_stats_out ns) ∷ [])

  unfoldable pub msg_ws_process : SignalServer → ℕ → WsSignalMessageFromNode → Option Handled
  unfolding ws_announce ws_list_ids ws_peer_setup ws_node_stats
  msg_ws_process s index (announce ann) = ws_announce s index ann
  msg_ws_process s index list_ids_request = some (ws_list_ids s index)
  msg_ws_process s index (from_peer_setup pi) = some (ws_peer_setup s index pi)
  msg_ws_process s index (node_stats ns) = some (ws_node_stats s ns)

  unfoldable pub msg_ws_connect : Rng → SignalServer → ℕ → SignalServer × List SignalMessage × Rng
  msg_ws_connect rng s index =
      let (ch, rng') = rnd rng in
      (
        record s {
          connection_ids = insert_pair s.connection_ids ch index;
          ttl = insert index s.ttl_minutes s.ttl;
        },
        send_msg_node index (challenge signal_version ch),
        rng',
      )

  -- A message renews the time of its connection, if the connection is there.
  abbrev pub renew : SignalServer → ℕ → SignalServer
  renew s index =
      if is_some (get index s.ttl) then record s { ttl = insert index s.ttl_minutes s.ttl } else s

  unfoldable pub with_rng : Rng → Option Handled → Option (SignalServer × List SignalMessage × Rng)
  with_rng rng none = none
  with_rng rng (some (s, out)) = some (s, out, rng)

  unfoldable pub msg_wss :
      Rng → SignalServer → WsServerOutput → Option (SignalServer × List SignalMessage × Rng)
  unfolding msg_ws_process msg_ws_connect remove_node with_rng
  msg_wss rng s (out_message index msg_s) = elim (from_str msg_s) [
    | none ↦ some (renew s index, [], rng)
    | some msg_ws ↦ with_rng rng (msg_ws_process (renew s index) index msg_ws)
  ]
  msg_wss rng s (new_connection index) = some (msg_ws_connect rng s index)
  msg_wss rng s (disconnection index) = some (remove_node s index, [], rng)
  msg_wss rng s stopped = some (s, output server_stopped ∷ [], rng)

  -- The loop of `msg_in_timer`: the lowered times, and the connections that have none left.
  unfoldable pub count_down : Map ℕ → Map ℕ × List ℕ
  count_down [] = ([], [])
  count_down ((index, ttl) ∷ m) =
      let (ttls, to_remove) = count_down m in
      let left = sub_u64 ttl 1 in
      ((index, left) ∷ ttls, if left == 0 then index ∷ to_remove else to_remove)

  unfoldable pub msg_in_timer : SignalServer → SignalServer
  unfolding count_down remove_nodes
  msg_in_timer s =
      let (ttls, to_remove) = count_down s.ttl in remove_nodes (record s { ttl = ttls }) to_remove

  unfoldable pub message :
      Rng → SignalServer → SignalMessage → Option (SignalServer × List SignalMessage × Rng)
  unfolding msg_wss msg_in_timer
  message rng s (input timer) = some (msg_in_timer s, [], rng)
  message rng s (ws_server (server_output msg)) = msg_wss rng s msg
  message rng s (ws_server (server_input msg)) = some (s, [], rng)
  message rng s (output msg) = some (s, [], rng)

  unfoldable pub messages :
      Rng → SignalServer → List SignalMessage → Option (SignalServer × List SignalMessage × Rng)
  messages rng s [] = some (s, [], rng)
  messages rng s (msg ∷ msgs) = elim (message rng s msg) [
    | none ↦ none
    | some (s', out, rng') ↦ elim (messages rng' s' msgs) [
      | none ↦ none
      | some (s'', rest, rng'') ↦ some (s'', out ++ rest, rng'')
    ]
  ]
