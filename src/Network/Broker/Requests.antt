-- ===== src/Network/Broker/Requests.antt =====
-- flmodules/src/network/messages.rs: a connection is asked for before anything is sent through it.
use fledger.Prelude.{
  ◌≡◌, refl, sym, subst, true, not, Option, none, some, List, [], ◌∷◌, ◌++◌, ◌==◌, ==-refl, arith,
  contains, contains-append, contains-retain, Bool-cases, Option-cases, inl, inr, if_cases, sub_u64,
}
use fledger.NodeIds.{NodeId, NodeIds, to_bytes}
use fledger.NodeInfo.{get_id}
use fledger.WebRtc.Messages.{get_remote}
use fledger.WebRtc.NodeConnection.{
  NcInput, NcOutput, nc_connected, nc_disconnected, nc_text, nc_state, nc_setup,
}
use fledger.WebRtc.Websocket.{WsClientOutput, client_output, client_input}
use fledger.WebRtc.Websocket
use fledger.WebRtc.Connections.{WebRtcConnMessage, input_nc, output_nc}
use fledger.WebRtc.Connections
use fledger.Network.Messages.{
  WsSignalMessageToNode, challenge, list_ids_reply, peer_setup, signal_version,
}
use fledger.Network.Broker.{
  NetworkIn, message_to_node, stats_to_ws, ws_update_list_request, connect_to, disconnect_from,
  tick, NetworkMessage, input, output, web_socket, web_rtc, NetworkBroker, Env, Handled, from_nc,
  connect, disconnect, ensure_connected, msg_signal, msg_ws, msg_call, msg_node, message, messages,
}

abbrev asked_by : NodeIds → WebRtcConnMessage → NodeIds
asked_by seen (input_nc id msg) = seen
asked_by seen (output_nc id msg) = seen
asked_by seen (Connections.connect id) = id ∷ seen
asked_by seen (Connections.disconnect id) = seen

abbrev AllowedBy : NodeIds → WebRtcConnMessage → Type 0
AllowedBy seen (input_nc id msg) = contains seen id ≡ true
AllowedBy seen (output_nc id msg) = Unit
AllowedBy seen (Connections.connect id) = Unit
AllowedBy seen (Connections.disconnect id) = contains seen id ≡ true

-- The nodes to which a connection has been asked for, after a message.
abbrev asked_for : NodeIds → NetworkMessage → NodeIds
asked_for seen (input msg) = seen
asked_for seen (output msg) = seen
asked_for seen (web_socket msg) = seen
asked_for seen (web_rtc msg) = asked_by seen msg

-- What goes through a connection goes to one that has been asked for.
abbrev IsAllowed : NodeIds → NetworkMessage → Type 0
IsAllowed seen (input msg) = Unit
IsAllowed seen (output msg) = Unit
IsAllowed seen (web_socket msg) = Unit
IsAllowed seen (web_rtc msg) = AllowedBy seen msg

abbrev pub asked_for_all : NodeIds → List NetworkMessage → NodeIds
asked_for_all seen [] = seen
asked_for_all seen (msg ∷ out) = asked_for_all (asked_for seen msg) out

-- Every message in the list that goes through a connection comes after the request for it, where the
-- connections of `seen` have been asked for before.
abbrev pub InOrder : NodeIds → List NetworkMessage → Type 0
InOrder seen [] = Unit
InOrder seen (msg ∷ out) = IsAllowed seen msg × InOrder (asked_for seen msg) out

InOrder-append :
    (seen : NodeIds) (a b : List NetworkMessage)
    → InOrder seen a
    → InOrder (asked_for_all seen a) b
    → InOrder seen (a ++ b)
InOrder-append seen [] b h k = k
InOrder-append seen (m ∷ a) b h k = (h.0, InOrder-append (asked_for seen m) a b h.1 k)

asked_for_all-append :
    (seen : NodeIds) (a b : List NetworkMessage)
    → asked_for_all seen (a ++ b) ≡ asked_for_all (asked_for_all seen a) b
asked_for_all-append seen [] b = refl
asked_for_all-append seen (m ∷ a) b = asked_for_all-append (asked_for seen m) a b

-- The connections of the broker have all been asked for.
abbrev pub Covers : NodeIds → NetworkBroker → Type 0
Covers seen nb = (id : NodeId) → contains nb.connections id ≡ true → contains seen id ≡ true

abbrev Good : NodeIds → Handled → Type 0
Good seen h = InOrder seen h.1 × Covers (asked_for_all seen h.1) h.0

abbrev GoodResult : NodeIds → Option Handled → Type 0
GoodResult seen none = Unit
GoodResult seen (some h) = Good seen h

module _ (seen : NodeIds) (nb : NetworkBroker) (covers : Covers seen nb) (dst : NodeId) where
  connect-Good : Good seen (connect nb dst)
  unfolding connect
  connect-Good =
      if_cases (Good seen) (contains nb.connections dst) _ _ (λ there. ((tt, tt), covers))
        (λ new. (
          (tt, (tt, tt)),
          λ id h. ground (arith, covers id, contains-append nb.connections (dst ∷ []) id),
        ))

  disconnect-Good : Good seen (disconnect nb dst)
  unfolding disconnect
  disconnect-Good =
      if_cases (Good seen) (not (contains nb.connections dst)) _ _ (λ away. ((tt, tt), covers))
        (λ there. (
          (tt, (covers dst (ground arith), tt)),
          λ id h.
              ground (arith, covers id, contains-retain (λ id. not (id == dst)) nb.connections id),
        ))

  ensured :
      Good seen (ensure_connected nb dst)
      × (contains (asked_for_all seen (ensure_connected nb dst).1) dst ≡ true)
  unfolding ensure_connected connect
  ensured = elim (Bool-cases (contains nb.connections dst)) [
    | inl there ↦ rw there ((tt, covers), covers dst there)
    | inr new ↦ rw new (
      (
        (tt, (tt, tt)),
        λ id h. ground (arith, covers id, contains-append nb.connections (dst ∷ []) id),
      ),
      ground (arith, ==-refl dst),
    )
  ]

  -- A connection is ensured, and then something is sent through it.
  send-Good :
      (msg : NcInput)
      → let h = ensure_connected nb dst in Good seen (h.0, h.1 ++ from_nc msg dst ∷ [])
  send-Good msg =
      let h = ensure_connected nb dst in
      (
        InOrder-append seen h.1 (from_nc msg dst ∷ []) ensured.0.0 (ensured.1, tt),
        λ id c.
            subst (λ s. contains s id ≡ true)
              (sym (asked_for_all-append seen h.1 (from_nc msg dst ∷ []))) (ensured.0.1 id c),
      )

module _ (env : Env) (seen : NodeIds) (nb : NetworkBroker) (covers : Covers seen nb) where
  signal-Good : (msg : WsSignalMessageToNode) → GoodResult seen (msg_signal env nb msg)
  unfolding msg_signal
  signal-Good (challenge version ch) =
      if_cases (GoodResult seen) (version == signal_version) _ _
        (λ known. elim (Option-cases (env.sign nb.node_config.keypair (to_bytes ch))) [
          | inl unreadable ↦ rw unreadable tt
          | inr (signature, e) ↦ rw e ((tt, (tt, tt)), covers)
        ])
        (λ unknown. tt)
  signal-Good (list_ids_reply list) = ((tt, tt), covers)
  signal-Good (peer_setup pi) = elim (Option-cases (get_id nb.node_config.info)) [
    | inl unreadable ↦ rw (unreadable, msg_signal) tt
    | inr (own_id, e) ↦ elim (Option-cases (get_remote pi own_id)) [
      | inl unknown ↦ rw (e, msg_signal, unknown) (tt, covers)
      | inr (remote_node, f) ↦ rw (e, msg_signal, f) (send-Good seen nb covers remote_node _)
    ]
  ]

  ws-Good : (msg : WsClientOutput) → GoodResult seen (msg_ws env nb msg)
  unfolding msg_ws
  ws-Good (Websocket.message text) = elim (Option-cases (env.from_str text)) [
    | inl unreadable ↦ rw (unreadable, msg_ws) (tt, covers)
    | inr (msg, e) ↦ rw (e, msg_ws) (signal-Good msg)
  ]
  ws-Good (Websocket.error e) = (tt, covers)
  ws-Good Websocket.disconnected = (tt, covers)
  ws-Good Websocket.connected = (tt, covers)

  call-Good : (msg : NetworkIn) → Good seen (msg_call env nb msg)
  unfolding msg_call
  call-Good (message_to_node id text) = send-Good seen nb covers id _
  call-Good (stats_to_ws ss) = ((tt, tt), covers)
  call-Good ws_update_list_request = ((tt, tt), covers)
  call-Good (connect_to id) = connect-Good seen nb covers id
  call-Good (disconnect_from id) = disconnect-Good seen nb covers id
  call-Good tick =
      if_cases (Good seen) (sub_u64 nb.get_update 1 == 0) _ _ (λ now. ((tt, tt), covers))
        (λ later. (tt, covers))

  node-Good : (id : NodeId) (msg : NcOutput) → GoodResult seen (msg_node env nb id msg)
  unfolding msg_node
  node-Good id (nc_connected dir) = ((tt, tt), covers)
  node-Good id (nc_disconnected dir) = ((tt, tt), covers)
  node-Good id (nc_text text) = ((tt, tt), covers)
  node-Good id (nc_state dir state) = ((tt, tt), covers)
  node-Good id (nc_setup dir pm) = elim (Option-cases (get_id nb.node_config.info)) [
    | inl unreadable ↦ rw (unreadable, msg_node) tt
    | inr (own_id, e) ↦ rw (e, msg_node) ((tt, tt), covers)
  ]

  message-Good : (msg : NetworkMessage) → GoodResult seen (message env nb msg)
  unfolding message
  message-Good (input c) = call-Good c
  message-Good (output msg) = (tt, covers)
  message-Good (web_socket (client_output msg)) = ws-Good msg
  message-Good (web_socket (client_input msg)) = (tt, covers)
  message-Good (web_rtc (input_nc id msg)) = (tt, covers)
  message-Good (web_rtc (output_nc id msg)) = node-Good id msg
  message-Good (web_rtc (Connections.connect id)) = (tt, covers)
  message-Good (web_rtc (Connections.disconnect id)) = (tt, covers)

module _ (env : Env) where
  messages-Good :
      (seen : NodeIds) (nb : NetworkBroker) (msgs : List NetworkMessage)
      → Covers seen nb
      → GoodResult seen (messages env nb msgs)
  unfolding messages
  messages-Good seen nb [] covers = (tt, covers)
  messages-Good seen nb (msg ∷ msgs) covers = elim (Option-cases (message env nb msg)) [
    | inl stopped ↦ rw (stopped, messages) tt
    | inr ((nb', out), e) ↦
        let first = subst (GoodResult seen) e (message-Good env seen nb covers msg) in
        let later = messages-Good (asked_for_all seen out) nb' msgs first.1 in
        elim (Option-cases (messages env nb' msgs)) [
          | inl stopped ↦ rw (e, messages, stopped) tt
          | inr ((nb'', rest), f) ↦
              let good = subst (GoodResult (asked_for_all seen out)) f later in
              rw (e, messages, f)
                (
                  InOrder-append seen out rest first.0 good.0,
                  λ id c.
                      subst (λ s. contains s id ≡ true) (sym (asked_for_all-append seen out rest))
                        (good.1 id c),
                )
        ]
  ]

  -- In a run that does not panic, whatever the broker sends through a connection comes after its request
  -- for that connection, and every node that it holds as connected has been asked for.
  pub requests_first :
      (nb nb' : NetworkBroker) (msgs out : List NetworkMessage)
      → messages env nb msgs ≡ some (nb', out)
      → InOrder nb.connections out × Covers (asked_for_all nb.connections out) nb'
  requests_first nb nb' msgs out h =
      subst (GoodResult nb.connections) h (messages-Good nb.connections nb msgs (λ id c. c))
