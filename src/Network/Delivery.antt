-- ===== src/Network/Delivery.antt =====
-- flmodules/src/network/messages.rs with flarch/src/web_rtc/mod.rs: what the broker sends through its
-- connections arrives at them.
use fledger.Prelude.{
  ◌≡◌, refl, ap, Bool, true, ◌||◌, some, List, [], ◌∷◌, arith, contains, contains-append, flat_map,
  filter_map, Bool-cases, inl, inr, ==_iff, ==-refl, ◌==◌,
}
use fledger.NodeIds.{NodeId, NodeIds}
use fledger.WebRtc.Messages.{outgoing, init}
use fledger.WebRtc.NodeConnection.{NcInput, setup}
use fledger.WebRtc.NodeConnection
use fledger.WebRtc.Connections.{
  WebRtcConnMessage, input_nc, output_nc, WebRtcConn, try_send, ensure_connection,
}
use fledger.WebRtc.Connections
use fledger.Network.Broker.{
  NetworkMessage, input, output, web_socket, web_rtc, NetworkBroker, Env, messages, to_web_rtc,
}
use fledger.Network.Broker.Requests.{InOrder, requests_first}

abbrev inputs_of : WebRtcConnMessage → List (NodeId × NcInput)
inputs_of (input_nc id msg) = (id, msg) ∷ []
inputs_of (output_nc id msg) = []
inputs_of (Connections.connect id) = (id, setup outgoing init) ∷ []
inputs_of (Connections.disconnect id) = (id, NodeConnection.disconnect) ∷ []

abbrev network_inputs_of : NetworkMessage → List (NodeId × NcInput)
network_inputs_of (input msg) = []
network_inputs_of (output msg) = []
network_inputs_of (web_socket msg) = []
network_inputs_of (web_rtc msg) = inputs_of msg

-- What the broker's messages ask the connections to do, in order: a request for a connection starts its
-- setup, and an input is for the connection of its node.
abbrev pub inputs : List NetworkMessage → List (NodeId × NcInput)
inputs = flat_map network_inputs_of

module _ (spawns : NodeId → Bool) (always : (id : NodeId) → spawns id ≡ true) where
  ensured :
      (c : WebRtcConn) (id j : NodeId)
      → (contains c.connections j || (j == id)) ≡ true
      → contains (ensure_connection spawns c id).connections j ≡ true
  unfolding ensure_connection
  ensured c id j h = elim (Bool-cases (contains c.connections id)) [
    | inl there ↦ rw there (ground (arith, ==_iff j id))
    | inr new ↦
        rw (new, always id)
          (ground (arith, contains-append c.connections (id ∷ []) j, ==_iff j id, ==_iff id j))
  ]

  sent_through :
      (c : WebRtcConn) (id : NodeId) (msg : NcInput)
      → contains c.connections id ≡ true
      → try_send c id msg ≡ (id, msg) ∷ []
  unfolding try_send
  sent_through c id msg there = rw there refl

  delivered :
      (seen : NodeIds) (c : WebRtcConn) (out : List NetworkMessage)
      → InOrder seen out
      → ((id : NodeId) → contains seen id ≡ true → contains c.connections id ≡ true)
      → (Connections.messages spawns c (filter_map to_web_rtc out)).1 ≡ inputs out
  unfolding Connections.messages Connections.message
  delivered seen c [] order there = refl
  delivered seen c (input msg ∷ out) order there = delivered seen c out order.1 there
  delivered seen c (output msg ∷ out) order there = delivered seen c out order.1 there
  delivered seen c (web_socket msg ∷ out) order there = delivered seen c out order.1 there
  delivered seen c (web_rtc (output_nc id msg) ∷ out) order there =
      delivered seen c out order.1 there
  delivered seen c (web_rtc (input_nc id msg) ∷ out) order there =
      rw (sent_through c id msg (there id order.0))
        (ap (λ l. (id, msg) ∷ l) (delivered seen c out order.1 there))
  delivered seen c (web_rtc (Connections.disconnect id) ∷ out) order there =
      rw (sent_through c id NodeConnection.disconnect (there id order.0))
        (ap (λ l. (id, NodeConnection.disconnect) ∷ l) (delivered seen c out order.1 there))
  delivered seen c (web_rtc (Connections.connect id) ∷ out) order there =
      let c' = ensure_connection spawns c id in
      rw (sent_through c' id (setup outgoing init) (ensured c id id (ground (arith, ==-refl id)))) (
        ap (λ l. (id, setup outgoing init) ∷ l)
          (delivered (id ∷ seen) c' out order.1
            (λ j h. ensured c id j (ground (arith, there j, ==_iff j id, ==_iff id j)))))

  -- Where the WebRTC library makes every connection that it is asked for, each input that the broker
  -- sends through a connection arrives at the connection of its node, in order: none is dropped for
  -- want of a connection, if those that the broker starts with are there.
  pub inputs_delivered :
      (env : Env) (nb nb' : NetworkBroker) (c : WebRtcConn) (msgs out : List NetworkMessage)
      → ((id : NodeId) → contains nb.connections id ≡ true → contains c.connections id ≡ true)
      → messages env nb msgs ≡ some (nb', out)
      → (Connections.messages spawns c (filter_map to_web_rtc out)).1 ≡ inputs out
  inputs_delivered env nb nb' c msgs out there run =
      delivered nb.connections c out (requests_first env nb nb' msgs out run).0 there
