-- ===== src/RandomConnections/Broker/Transport.antt =====
-- The random connections between their modules and the network: what is wrapped on one node comes
-- out on the other (flmodules/src/random_connections/broker.rs and messages.rs).
use fledger.Prelude.{String, some, true, false, List, [], ◌∷◌, ◌≡◌, map, arith}
use fledger.NodeIds.{NodeId, U256}
use fledger.NetworkWrapper.{NetworkWrapper, Yaml, Linked, linked, ignored, panicked}
use fledger.Network.Broker.{NetworkMessage, message_to_node, message_from_node, disconnect_from}
use fledger.RandomConnections.Nodes.{contains}
use fledger.RandomConnections.Storage.{Env}
use fledger.RandomConnections.Messages.{
  ModuleMessage, for_module, network_mapper_to_network, network_wrapper_from_network,
}
use fledger.RandomConnections.Messages.Outputs.{
  mapper_to_connected, mapper_to_other, comm_from_network,
}
use fledger.RandomConnections.Broker.{
  RandomMessage, input, output, Translate, handle_inputs, messages, link_rnd_net, link_net_rnd,
}

module _ (env : Env) (yaml : Yaml ModuleMessage) where
  -- What the handler's replies to a message become on the side of the network.
  abbrev pub to_net : Translate env → RandomMessage → List (Linked NetworkMessage)
  to_net tr msg = map (link_rnd_net yaml) (messages env tr (msg ∷ [])).1

  -- The handler's replies to a message from the network.
  abbrev reply_to : Translate env → Linked RandomMessage → List RandomMessage
  reply_to tr (linked msg) = (messages env tr (msg ∷ [])).1
  reply_to tr ignored = []
  reply_to tr panicked = []

  abbrev pub from_net : Translate env → U256 → NetworkMessage → List RandomMessage
  from_net tr our_id msg = reply_to tr (link_net_rnd yaml our_id msg)

  pub to_net_connected :
      (tr : Translate env) (dst : NodeId) (w : NetworkWrapper) (text : String)
      → contains tr.module_state.store.connected dst ≡ true
      → yaml.to_string (for_module w) ≡ some text
      → to_net tr (input (network_mapper_to_network dst w))
        ≡ linked (NetworkMessage.input (message_to_node dst text)) ∷ []
  unfolding messages handle_inputs link_rnd_net
  to_net_connected tr dst w text c e =
      ground (arith, mapper_to_connected env tr.rng tr.module_state dst w c, e)

  to_net_other :
      (tr : Translate env) (dst : NodeId) (w : NetworkWrapper)
      → contains tr.module_state.store.connected dst ≡ false
      → to_net tr (input (network_mapper_to_network dst w))
        ≡ linked (NetworkMessage.input (disconnect_from dst)) ∷ ignored ∷ []
  unfolding messages handle_inputs link_rnd_net
  to_net_other tr dst w c = ground (arith, mapper_to_other env tr.rng tr.module_state dst w c)

  pub from_net_wrapper :
      (tr : Translate env) (our_id : U256) (src : NodeId) (w : NetworkWrapper) (text : String)
      → yaml.from_str text ≡ some (for_module w)
      → from_net tr our_id (NetworkMessage.output (message_from_node src text))
        ≡ output (network_wrapper_from_network src w) ∷ []
  unfolding messages handle_inputs link_net_rnd
  from_net_wrapper tr our_id src w text e =
      ground (arith, comm_from_network env tr.rng tr.module_state src w, e)
