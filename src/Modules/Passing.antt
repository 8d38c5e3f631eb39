-- ===== src/Modules/Passing.antt =====
-- A message that one node's module sends comes out of the same module on the other node
-- (flmodules/src/gossip_events/broker.rs, flmodules/src/ping/broker.rs).
use fledger.Prelude.{String, some, true, [], ◌∷◌, ◌≡◌, refl, ap, ◌∙◌, map, arith}
use fledger.NodeIds.{NodeId, U256}
use fledger.NetworkWrapper.{
  NetworkWrapper, RoundTrips, linked, ignored, wrap_yaml, unwrap_yaml-wrap_yaml,
  unwrap_yaml-wrap_yaml_other,
}
use fledger.Network.Broker.{NetworkMessage, message_to_node, message_from_node}
use fledger.RandomConnections.Nodes.{contains}
use fledger.RandomConnections.Storage.{Env}
use fledger.RandomConnections.Messages.{
  for_module, network_mapper_to_network, network_wrapper_from_network,
}
use fledger.RandomConnections.Broker.{RandomMessage, Translate}
use fledger.RandomConnections.Broker.Transport.{
  to_net, from_net, to_net_connected, from_net_wrapper,
}
use fledger.GossipEvents.Messages.{
  ModuleMessage as GossipModuleMessage, to_network as gossip_to_network,
  from_network as gossip_from_network,
}
use fledger.GossipEvents.Broker.{
  GossipMessage, module_name as gossip_name, link_rnd_gossip, link_gossip_rnd,
}
use fledger.Ping.Messages.{
  ModuleMessage as PingModuleMessage, to_network as ping_to_network,
  from_network as ping_from_network,
}
use fledger.Ping.Broker.{PingMessage, module_name as ping_name, link_rnd_ping, link_ping_rnd}
use fledger.Modules.{Texts, gossip_to_net, ping_to_net, net_to_gossip, net_to_ping}

module _ (env : Env) (texts : Texts) (sender receiver : Translate env) (our_id : U256)
    (src dst : NodeId) (reads_wrapper : RoundTrips texts.random)
    (is_connected : contains sender.module_state.store.connected dst ≡ true) where
  -- What the text of a wrapped message is on the network, and that it is read back.
  carried :
      (w : NetworkWrapper) (text : String)
      → texts.random.to_string (for_module w) ≡ some text
      → (to_net env texts.random sender (RandomMessage.input (network_mapper_to_network dst w))
          ≡ linked (NetworkMessage.input (message_to_node dst text)) ∷ [])
        × (from_net env texts.random receiver our_id
              (NetworkMessage.output (message_from_node src text))
            ≡ RandomMessage.output (network_wrapper_from_network src w) ∷ [])
  carried w text e = (
    to_net_connected env texts.random sender dst w text is_connected e,
    from_net_wrapper env texts.random receiver our_id src w text
        (reads_wrapper.from_str-to_string (for_module w) text e),
  )

  -- A gossip message to a node that the random connections hold as connected leaves for the network
  -- as one text, and that text, coming in from the network, becomes the same message for the gossip
  -- module and nothing for the ping module, if what was written as YAML is read back.
  pub gossip_passes :
      RoundTrips texts.gossip
      → (m : GossipModuleMessage) (w : NetworkWrapper) (text : String)
      → wrap_yaml texts.gossip gossip_name m ≡ some w
      → texts.random.to_string (for_module w) ≡ some text
      → (gossip_to_net env texts sender (GossipMessage.output (gossip_to_network dst m))
          ≡ linked (NetworkMessage.input (message_to_node dst text)) ∷ [])
        × (net_to_gossip env texts receiver our_id
              (NetworkMessage.output (message_from_node src text))
            ≡ linked (GossipMessage.input (gossip_from_network src m)) ∷ [])
        × (net_to_ping env texts receiver our_id
              (NetworkMessage.output (message_from_node src text))
            ≡ ignored ∷ [])
  unfolding gossip_to_net net_to_gossip net_to_ping link_gossip_rnd link_rnd_gossip link_rnd_ping
  gossip_passes trips m w text wrapped e =
      let (leaves, arrives) = carried w text e in
      let read = unwrap_yaml-wrap_yaml texts.gossip trips gossip_name gossip_name m w wrapped in
      let other =
        unwrap_yaml-wrap_yaml_other texts.gossip texts.ping gossip_name ping_name m w wrapped
          refl in
      (
        ground (arith, wrapped, leaves),
        ap (map (link_rnd_gossip texts.gossip)) arrives ∙ ground (arith, read),
        ap (map (link_rnd_ping texts.ping)) arrives ∙ ground (arith, other),
      )

  -- The same of a ping message, with the modules' parts exchanged.
  ping_passes :
      RoundTrips texts.ping
      → (m : PingModuleMessage) (w : NetworkWrapper) (text : String)
      → wrap_yaml texts.ping ping_name m ≡ some w
      → texts.random.to_string (for_module w) ≡ some text
      → (ping_to_net env texts sender (PingMessage.output (ping_to_network dst m))
          ≡ linked (NetworkMessage.input (message_to_node dst text)) ∷ [])
        × (net_to_ping env texts receiver our_id
              (NetworkMessage.output (message_from_node src text))
            ≡ linked (PingMessage.input (ping_from_network src m)) ∷ [])
        × (net_to_gossip env texts receiver our_id
              (NetworkMessage.output (message_from_node src text))
            ≡ ignored ∷ [])
  unfolding ping_to_net net_to_gossip net_to_ping link_ping_rnd link_rnd_gossip link_rnd_ping
  ping_passes trips m w text wrapped e =
      let (leaves, arrives) = carried w text e in
      let read = unwrap_yaml-wrap_yaml texts.ping trips ping_name ping_name m w wrapped in
      let other =
        unwrap_yaml-wrap_yaml_other texts.ping texts.gossip ping_name gossip_name m w wrapped
          refl in
      (
        ground (arith, wrapped, leaves),
        ap (map (link_rnd_ping texts.ping)) arrives ∙ ground (arith, read),
        ap (map (link_rnd_gossip texts.gossip)) arrives ∙ ground (arith, other),
      )
