-- ===== src/Modules.antt =====
-- Gossip and ping messages on their way between two nodes: the modules' brokers, wrapped by
-- NetworkWrapper, over the random connections (flmodules/src/gossip_events/broker.rs,
-- flmodules/src/ping/broker.rs and flmodules/src/random_connections/broker.rs).
pub mod Passing
use fledger.Prelude.{List, [], ◌∷◌, map, flat_map}
use fledger.NodeIds.{NodeId, U256}
use fledger.NetworkWrapper.{Yaml, Linked, linked, ignored, panicked}
use fledger.Network.Broker.{NetworkMessage}
use fledger.RandomConnections.Storage.{Env}
use fledger.RandomConnections.Messages.{ModuleMessage as RandomModuleMessage}
use fledger.RandomConnections.Broker.{RandomMessage, Translate}
use fledger.RandomConnections.Broker.Transport.{to_net, from_net}
use fledger.GossipEvents.Messages.{ModuleMessage as GossipModuleMessage}
use fledger.GossipEvents.Broker.{GossipMessage, link_rnd_gossip, link_gossip_rnd}
use fledger.Ping.Messages.{ModuleMessage as PingModuleMessage}
use fledger.Ping.Broker.{PingMessage, link_rnd_ping, link_ping_rnd}

-- The texts of the messages of the three modules.
pub record Texts : Type 0 where
  pub random : Yaml RandomModuleMessage
  pub gossip : Yaml GossipModuleMessage
  pub ping : Yaml PingModuleMessage

module _ (env : Env) (texts : Texts) where
  abbrev onward : Translate env → Linked RandomMessage → List (Linked NetworkMessage)
  onward tr (linked msg) = to_net env texts.random tr msg
  onward tr ignored = ignored ∷ []
  onward tr panicked = panicked ∷ []

  -- What a message of a module's broker becomes in the broker of the network.
  unfoldable pub gossip_to_net : Translate env → GossipMessage → List (Linked NetworkMessage)
  gossip_to_net tr msg = onward tr (link_gossip_rnd texts.gossip msg)

  unfoldable pub ping_to_net : Translate env → PingMessage → List (Linked NetworkMessage)
  ping_to_net tr msg = onward tr (link_ping_rnd texts.ping msg)

  -- What a message of the network's broker becomes in the broker of a module.
  unfoldable pub net_to_gossip : Translate env → U256 → NetworkMessage → List (Linked GossipMessage)
  net_to_gossip tr our_id msg =
      map (link_rnd_gossip texts.gossip) (from_net env texts.random tr our_id msg)

  unfoldable pub net_to_ping : Translate env → U256 → NetworkMessage → List (Linked PingMessage)
  net_to_ping tr our_id msg =
      map (link_rnd_ping texts.ping) (from_net env texts.random tr our_id msg)
