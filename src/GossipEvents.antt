-- ===== src/GossipEvents.antt =====
-- flmodules/src/gossip_events: the events that the nodes exchange.
pub mod Events
pub mod Storage
pub mod Messages
pub mod Broker
