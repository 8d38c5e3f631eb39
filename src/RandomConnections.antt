-- ===== src/RandomConnections.antt =====
-- flmodules/src/random_connections: how a node picks the peers that it is connected to.
pub mod Nodes
pub mod Storage
pub mod Messages
pub mod Broker
