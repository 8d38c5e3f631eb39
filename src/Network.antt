-- ===== src/Network.antt =====
-- flmodules/src/network: the signalling server, and the client that sets the connections up.
pub mod Messages
pub mod Signal
pub mod Broker
pub mod Handshake
pub mod Delivery
pub mod Testing
