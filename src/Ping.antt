-- ===== src/Ping.antt =====
-- flmodules/src/ping: the detection of nodes that no longer answer.
pub mod Storage
pub mod Messages
pub mod Broker
