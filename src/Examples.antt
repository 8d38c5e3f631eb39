-- ===== src/Examples.antt =====
-- Concrete inputs: theorems at data where their hypotheses hold, and runs of the code.
pub mod Brokers
pub mod Ids
pub mod Random
pub mod Gossip
pub mod Pings
pub mod Connections
pub mod Network
pub mod Handshake
pub mod Modules
