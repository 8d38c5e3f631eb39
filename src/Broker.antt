-- ===== src/Broker.antt =====
-- flarch/src/broker.rs: the actor that passes messages between the subsystems of a module and on to
-- the brokers that it is linked to.
pub mod Subsystem
pub mod Intern
pub mod Handle
pub mod Links
