-- ===== src/WebRtc.antt =====
-- flarch/src/web_rtc: the connection of two nodes, set up over the signalling server.
pub mod Messages
pub mod NodeConnection
pub mod Websocket
pub mod Connections
