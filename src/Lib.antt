-- ===== src/Lib.antt =====
-- fledger: nodes that find each other over a signalling server, connect over WebRTC, and gossip.
--
-- A node runs modules that talk by messages. The signalling server keeps the identifiers of the
-- websockets that announced themselves and passes the messages that set up a connection. The network
-- broker of a node asks for connections and sends texts through them. The random connections pick
-- which nodes to connect to, the ping module finds the nodes that no longer answer, and the gossip
-- module exchanges events with the nodes that are connected. The web proxy asks other nodes to make
-- web requests. Each module stands behind a broker, which hands batches of messages to its handlers
-- and taps; brokers are linked by functions that translate the messages of one into those of another.
--
-- Every handler is a function from the state and a message to the new state and the list of messages
-- that it sends. A panic is `none` where a handler can panic. The files and what they are about:
--   NodeIds: flarch/src/nodeids.rs, U256 and NodeIDs. An identifier is the number that its 32 bytes
--     spell (from_bytes, to_bytes). The loop of `remove` runs on fuel, the length of the list: each
--     round passes or takes out one identifier.
--   NodeIds.Hex: the texts of an identifier, as lists of bytes.
--   NodeInfo: flmodules/src/nodeconfig.rs, NodeInfo with get_id, eq and verify, and NodeConfig.
--   NodeInfo.Saved: the versions in which configurations are saved, with encode, decode and from_toml.
--   Broker.Subsystem, .Intern, .Handle and .Links: flarch/src/broker.rs. Intern is the state of
--     a broker's task, and `run` one round of its loop; Handle has the methods of Broker; Links is a
--     step relation on brokers that are linked with one another. A broker's effects on others are a
--     list, in order: a message that is forwarded, a request to settle, or the word that it has settled.
--     The loop of `process` runs on fuel, one more than the rank of the messages.
--   Timer: flmodules/src/timer.rs.
--   NetworkWrapper: flmodules/src/overlay/messages.rs, wrap_yaml and unwrap_yaml.
--   Overlay and Overlay.Direct: flmodules/src/overlay/messages.rs and broker.rs, the messages, the links
--     and OverlayDirect.
--   RandomConnections.Nodes, .Storage and .Messages: flmodules/src/random_connections/nodes.rs, core.rs
--     and messages.rs, with Nodes, RandomStorage and RandomConnections. Each method is the function of
--     its name; process_message is the handler.
--   GossipEvents.Events, .Storage and .Messages: flmodules/src/gossip_events/core.rs and messages.rs,
--     with Events, EventsStorage and GossipEvents. The handlers that share their name with a message
--     are on_tick, on_add_event and on_node_list.
--   GossipEvents.Storage.Migration: the versions in which events are saved.
--   Ping.Storage and .Messages: flmodules/src/ping/core.rs and messages.rs.
--   RandomConnections.Broker, GossipEvents.Broker and Ping.Broker: the broker.rs of these modules, with
--     their links, the handler `messages` and the view that `update` brings up to date.
--   Modules: a gossip or ping message on its way through these links.
--   Template: flmodules/src/template, the module that new modules are copied from.
--   WebProxy.Core, .Messages and .Client: flmodules/src/web_proxy/core.rs with response.rs, messages.rs
--     with the links of broker.rs, and WebProxy of broker.rs.
--   DataStorage: flarch/src/data_storage.rs, DataStorageTemp.
--   WebRtc.Messages and .Websocket: flarch/src/web_rtc/messages.rs and websocket.rs; a constructor has
--     its enum's short name in front where two enums share a name.
--   WebRtc.Connections: flarch/src/web_rtc/mod.rs, WebRTCConn with the connections to all nodes.
--   WebRtc.NodeConnection: flarch/src/web_rtc/node_connection.rs, the queue of texts of one node and its
--     two connections.
--   Network.Messages and .Signal: flmodules/src/network/signal.rs, the signalling server.
--   Network.Broker: flmodules/src/network/messages.rs, the network broker.
--   Network.Testing: flmodules/src/network/testing.rs, the hub of simulated nodes, and the wrapper Network
--     of messages.rs.
--   Network.Handshake and .Delivery: the broker with the signalling server, and with WebRTCConn.
--   Prelude: tests on numbers, lists, counting, sorting, integers and maps that the others share.
--   Examples: concrete inputs.
--
-- Numbers: u32 addition and the counter of a broker's subsystems wrap around, at 2 ^ 32 and at 2 ^ 64,
-- as do u64 and usize subtraction, as in a release build; the number of messages that `process` counts
-- is a sum without a bound; an i64 date is an integer; the i32 difference of fill_up stops at 0, which
-- agrees with the source below 2 ^ 31 nodes. A HashMap is an association list in its order of
-- iteration, in which a new key comes last. sort_by is a stable insertion sort.
--
-- Parameters, with what is used of them as named hypotheses: the choice of nodes, `unique` and the
-- logarithm (ChoosesFrom, LnLaws), the hash of an event, YAML (RoundTrips), the two-way map of the
-- signalling server (BiMapLaws), JSON (Agree), the keys (ReadsKeys, Signs, Generates), the conversion
-- between floats and integers (Floats), and the answer to a web request (Fetched). A handler or a
-- callback of a broker is an object of its own: its reply is a function of the batches that it had and
-- the new one. A channel that is closed is a flag that a step or a client may set.
--
-- Not modelled: what a broker's task waits for while it settles, the WebRTC libraries, the storages on
-- a disk and in a browser, the intervals of timers, the start of Network, which waits with a time-out,
-- and the programs that start the modules.
pub mod Prelude
pub mod Broker
pub mod NodeIds
pub mod NodeInfo
pub mod NetworkWrapper
pub mod Timer
pub mod DataStorage
pub mod RandomConnections
pub mod GossipEvents
pub mod Ping
pub mod WebRtc
pub mod Network
pub mod Overlay
pub mod WebProxy
pub mod Modules
pub mod Template
pub mod Examples
