-- ===== src/Examples/Modules.antt =====
-- The brokers of the modules (flmodules/src/gossip_events/broker.rs, flmodules/src/overlay/broker.rs),
-- the storages of older versions (flmodules/src/gossip_events/core.rs), old configurations
-- (flmodules/src/nodeconfig.rs), the hub of simulated nodes (flmodules/src/network/testing.rs) and the
-- web proxy (flmodules/src/web_proxy) with concrete data.
use fledger.Prelude.{
  Bool, true, zero, suc, filter_map, ℕ, ◌+◌, ◌%◌, ◌≡◌, refl, ap, sym, ◌∙◌, false, Option, none,
  some, List, [], ◌∷◌, arith, inl, inr, contains, get_elem?, map, String, if◌then◌else◌, Bool-cases,
}
use text.Mathlib.Text.{◌==◌}
use text.Mathlib.TextEquality.{eq_iff}
use fledger.Prelude.Int.{pos}
use fledger.NodeIds.{U256, from_bytes}
use fledger.NodeInfo.{id_of, get_id}
use fledger.NodeInfo.Saved.{Env as ConfigEnv, from_toml}
use fledger.NodeInfo.Saved.Versions.{HasOwnKey, from_toml-HasOwnKey}
use fledger.NetworkWrapper.{NetworkWrapper, Yaml, RoundTrips, linked, ignored, wrap_yaml}
use fledger.Network.Broker.{NetworkMessage, message_to_node, message_from_node}
use fledger.Network.Testing.{NsHub, nsh_net, messages as hub_messages}
use fledger.Network.Testing.Hub.{Sent, sent, addressed, hub_delivers}
use fledger.RandomConnections.Messages.{
  ModuleMessage as RandomModuleMessage, for_module, drop_connection, default_config,
  new as new_random,
}
use fledger.RandomConnections.Nodes.{contains as has_node}
use fledger.RandomConnections.Broker.{Translate}
use fledger.GossipEvents.Events.{Events}
use fledger.GossipEvents.Messages.{
  ModuleMessage as GossipModuleMessage, request_event_ids, known_event_ids, events, request_events,
  add_event, tick, from_network as gossip_from_network, to_network as gossip_to_network,
  new as new_gossip,
}
use fledger.GossipEvents.Broker.{
  GossipMessage, Translate as GossipTranslate, start as start_gossip, messages as gossip_messages,
  latest, update,
}
use fledger.GossipEvents.Broker.Views.{update_shows_storage}
use fledger.GossipEvents.Storage.Migration.{Floats, v3, to_latest}
use fledger.GossipEvents.Storage.Migration.Named.{NamedStorage, to_latest-IsNamed}
use fledger.Modules.{Texts, gossip_to_net, net_to_gossip, net_to_ping}
use fledger.Modules.Passing.{gossip_passes}
use fledger.Overlay.{
  OverlayMessage, connected, available, internal, output, node_info_available, node_ids_connected,
  node_infos_connected,
}
use fledger.Overlay.Direct.{OverlayDirect, start as start_overlay, messages as overlay_messages}
use fledger.Overlay.Direct.Connected.{is_connected, messages-is_connected}
use fledger.DataStorage.{DataStorageTemp}
use fledger.WebProxy.Client.{loaded, store_all}
use fledger.WebProxy.Client.Restart.{last_update, restart_keeps_storage}
use fledger.WebProxy.Core
use fledger.WebProxy.Messages.{WebProxyIn, WebProxyMessage, update_storage, fetched, respond}
use fledger.WebProxy.Messages.Answers.{arrives}
use fledger.WebProxy.Core.{
  ResponseHeader, WebProxyStorage, WebProxyStorageSave, WebProxyCore, default_storage, get_node,
  new as new_proxy,
}
use fledger.WebProxy.Core.Turns.{after_turns, get_node_takes_turns}
use fledger.Examples.Gossip.{event_id, text as text_event, full}
use fledger.Examples.Random.{first_env, stored}
use fledger.Examples.Connections.{named}

-- A gossip module that gets an event and a tick, and its view.
abbrev gossiping : GossipTranslate
gossiping = record { storage_tx = []; module_state = new_gossip 1 }

abbrev batch : List GossipMessage
batch = GossipMessage.input (add_event (text_event 2 30)) ∷ GossipMessage.input tick ∷ []

update_shows_storage_example :
    let tr = (gossip_messages event_id gossiping batch).0 in
    (update (record start_gossip { storage_rx = tr.storage_tx })).storage ≡ tr.module_state.store
unfolding latest start_gossip
update_shows_storage_example =
    update_shows_storage event_id gossiping start_gossip batch
      ((λ s h. absurd (cc)), ((λ s h. absurd (cc)), tt)) refl

abbrev first_id : U256
first_id = id_of (named "a" 1)

-- The network lists a node, and reports it and another one as connected.
abbrev reports : List OverlayMessage
reports =
    internal (available (named "a" 1 ∷ []))
    ∷ internal (connected first_id)
    ∷ internal (connected 2)
    ∷ []

-- What the handler makes of them.
abbrev reported : OverlayDirect
reported = record { nodes_available = named "a" 1 ∷ []; nodes_connected = first_id ∷ [] }

abbrev answers : List OverlayMessage
answers =
    output (node_info_available (named "a" 1 ∷ []))
    ∷ output (node_ids_connected (first_id ∷ []))
    ∷ output (node_infos_connected (named "a" 1 ∷ []))
    ∷ []

reports_run : overlay_messages start_overlay reports ≡ some (reported, answers)
unfolding overlay_messages get_id id_of from_bytes
reports_run = refl

messages-is_connected_example :
    contains (first_id ∷ []) first_id ≡ is_connected first_id [] false reports
messages-is_connected_example =
    messages-is_connected first_id start_overlay reported reports answers reports_run

-- A storage of version 3 with a wrong key.
abbrev floats : Floats
floats = record { F = ℕ; of_i64 = λ z. 0; to_i64 = λ n. pos n }

abbrev wrongly_named : Events
wrongly_named = record full { events = (5, text_event 1 20) ∷ (6, text_event 2 30) ∷ [] }

to_latest-IsNamed_example : NamedStorage event_id (
    to_latest event_id floats
      (v3 (record { text_messages = some wrongly_named; node_infos = none })))
to_latest-IsNamed_example =
    to_latest-IsNamed event_id floats
      (v3 (record { text_messages = some wrongly_named; node_infos = none })) tt

-- An old configuration without a public key; the public key of a byte is the next byte.
abbrev config_env : ConfigEnv
config_env = record {
  info_yaml = record { to_string = λ a. none; from_str = λ t. none };
  config_yaml = record { to_string = λ a. none; from_str = λ t. none };
  info_json = λ t. none;
  info_toml = λ t. none;
  config_toml = λ t. some (record {
    v1 = some (record {
      keypair = some (3 ∷ []);
      our_node = some (record { info = "old"; client = "libc"; pubkey = none });
    });
  });
  public_key = λ kp. some (map (λ b. b + 1) kp);
  generated = 7 ∷ [];
  generated_key = 8 ∷ [];
  name = "new";
  modules_all = 63;
}

from_toml-HasOwnKey_example : HasOwnKey config_env (from_toml config_env "v1")
from_toml-HasOwnKey_example = from_toml-HasOwnKey config_env (record { own_key = refl }) "v1"

-- Three nodes, with the last one as the next.
abbrev proxy : WebProxyCore
proxy = record (new_proxy default_storage 1) { nodes = 4 ∷ 5 ∷ 6 ∷ []; node_index = 2 }

get_node_takes_turns_example :
    (get_node (after_turns 5 proxy)).1 ≡ get_elem? (4 ∷ 5 ∷ 6 ∷ []) ((2 + 5) % 3)
get_node_takes_turns_example = get_node_takes_turns proxy 4 (5 ∷ 6 ∷ []) refl 5

-- Codecs of gossip messages, of which one is written, and of what is wrapped for the gossip module.
abbrev gossip_yaml : Yaml GossipModuleMessage
gossip_yaml = record { to_string = write; from_str = λ t. some request_event_ids }
  where
    write : GossipModuleMessage → Option String
    write request_event_ids = some "ids"
    write (known_event_ids ids) = none
    write (events es) = none
    write (request_events ids) = none

gossip_yaml-RoundTrips : RoundTrips gossip_yaml
gossip_yaml-RoundTrips = record { from_str-to_string = reads }
  where
    reads :
        (m : GossipModuleMessage) (text : String)
        → gossip_yaml.to_string m ≡ some text
        → gossip_yaml.from_str text ≡ some m
    reads request_event_ids text h = refl
    reads (known_event_ids ids) text h = absurd (cc)
    reads (events es) text h = absurd (cc)
    reads (request_events ids) text h = absurd (cc)

abbrev wrapped_text : NetworkWrapper → Option String
wrapped_text w = if w.module_name == "Gossip" then some w.msg else none

abbrev random_yaml : Yaml RandomModuleMessage
random_yaml = record {
  to_string = write;
  from_str = λ t. some (for_module (record { module_name = "Gossip"; msg = t }));
}
  where
    write : RandomModuleMessage → Option String
    write (for_module w) = wrapped_text w
    write drop_connection = none

random_yaml-RoundTrips : RoundTrips random_yaml
random_yaml-RoundTrips = record { from_str-to_string = reads }
  where
    reads :
        (m : RandomModuleMessage) (text : String)
        → random_yaml.to_string m ≡ some text
        → random_yaml.from_str text ≡ some m
    reads drop_connection text h = absurd (cc)
    reads (for_module w) text h = elim (Bool-cases (w.module_name == "Gossip")) [
      | inr e ↦ absurd (ground (arith, h, e))
      | inl e ↦
          let name : w.module_name ≡ "Gossip" = (eq_iff w.module_name "Gossip").0 e in
          let same : w.msg ≡ text = ground (arith, h, e) in
          ap (λ t. some (for_module (record { module_name = "Gossip"; msg = t }))) (sym same)
          ∙ ap (λ n. some (for_module (record { module_name = n; msg = w.msg }))) (sym name)
    ]

abbrev texts : Texts
texts = record {
  random = random_yaml;
  gossip = gossip_yaml;
  ping = record { to_string = λ a. none; from_str = λ t. none };
}

abbrev sender : Translate first_env
sender = record {
  storage_tx = [];
  module_state = record (new_random default_config) { store = stored };
  rng = 0;
}

gossip_passes_example :
    (gossip_to_net first_env texts sender
        (GossipMessage.output (gossip_to_network 1 request_event_ids))
      ≡ linked (NetworkMessage.input (message_to_node 1 "ids")) ∷ [])
    × (net_to_gossip first_env texts sender 1 (NetworkMessage.output (message_from_node 9 "ids"))
        ≡ linked (GossipMessage.input (gossip_from_network 9 request_event_ids)) ∷ [])
    × (net_to_ping first_env texts sender 1 (NetworkMessage.output (message_from_node 9 "ids"))
        ≡ ignored ∷ [])
unfolding wrap_yaml has_node
gossip_passes_example =
    gossip_passes first_env texts sender sender 1 9 1 random_yaml-RoundTrips refl
      gossip_yaml-RoundTrips request_event_ids (record { module_name = "Gossip"; msg = "ids" })
      "ids" refl refl

-- A node that waits for an answer, which has two chunks.
abbrev waiting : WebProxyCore
waiting = record proxy { requests = (7, (4, 70)) ∷ [] }

abbrev ok : ResponseHeader
ok = record { status = record { code = 200; msg = "OK" }; headers = [] }

abbrev answer : List WebProxyIn
answer = filter_map (arrives 4) (respond 1 7 (fetched ok ((1 ∷ 2 ∷ []) ∷ (3 ∷ []) ∷ [])))

-- A codec that writes the storage that counts one packet, and no other.
abbrev one_packet : WebProxyStorage
one_packet = record {
  counters = record { rx_requests = 0; tx_requests = 0; rx_packets = 1; tx_packets = 0 };
}

abbrev counts_text : ℕ → ℕ → ℕ → ℕ → Option String
counts_text zero zero (suc zero) zero = some "one"
counts_text zero zero (suc zero) (suc d) = none
counts_text zero zero zero d = none
counts_text zero zero (suc (suc c)) d = none
counts_text zero (suc b) c d = none
counts_text (suc a) b c d = none

counts_text-reads :
    (a b c d : ℕ) (text : String)
    → counts_text a b c d ≡ some text
    → one_packet ≡ record {
      counters = record { rx_requests = a; tx_requests = b; rx_packets = c; tx_packets = d };
    }
counts_text-reads zero zero (suc zero) zero text h = refl
counts_text-reads zero zero (suc zero) (suc d) text h = absurd (cc)
counts_text-reads zero zero zero d text h = absurd (cc)
counts_text-reads zero zero (suc (suc c)) d text h = absurd (cc)
counts_text-reads zero (suc b) c d text h = absurd (cc)
counts_text-reads (suc a) b c d text h = absurd (cc)

abbrev counts : Yaml WebProxyStorageSave
counts = record { to_string = write; from_str = λ t. some (Core.v1 one_packet) }
  where
    write : WebProxyStorageSave → Option String
    write (Core.v1 s) =
        counts_text s.counters.rx_requests s.counters.tx_requests s.counters.rx_packets
          s.counters.tx_packets

counts-RoundTrips : RoundTrips counts
counts-RoundTrips = record { from_str-to_string = reads }
  where
    reads :
        (s : WebProxyStorageSave) (text : String)
        → counts.to_string s ≡ some text
        → counts.from_str text ≡ some s
    reads (Core.v1 s) text h =
        ap (λ s. some (Core.v1 s))
          (counts_text-reads s.counters.rx_requests s.counters.tx_requests s.counters.rx_packets
            s.counters.tx_packets text h)

abbrev disk : DataStorageTemp
disk = record { kvs = ("Gossip", "events") ∷ []; is_locked = false }

-- A report that is kept, and one that comes when no `WebProxy` is left.
abbrev packet_reports : List (Bool × WebProxyMessage)
packet_reports =
    (true, WebProxyMessage.output (update_storage one_packet))
    ∷ (false, WebProxyMessage.output (update_storage one_packet))
    ∷ []

restart_keeps_storage_example :
    let (ds', runs) = store_all counts disk packet_reports in
    (loaded counts ds', runs) ≡ last_update (loaded counts disk) packet_reports
restart_keeps_storage_example =
    restart_keeps_storage counts counts-RoundTrips disk packet_reports (refl, (refl, tt)) refl

-- Two texts, of which one is for node 2.
abbrev hub : NsHub
hub = record { nodes = [] }

abbrev sends : List Sent
sends = (1, 2, "a") ∷ (1, 3, "b") ∷ []

hub_delivers_example :
    filter_map (nsh_net 2) (hub_messages hub (filter_map sent sends)).1
    ≡ filter_map (addressed 2) sends
hub_delivers_example = hub_delivers hub 2 sends
