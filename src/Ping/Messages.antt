-- ===== src/Ping/Messages.antt =====
-- flmodules/src/ping/messages.rs: the messages of the module and its handler.
pub mod Failures
pub mod Entries
pub mod Outputs
use fledger.Prelude.{List, [], ◌∷◌, ◌++◌, map}
use fledger.NodeIds.{NodeId, NodeIds}
use fledger.Ping.Storage
use fledger.Ping.Storage.{PingConfig, PingStorage}

pub data ModuleMessage : Type 0 where
  ping pong : ModuleMessage

pub data PingIn : Type 0 where
  tick : PingIn
  from_network : NodeId → ModuleMessage → PingIn
  node_list : NodeIds → PingIn
  disconnect_node : NodeId → PingIn

pub data PingOut : Type 0 where
  to_network : NodeId → ModuleMessage → PingOut
  storage : PingStorage → PingOut
  failed : NodeId → PingOut

pub record Ping : Type 0 where
  pub store : PingStorage

abbrev pub new : PingConfig → Ping
new config = record { store = Storage.new config }

abbrev pub Handled : Type 0
Handled = Ping × List PingOut

-- Both lists are drained.
pub create_messages : Ping → Handled
create_messages p = (
  record { store = record p.store { ping = []; failed = [] } },
  map (λ id. to_network id ping) p.store.ping ++ map failed p.store.failed,
)

pub on_tick : Ping → Handled
unfolding create_messages
on_tick p =
    let (p', out) = create_messages (record { store = Storage.tick p.store }) in
    (p', out ++ storage p'.store ∷ [])

pub message : Ping → NodeId → ModuleMessage → Handled
unfolding create_messages
message p id ping = (p, to_network id pong ∷ [])
message p id pong = create_messages (record { store = Storage.pong p.store id })

pub add_nodes : PingStorage → NodeIds → PingStorage
add_nodes s [] = s
add_nodes s (id ∷ ids) = add_nodes (Storage.new_node s id) ids

pub new_nodes : Ping → NodeIds → Handled
unfolding create_messages add_nodes
new_nodes p ids = create_messages (record { store = add_nodes p.store ids })

pub process_msg : Ping → PingIn → Handled
unfolding on_tick message new_nodes
process_msg p tick = on_tick p
process_msg p (from_network id msg) = message p id msg
process_msg p (node_list ids) = new_nodes p ids
process_msg p (disconnect_node id) = (record { store = Storage.remove_node p.store id }, [])
