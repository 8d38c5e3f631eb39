-- ===== src/Ping/Messages/Entries.antt =====
-- flmodules/src/ping/messages.rs: the entry of one node under every message.
use fledger.Prelude.{
  ◌+◌, ◌%◌, ◌^◌, ◌≡◌, refl, inl, inr, arith, Option, none, some, [], ◌∷◌, leb, ◌==◌, ==_iff,
  if◌then◌else◌, Option-cases, contains, IsDistinct,
}
use fledger.Prelude.Maps.{keys, get, get-insert, get-remove}
use fledger.NodeIds.{NodeId, NodeIds}
use fledger.Ping.Storage.{PingConfig, PingStat, PingStorage, new_node, remove_node}
use fledger.Ping.Storage.Countdown.{tick-entry, pong-entry}
use fledger.Ping.Messages.{
  ping, pong, PingIn, tick, from_network, node_list, disconnect_node, Ping, create_messages,
  on_tick, message, add_nodes, new_nodes, process_msg,
}

-- A node that was just pinged for the first time.
abbrev pub fresh : PingStat
fresh = record { lastping = 0; rx = 0; tx = 1 }

-- One tick of a node: it is forgotten at the deadline, and pinged from the interval on.
abbrev aged : PingConfig → PingStat → Option PingStat
aged c stat =
    let last = (stat.lastping + 1) % 2 ^ 32 in
    if leb ((c.timeout + c.interval) % 2 ^ 32) last
    then none
    else if leb c.interval last
    then some (record stat { lastping = last; tx = (stat.tx + 1) % 2 ^ 32 })
    else some (record stat { lastping = last })

-- What a message makes of the entry of one node, if it has one.
abbrev pub entry_after : PingConfig → NodeId → PingIn → Option PingStat → Option PingStat
entry_after c k tick none = none
entry_after c k tick (some stat) = aged c stat
entry_after c k (from_network src ping) entry = entry
entry_after c k (from_network src pong) none = if src == k then some fresh else none
entry_after c k (from_network src pong) (some stat) =
    if src == k then some (record stat { lastping = 0; rx = (stat.rx + 1) % 2 ^ 32 }) else some stat
entry_after c k (node_list ids) none = if contains ids k then some fresh else none
entry_after c k (node_list ids) (some stat) = some stat
entry_after c k (disconnect_node id) entry = if id == k then none else entry

new_node-entry :
    (s : PingStorage) (id k : NodeId)
    → get k (new_node s id).stats ≡ entry_after s.config k (node_list (id ∷ [])) (get k s.stats)
unfolding new_node
new_node-entry s id k = elim (Option-cases (get k s.stats)) [
  | inl e ↦ ground (arith, e, get-insert id k fresh s.stats, ==_iff id k)
  | inr (stat, e) ↦ ground (arith, e, get-insert id k fresh s.stats, ==_iff id k)
]

add_nodes-entry :
    (s : PingStorage) (ids : NodeIds) (k : NodeId)
    → get k (add_nodes s ids).stats ≡ entry_after s.config k (node_list ids) (get k s.stats)
unfolding add_nodes
add_nodes-entry s [] k = elim (Option-cases (get k s.stats)) [
  | inl e ↦ ground (arith, e)
  | inr (stat, e) ↦ ground (arith, e)
]
add_nodes-entry s (id ∷ ids) k = elim (Option-cases (get k s.stats)) [
  | inl e ↦
      ground (arith, e, add_nodes-entry (new_node s id) ids k, new_node-entry s id k, ==_iff id k)
  | inr (stat, e) ↦
      ground (arith, e, add_nodes-entry (new_node s id) ids k, new_node-entry s id k, ==_iff id k)
]

-- What any message makes of the entry of any node, read off the message and that entry alone, where
-- no node stands in the map twice. A tick counts on, and forgets the node at the deadline; a pong
-- sets the count of its sender back, or makes an entry; a list of nodes makes entries for the nodes
-- that have none and leaves the others as they are; a disconnection forgets its node; a ping changes
-- nothing.
pub process_msg-entry :
    (p : Ping) (msg : PingIn) (k : NodeId)
    → IsDistinct (keys p.store.stats)
    → get k (process_msg p msg).0.store.stats
      ≡ entry_after p.store.config k msg (get k p.store.stats)
unfolding process_msg on_tick message new_nodes create_messages remove_node
process_msg-entry p tick k once = elim (Option-cases (get k p.store.stats)) [
  | inl e ↦ ground (arith, e, (tick-entry p.store once k).0)
  | inr (stat, e) ↦ ground (arith, e, (tick-entry p.store once k).0)
]
process_msg-entry p (from_network src ping) k once = refl
process_msg-entry p (from_network src pong) k once = elim (Option-cases (get k p.store.stats)) [
  | inl e ↦ ground (arith, e, pong-entry p.store src k, ==_iff src k)
  | inr (stat, e) ↦ ground (arith, e, pong-entry p.store src k, ==_iff src k)
]
process_msg-entry p (node_list ids) k once = add_nodes-entry p.store ids k
process_msg-entry p (disconnect_node id) k once = get-remove id k p.store.stats
