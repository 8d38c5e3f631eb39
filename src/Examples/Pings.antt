-- ===== src/Examples/Pings.antt =====
-- flmodules/src/ping with two nodes.
use fledger.Prelude.{
  ℕ, ◌<◌, ◌≡◌, refl, true, none, List, [], ◌∷◌, ◌++◌, map, arith, contains, IsDistinct,
}
use fledger.Prelude.Maps.{keys, get}
use fledger.NodeIds.{NodeId}
use fledger.Ping.Storage.{PingStorage, default_config}
use fledger.Ping.Storage.Silence.{ticks, InTime, silent_node}
use fledger.Ping.Messages.{tick, node_list, disconnect_node, to_network, failed, process_msg}
use fledger.Ping.Messages.{ping as ping_msg}
use fledger.Ping.Messages.Failures.{disconnect_reported}
use fledger.Ping.Messages.Entries.{entry_after, process_msg-entry}

-- Node 1 was just heard of, node 2 is about to fail.
abbrev watched : PingStorage
watched = record {
  stats =
      (1, record { lastping = 0; rx = 3; tx = 4 })
      ∷ (2, record { lastping = 14; rx = 0; tx = 10 })
      ∷ [];
  ping = [];
  failed = [];
  config = default_config;
}

watched-IsDistinct : IsDistinct (keys watched.stats)
watched-IsDistinct = λ y. ground arith

silent_node_example :
    ((n : ℕ) → n < 15 → InTime (ticks n watched) 1 n)
    × (get 1 (ticks 15 watched).stats ≡ none)
    × (contains (ticks 15 watched).failed 1 ≡ true)
silent_node_example =
    silent_node 1 watched watched-IsDistinct (omega arith) (omega arith)
      (record { lastping = 0; rx = 3; tx = 4 }, refl, refl)

process_msg-entry_example :
    get 1 (process_msg (record { store = watched }) (node_list (3 ∷ 1 ∷ []))).0.store.stats
    ≡ entry_after watched.config 1 (node_list (3 ∷ 1 ∷ [])) (get 1 watched.stats)
process_msg-entry_example =
    process_msg-entry (record { store = watched }) (node_list (3 ∷ 1 ∷ [])) 1 watched-IsDistinct

disconnect_reported_example :
    let p' = (process_msg (record { store = watched }) (disconnect_node 1)).0 in
    let p'' = (process_msg p' tick).0 in
    ((pings : List NodeId) × ((process_msg p' (node_list (2 ∷ []))).1
        ≡ map (λ n. to_network n ping_msg) pings ++ failed 1 ∷ []))
    × ((pings : List NodeId) × ((process_msg p'' (node_list (2 ∷ []))).1
          ≡ map (λ n. to_network n ping_msg) pings))
disconnect_reported_example = disconnect_reported (record { store = watched }) 1 (2 ∷ []) refl
