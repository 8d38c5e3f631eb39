-- ===== src/Ping/Messages/Failures.antt =====
-- flmodules/src/ping/messages.rs: which failures are reported.
use mathlib.Core.List.{append-nil}
use fledger.Prelude.{◌≡◌, refl, ap, ◌∙◌, List, [], ◌∷◌, ◌++◌, map, arith}
use fledger.NodeIds.{NodeId, NodeIds}
use fledger.Ping.Storage
use fledger.Ping.Storage.{PingStorage, new_node, remove_node}
use fledger.Ping.Messages.{
  tick, on_tick, ping, node_list, disconnect_node, to_network, failed, Ping, create_messages,
  add_nodes, new_nodes, process_msg,
}

failed-new_node : (s : PingStorage) (id : NodeId) → (new_node s id).failed ≡ s.failed
unfolding new_node
failed-new_node s id = ground arith

failed-add_nodes : (s : PingStorage) (ids : NodeIds) → (add_nodes s ids).failed ≡ s.failed
unfolding add_nodes
failed-add_nodes s [] = refl
failed-add_nodes s (id ∷ ids) = failed-add_nodes (new_node s id) ids ∙ failed-new_node s id

-- Where no failure waits to be reported, a node that the connections module has disconnected on
-- purpose is reported as failed by the list of nodes, if that comes right after the disconnection,
-- whether or not the node was pinged, and whatever the list holds. If a tick comes first, the list of
-- nodes after it reports no failure.
pub disconnect_reported :
    (p : Ping) (id : NodeId) (ids : NodeIds)
    → p.store.failed ≡ []
    → let p' = (process_msg p (disconnect_node id)).0 in
      let p'' = (process_msg p' tick).0 in
      ((pings : List NodeId) × ((process_msg p' (node_list ids)).1
          ≡ map (λ n. to_network n ping) pings ++ failed id ∷ []))
      × ((pings : List NodeId) × ((process_msg p'' (node_list ids)).1
            ≡ map (λ n. to_network n ping) pings))
unfolding process_msg new_nodes create_messages on_tick
disconnect_reported p id ids none_failed =
    let s = remove_node p.store id in
    let one : (add_nodes s ids).failed ≡ id ∷ [] =
      failed-add_nodes s ids ∙ (unfold remove_node in ap (λ l. l ++ id ∷ []) none_failed) in
    let ticked = record (Storage.tick s) { ping = []; failed = [] } in
    let none_left : (add_nodes ticked ids).failed ≡ [] = failed-add_nodes ticked ids in
    (
      (
        (add_nodes s ids).ping,
        ap (λ l. map (λ n. to_network n ping) (add_nodes s ids).ping ++ map failed l) one,
      ),
      (
        (add_nodes ticked ids).ping,
        ap (λ l. map (λ n. to_network n ping) (add_nodes ticked ids).ping ++ map failed l) none_left
            ∙ append-nil _,
      ),
    )
