-- ===== src/RandomConnections/Messages/Outputs.antt =====
-- flmodules/src/random_connections/messages.rs: the storages that the handler sends.
use fledger.Prelude.{List, [], ◌∷◌, ◌++◌, ◌≡◌, refl, true, false, arith}
use fledger.NodeIds.{NodeId}
use fledger.NetworkWrapper.{NetworkWrapper}
use fledger.RandomConnections.Nodes.{get_nodes, contains}
use fledger.RandomConnections.Storage
use fledger.RandomConnections.Storage.{Env, RandomStorage}
use fledger.RandomConnections.Messages.{
  RandomOut, RandomConnections, tick, network_mapper_to_network, node_comm_from_network, for_module,
  network_msg, storage, connect_node, disconnect_node, node_ids_connected, node_infos_connected,
  node_comm_to_network, network_wrapper_from_network, Handled, then_run, new_connection, need_drop,
  churn, fill_connection, update, process_message,
}

-- The last storage among the messages that are sent, or the one that was known before.
abbrev pub seen : RandomStorage → List RandomOut → RandomStorage
seen s [] = s
seen s (storage u ∷ out) = seen u out
seen s (connect_node id ∷ out) = seen s out
seen s (disconnect_node id ∷ out) = seen s out
seen s (node_ids_connected ids ∷ out) = seen s out
seen s (node_infos_connected infos ∷ out) = seen s out
seen s (node_comm_to_network id msg ∷ out) = seen s out
seen s (network_wrapper_from_network id msg ∷ out) = seen s out

pub seen-append :
    (s : RandomStorage) (xs ys : List RandomOut) → seen s (xs ++ ys) ≡ seen (seen s xs) ys
seen-append s [] ys = refl
seen-append s (storage u ∷ xs) ys = seen-append u xs ys
seen-append s (connect_node id ∷ xs) ys = seen-append s xs ys
seen-append s (disconnect_node id ∷ xs) ys = seen-append s xs ys
seen-append s (node_ids_connected ids ∷ xs) ys = seen-append s xs ys
seen-append s (node_infos_connected infos ∷ xs) ys = seen-append s xs ys
seen-append s (node_comm_to_network id msg ∷ xs) ys = seen-append s xs ys
seen-append s (network_wrapper_from_network id msg ∷ xs) ys = seen-append s xs ys

module _ (env : Env) where
  seen-update :
      (s : RandomStorage) (h : Handled env)
      → let r = then_run env h (update env) in seen s r.1 ≡ r.0.store
  unfolding update
  seen-update s (rc, out, rng) = seen-append s out _

  -- A tick ends with sending the storage as it then is.
  pub tick_sends_storage :
      (s : RandomStorage) (rng : env.Rng) (rc : RandomConnections)
      → let r = process_message env rng rc tick in seen s r.1 ≡ r.0.store
  unfolding process_message
  tick_sends_storage s rng rc = seen-update s (
      then_run env
        (then_run env
          (then_run env (new_connection env rng (record rc { store = Storage.tick rc.store }))
            (need_drop env))
          (churn env))
        (fill_connection env))

  -- A wrapped message for a node that is connected goes to that node.
  pub mapper_to_connected :
      (rng : env.Rng) (rc : RandomConnections) (dst : NodeId) (w : NetworkWrapper)
      → contains rc.store.connected dst ≡ true
      → process_message env rng rc (network_mapper_to_network dst w)
        ≡ (rc, node_comm_to_network dst (for_module w) ∷ [], rng)
  unfolding process_message
  mapper_to_connected rng rc dst w c = ground (arith, c)

  -- For any other node, it is dropped: the node is to be disconnected, and the connected nodes are
  -- listed again.
  pub mapper_to_other :
      (rng : env.Rng) (rc : RandomConnections) (dst : NodeId) (w : NetworkWrapper)
      → contains rc.store.connected dst ≡ false
      → process_message env rng rc (network_mapper_to_network dst w)
        ≡ (rc, disconnect_node dst ∷ node_ids_connected (get_nodes rc.store.connected) ∷ [], rng)
  unfolding process_message
  mapper_to_other rng rc dst w c = ground (arith, c)

  pub comm_from_network :
      (rng : env.Rng) (rc : RandomConnections) (src : NodeId) (w : NetworkWrapper)
      → process_message env rng rc (node_comm_from_network src (for_module w))
        ≡ (rc, network_wrapper_from_network src w ∷ [], rng)
  unfolding process_message network_msg
  comm_from_network rng rc src w = refl
