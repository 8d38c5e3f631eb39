-- ===== src/RandomConnections/Broker/Views.antt =====
-- flmodules/src/random_connections/broker.rs: what the program sees of the module's storage.
use fledger.Prelude.{List, [], ◌∷◌, ◌++◌, ◌≡◌, refl, ap, ◌∙◌, filter_map}
use mathlib.Core.List.{append-nil}
use fledger.RandomConnections.Storage.{Env, RandomStorage}
use fledger.RandomConnections.Messages.{
  RandomOut, tick, storage, connect_node, disconnect_node, node_ids_connected, node_infos_connected,
  node_comm_to_network, network_wrapper_from_network, process_message,
}
use fledger.RandomConnections.Messages.Outputs.{seen, tick_sends_storage}
use fledger.RandomConnections.Broker.{
  input, Translate, storage_of, handle_inputs, messages, RandomBroker, latest, update,
}

latest-append :
    (s : RandomStorage) (xs ys : List RandomStorage) → latest s (xs ++ ys) ≡ latest (latest s xs) ys
unfolding latest
latest-append s [] ys = refl
latest-append s (x ∷ xs) ys = latest-append x xs ys

latest-storage_of :
    (s : RandomStorage) (out : List RandomOut) → latest s (filter_map storage_of out) ≡ seen s out
unfolding latest
latest-storage_of s [] = refl
latest-storage_of s (storage u ∷ out) = latest-storage_of u out
latest-storage_of s (connect_node id ∷ out) = latest-storage_of s out
latest-storage_of s (disconnect_node id ∷ out) = latest-storage_of s out
latest-storage_of s (node_ids_connected ids ∷ out) = latest-storage_of s out
latest-storage_of s (node_infos_connected infos ∷ out) = latest-storage_of s out
latest-storage_of s (node_comm_to_network id msg ∷ out) = latest-storage_of s out
latest-storage_of s (network_wrapper_from_network id msg ∷ out) = latest-storage_of s out

module _ (env : Env) where
  -- After a tick and `update`, the program's view of the storage is the storage of the module,
  -- whatever the view was and whatever waits to be seen.
  pub update_after_tick :
      (tr : Translate env) (b : RandomBroker)
      → let tr' = (messages env tr (input tick ∷ [])).0 in
        (update (record b { storage_rx = tr'.storage_tx })).storage ≡ tr'.module_state.store
  unfolding messages update handle_inputs
  update_after_tick tr b =
      let (rc, out, rng) = process_message env tr.rng tr.module_state tick in
      latest-append b.storage tr.storage_tx (filter_map storage_of (out ++ []))
      ∙ latest-storage_of (latest b.storage tr.storage_tx) (out ++ [])
      ∙ ap (seen (latest b.storage tr.storage_tx)) (append-nil out)
      ∙ tick_sends_storage env (latest b.storage tr.storage_tx) tr.rng tr.module_state
