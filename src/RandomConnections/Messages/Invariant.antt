-- ===== src/RandomConnections/Messages/Invariant.antt =====
-- flmodules/src/random_connections/messages.rs: the lists of nodes stay valid under every message.
use fledger.Prelude.{
  List, [], ◌∷◌, map, ltb, leb, add_u32, Bool-cases, inl, inr, All, arith, IsDistinct,
}
use fledger.NodeIds.{NodeId}
use fledger.NodeInfo.{id_of}
use fledger.RandomConnections.Storage.{Env, ChoosesFrom, RandomStorage}
use fledger.RandomConnections.Storage
use fledger.RandomConnections.Storage.Invariant.{
  IsPartitioned, connect-IsPartitioned, disconnect-IsPartitioned, failure-IsPartitioned,
}
use fledger.RandomConnections.Storage.Choice.{
  tick-IsPartitioned, limit_active-IsPartitioned, new_infos-IsPartitioned, choose_new-IsPartitioned,
  fill_up-IsPartitioned,
}
use fledger.RandomConnections.Messages.{
  for_module, drop_connection, RandomIn, node_list, node_failure, node_connected, node_disconnected,
  node_comm_from_network, network_mapper_to_network, tick, RandomConnections, Handled,
  new_connection, need_drop, churn, fill_connection, update, network_msg, process_message,
  process_messages,
}

-- A list of nodes from the signalling server names each node once.
abbrev pub NamesOnce : RandomIn → Type 0
NamesOnce (node_list nodes) = IsDistinct (map id_of nodes)
NamesOnce (node_failure node) = Unit
NamesOnce (node_connected node) = Unit
NamesOnce (node_disconnected node) = Unit
NamesOnce (node_comm_from_network id msg) = Unit
NamesOnce (network_mapper_to_network dst msg) = Unit
NamesOnce tick = Unit

one-IsDistinct : (node : NodeId) → IsDistinct (node ∷ [])
one-IsDistinct node = λ y. ground arith

module _ (env : Env) (chooses : ChoosesFrom env) where
  open env use {Rng}

  abbrev pub Keeps : Handled env → Type 0
  Keeps h = IsPartitioned h.0.store

  new_connection-IsPartitioned :
      (rng : Rng) (rc : RandomConnections)
      → IsPartitioned rc.store
      → Keeps (new_connection env rng rc)
  unfolding new_connection
  new_connection-IsPartitioned rng rc v = fill_up-IsPartitioned env chooses rng rc.store v

  need_drop-IsPartitioned :
      (rng : Rng) (rc : RandomConnections) → IsPartitioned rc.store → Keeps (need_drop env rng rc)
  unfolding need_drop
  need_drop-IsPartitioned rng rc v = limit_active-IsPartitioned env rc.cfg.churn_connected v

  churn-IsPartitioned :
      (rng : Rng) (rc : RandomConnections) → IsPartitioned rc.store → Keeps (churn env rng rc)
  unfolding churn
  churn-IsPartitioned rng rc v = choose_new-IsPartitioned env chooses rng rc.store v _

  fill_connection-IsPartitioned :
      (rng : Rng) (rc : RandomConnections)
      → IsPartitioned rc.store
      → Keeps (fill_connection env rng rc)
  unfolding fill_connection
  fill_connection-IsPartitioned rng rc v =
      elim (Bool-cases (leb rc.cfg.fill_connected (add_u32 rc.fill 1))) [
        | inl e ↦
            elim (Bool-cases
              (ltb (Storage.total_len rc.store) (Storage.nodes_needed env rc.store))) [
                | inl f ↦ rw (e, f) (choose_new-IsPartitioned env chooses rng rc.store v 1)
                | inr f ↦ rw (e, f) v
              ]
        | inr e ↦ rw e v
      ]

  update-IsPartitioned :
      (rng : Rng) (rc : RandomConnections) → IsPartitioned rc.store → Keeps (update env rng rc)
  unfolding update
  update-IsPartitioned rng rc v = v

  -- Every message keeps the known nodes distinct, and the connected and connecting nodes known,
  -- distinct and apart, if a node list in it names each node once.
  process_message-IsPartitioned :
      (rng : Rng) (rc : RandomConnections) (msg : RandomIn)
      → NamesOnce msg
      → IsPartitioned rc.store
      → IsPartitioned (process_message env rng rc msg).0.store
  unfolding process_message network_msg
  process_message-IsPartitioned rng rc (node_list nodes) once v =
      new_connection-IsPartitioned rng _ (new_infos-IsPartitioned env nodes once v)
  process_message-IsPartitioned rng rc (node_connected node) once v =
      need_drop-IsPartitioned rng _ (connect-IsPartitioned (node ∷ []) (one-IsDistinct node) v)
  process_message-IsPartitioned rng rc (node_disconnected node) once v =
      new_connection-IsPartitioned rng _ (disconnect-IsPartitioned (node ∷ []) v)
  process_message-IsPartitioned rng rc (node_failure node) once v =
      need_drop-IsPartitioned _ _
        (new_connection-IsPartitioned _ _ (failure-IsPartitioned (node ∷ []) v))
  process_message-IsPartitioned rng rc tick once v = update-IsPartitioned _ _ (
      fill_connection-IsPartitioned _ _ (
        churn-IsPartitioned _ _
          (need_drop-IsPartitioned _ _ (new_connection-IsPartitioned _ _ (tick-IsPartitioned v)))))
  process_message-IsPartitioned rng rc (node_comm_from_network id (for_module msg)) once v = v
  process_message-IsPartitioned rng rc (node_comm_from_network id drop_connection) once v =
      new_connection-IsPartitioned _ _ (disconnect-IsPartitioned (id ∷ []) v)
  process_message-IsPartitioned rng rc (network_mapper_to_network dst msg) once v = ground arith

  -- From a state in which the known nodes are distinct, and the connected and connecting nodes are
  -- known, distinct and in one of the two lists only, any sequence of messages leads to such a
  -- state again, if every node list in it names each node once and the choice of nodes picks from
  -- what it is given.
  pub process_messages-IsPartitioned :
      (rng : Rng) (rc : RandomConnections) (msgs : List RandomIn)
      → All NamesOnce msgs
      → IsPartitioned rc.store
      → IsPartitioned (process_messages env rng rc msgs).0.store
  unfolding process_messages
  process_messages-IsPartitioned rng rc [] once v = v
  process_messages-IsPartitioned rng rc (msg ∷ msgs) once v =
      process_messages-IsPartitioned (process_message env rng rc msg).2
        (process_message env rng rc msg).0 msgs once.1
        (process_message-IsPartitioned rng rc msg once.0 v)
