-- ===== src/RandomConnections/Messages.antt =====
-- flmodules/src/random_connections/messages.rs: the messages of the module and its handler.
pub mod Invariant
pub mod Bound
pub mod Outputs
use fledger.Prelude.{
  ℕ, ◌*◌, List, [], ◌∷◌, ◌++◌, Bool, map, ltb, leb, if◌then◌else◌, add_u32, flat_map,
}
use fledger.NodeIds.{NodeId, NodeIds}
use fledger.NodeInfo.{NodeInfo}
use fledger.NetworkWrapper.{NetworkWrapper}
use fledger.RandomConnections.Nodes.{get_nodes, contains, count_expired}
use fledger.RandomConnections.Storage
use fledger.RandomConnections.Storage.{Env, RandomStorage}

pub data ModuleMessage : Type 0 where
  for_module : NetworkWrapper → ModuleMessage
  drop_connection : ModuleMessage

pub data RandomIn : Type 0 where
  node_list : List NodeInfo → RandomIn
  node_failure : NodeId → RandomIn
  node_connected : NodeId → RandomIn
  node_disconnected : NodeId → RandomIn
  node_comm_from_network : NodeId → ModuleMessage → RandomIn
  network_mapper_to_network : NodeId → NetworkWrapper → RandomIn
  tick : RandomIn

pub data RandomOut : Type 0 where
  connect_node : NodeId → RandomOut
  disconnect_node : NodeId → RandomOut
  node_ids_connected : NodeIds → RandomOut
  node_infos_connected : List NodeInfo → RandomOut
  node_comm_to_network : NodeId → ModuleMessage → RandomOut
  network_wrapper_from_network : NodeId → NetworkWrapper → RandomOut
  storage : RandomStorage → RandomOut

-- All intervals are in ticks.
pub record Config : Type 0 where
  pub churn_connected : ℕ
  pub connecting_timeout : ℕ
  pub fill_connected : ℕ

abbrev pub default_config : Config
default_config = record { churn_connected = 60 * 60; connecting_timeout = 10; fill_connected = 10 }

pub record RandomConnections : Type 0 where
  pub cfg : Config
  pub store : RandomStorage
  pub fill : ℕ

abbrev pub new : Config → RandomConnections
new cfg = record { cfg = cfg; store = Storage.default; fill = 0 }

module _ (env : Env) where
  open env use {Rng}

  -- A handler returns the new state, the messages that it sends, and the generator's new state.
  abbrev pub Handled : Type 0
  Handled = RandomConnections × List RandomOut × Rng

  -- Runs a handler behind another one and joins their messages.
  abbrev pub then_run : Handled → (Rng → RandomConnections → Handled) → Handled
  then_run (rc, out, rng) next = let (rc', out', rng') = next rng rc in (rc', out ++ out', rng')

  pub new_connection : Rng → RandomConnections → Handled
  new_connection rng rc =
      let (s, ids, rng') = Storage.fill_up env rng rc.store in
      (record rc { store = s }, map connect_node ids, rng')

  pub need_drop : Rng → RandomConnections → Handled
  need_drop rng rc =
      let (s, ids) = Storage.limit_active env rc.store rc.cfg.churn_connected in
      (
        record rc { store = s },
        flat_map (λ n. node_comm_to_network n drop_connection ∷ disconnect_node n ∷ []) ids,
        rng,
      )

  pub churn : Rng → RandomConnections → Handled
  churn rng rc =
      let expired = count_expired rc.store.connected rc.cfg.churn_connected in
      let (s, ids, rng') = Storage.choose_new env rng rc.store expired in
      (record rc { store = s }, map connect_node ids, rng')

  fill_one : Rng → RandomConnections → Handled
  fill_one rng rc =
      let (s, ids, rng') = Storage.choose_new env rng rc.store 1 in
      (record rc { store = s }, map connect_node ids, rng')

  pub fill_connection : Rng → RandomConnections → Handled
  unfolding fill_one
  fill_connection rng rc =
      let fill = add_u32 rc.fill 1 in
      if leb rc.cfg.fill_connected fill
      then (let reset = record rc { fill = 0 } in
          if ltb (Storage.total_len rc.store) (Storage.nodes_needed env rc.store)
          then fill_one rng reset
          else (reset, [], rng))
      else (record rc { fill = fill }, [], rng)

  pub update : Rng → RandomConnections → Handled
  update rng rc = (
    rc,
    node_ids_connected (get_nodes rc.store.connected)
        ∷ node_infos_connected (Storage.get_connected_info rc.store)
        ∷ storage rc.store
        ∷ [],
    rng,
  )

  pub network_msg : Rng → RandomConnections → NodeId → ModuleMessage → Handled
  network_msg rng rc id (for_module msg) = (rc, network_wrapper_from_network id msg ∷ [], rng)
  network_msg rng rc id drop_connection =
      then_run
        (record rc { store = Storage.disconnect rc.store (id ∷ []) }, disconnect_node id ∷ [], rng)
        new_connection

  pub process_message : Rng → RandomConnections → RandomIn → Handled
  unfolding network_msg
  process_message rng rc (node_list nodes) =
      new_connection rng (record rc { store = Storage.new_infos env rc.store nodes })
  process_message rng rc (node_connected node) =
      need_drop rng (record rc { store = Storage.connect rc.store (node ∷ []) })
  process_message rng rc (node_disconnected node) =
      new_connection rng (record rc { store = Storage.disconnect rc.store (node ∷ []) })
  process_message rng rc (node_failure node) =
      then_run
        (then_run
          (
            record rc { store = Storage.failure rc.store (node ∷ []) },
            disconnect_node node ∷ [],
            rng,
          )
          new_connection)
        need_drop
  process_message rng rc tick =
      then_run
        (then_run
          (then_run
            (then_run (new_connection rng (record rc { store = Storage.tick rc.store })) need_drop)
            churn)
          fill_connection)
        update
  process_message rng rc (node_comm_from_network id msg) = network_msg rng rc id msg
  process_message rng rc (network_mapper_to_network dst msg) =
      if contains rc.store.connected dst
      then (rc, node_comm_to_network dst (for_module msg) ∷ [], rng)
      else (rc, disconnect_node dst ∷ node_ids_connected (get_nodes rc.store.connected) ∷ [], rng)

  -- A run over a sequence of messages.
  pub process_messages : Rng → RandomConnections → List RandomIn → Handled
  process_messages rng rc [] = (rc, [], rng)
  process_messages rng rc (msg ∷ msgs) =
      then_run (process_message rng rc msg) (λ rng' rc'. process_messages rng' rc' msgs)
