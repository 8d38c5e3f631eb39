-- ===== src/RandomConnections/Storage.antt =====
-- flmodules/src/random_connections/core.rs: the connected, connecting and known nodes.
-- The methods of `RandomStorage` are the functions of this module.
pub mod Invariant
pub mod Choice
pub mod Filling
pub mod Limits
use fledger.Prelude.{
  ℕ, ◌+◌, ◌-◌, ◌*◌, ◌/◌, ◌≤◌, ◌≡◌, List, [], ◌++◌, map, ltb, if◌then◌else◌, length, retain, min,
  count, contains as has,
}
use fledger.NodeIds.{NodeId, NodeIds, merge, remove_existing}
use fledger.NodeInfo.{NodeInfo, id_of}
use fledger.RandomConnections.Nodes.{
  Nodes, get_nodes, contains, add_new, remove, oldest_ticks, keep_oldest_n,
}
use fledger.RandomConnections.Nodes

-- What the module takes from other crates and from floating point:
-- `choose_multiple` of `rand` over the state of the thread's generator, `unique` of `itertools`,
-- and `((nodes as f64).ln() * 2.).ceil()`.
pub record Env : Type 1 where
  pub Rng : Type 0
  pub choose_multiple : Rng → NodeIds → ℕ → NodeIds × Rng
  pub unique : List NodeInfo → List NodeInfo
  pub twice_ln_ceil : ℕ → ℕ

-- The documented behaviour of `choose_multiple`: as many elements as asked for, or all of them if
-- there are fewer, and none more often than it stands in the slice.
pub record ChoosesFrom (env : Env) : Type 0 where
  pub chosen_length :
      (r : env.Rng) (ids : NodeIds) (n : ℕ)
      → length (env.choose_multiple r ids n).0 ≡ min n (length ids)
  pub chosen_count :
      (r : env.Rng) (ids : NodeIds) (n : ℕ) (id : NodeId)
      → count id (env.choose_multiple r ids n).0 ≤ count id ids

pub record RandomStorage : Type 0 where
  pub connected : Nodes
  pub connecting : Nodes
  pub known : NodeIds
  pub infos : List NodeInfo

abbrev pub default : RandomStorage
default = record { connected = []; connecting = []; known = []; infos = [] }

pub new_list : RandomStorage → NodeIds → RandomStorage
new_list s list = record s { known = merge s.known list }

abbrev pub get_connected_info : RandomStorage → List NodeInfo
get_connected_info s = retain (λ ni. contains s.connected (id_of ni)) s.infos

pub connect : RandomStorage → NodeIds → RandomStorage
unfolding new_list
connect s nodes =
    new_list
      (record s {
        connected = add_new s.connected nodes;
        connecting = Nodes.remove s.connecting nodes;
      })
      nodes

unfoldable pub disconnect : RandomStorage → NodeIds → RandomStorage
disconnect s nodes = record s {
  connected = Nodes.remove s.connected nodes;
  connecting = Nodes.remove s.connecting nodes;
}

unfoldable pub connecting : RandomStorage → NodeIds → RandomStorage
unfolding new_list
connecting s nodes =
    new_list
      (record s {
        connecting = add_new s.connecting nodes;
        connected = Nodes.remove s.connected nodes;
      })
      nodes

pub total_len : RandomStorage → ℕ
total_len s = length s.connected + length s.connecting

pub failure : RandomStorage → NodeIds → RandomStorage
failure s nodes = record s {
  connecting = Nodes.remove s.connecting nodes;
  connected = Nodes.remove s.connected nodes;
  known = (remove_existing s.known nodes).0;
}

unfoldable pub tick : RandomStorage → RandomStorage
tick s = record s { connected = Nodes.tick s.connected; connecting = Nodes.tick s.connecting }

-- The known nodes that are neither connected nor connecting.
pub unused : RandomStorage → NodeIds
unused s =
    let not_connected = (remove_existing s.known (get_nodes s.connected)).0 in
    (remove_existing not_connected (get_nodes s.connecting)).0

module _ (env : Env) where
  open env use {Rng, choose_multiple, unique, twice_ln_ceil}

  unfoldable pub new_infos : RandomStorage → List NodeInfo → RandomStorage
  unfolding new_list
  new_infos s list = record (new_list s (map id_of list)) { infos = unique (s.infos ++ list) }

  unfoldable pub choose_new : Rng → RandomStorage → ℕ → RandomStorage × NodeIds × Rng
  unfolding unused
  choose_new rng s nodes =
      let free = unused s in
      let (chosen, rng') = choose_multiple rng free (min nodes (length free)) in
      (connecting s chosen, chosen, rng')

  unfoldable pub nodes_needed : RandomStorage → ℕ
  nodes_needed s = let nodes = length s.known in if ltb nodes 2 then nodes else twice_ln_ceil nodes

  -- The source computes in `i32` and takes the maximum with 0: on ℕ the difference stops at 0. The
  -- two agree while the number of nodes stays below 2 ^ 31.
  unfoldable pub fill_up : Rng → RandomStorage → RandomStorage × NodeIds × Rng
  fill_up rng s = choose_new rng s ((nodes_needed s + 1) / 2 - total_len s)

  -- The second step of `limit_active`: `keep_oldest_n` takes the surplus out of `connected` and the
  -- identifiers join those that are dropped.
  pub drop_surplus : RandomStorage → ℕ → NodeIds → RandomStorage × NodeIds
  drop_surplus s max_connected ids =
      if ltb max_connected (total_len s - length ids)
      then (let (kept, surplus) = keep_oldest_n s.connected (max_connected + length ids) in
          (record s { connected = kept }, merge ids surplus))
      else (s, ids)

  unfoldable pub limit_active : RandomStorage → ℕ → RandomStorage × NodeIds
  unfolding drop_surplus
  limit_active s churn =
      let max_connected = nodes_needed s * 2 in
      let ids =
        if ltb max_connected (total_len s) then merge [] (oldest_ticks s.connected churn) else [] in
      let (s', ids') = drop_surplus s max_connected ids in (disconnect s' ids', ids')
