-- ===== src/Examples/Random.antt =====
-- flmodules/src/random_connections at concrete lists of nodes.
use fledger.Prelude.{
  ℕ, zero, suc, ◌≤◌, ◌≡◌, refl, true, false, List, [], ◌∷◌, arith, length, length-take, take, min,
  count, contains,
}
use fledger.NodeIds.{NodeId, NodeIds, from_bytes}
use fledger.NodeInfo.{NodeInfo, id_of}
use fledger.RandomConnections.Nodes.{get_nodes, remove_oldest_ticks}
use fledger.RandomConnections.Nodes.Ages.{remove_oldest_ticks_young}
use fledger.RandomConnections.Storage.{Env, ChoosesFrom, RandomStorage, choose_new, unused, default}
use fledger.RandomConnections.Storage.Invariant.{IsPartitioned, is_connected, is_connecting}
use fledger.RandomConnections.Storage.Choice.{choose_new_lem}
use fledger.RandomConnections.Messages.{
  RandomIn, node_list, node_failure, node_connected, node_comm_from_network, drop_connection, tick,
  default_config, new, process_messages,
}
use fledger.RandomConnections.Messages.Invariant.{NamesOnce, process_messages-IsPartitioned}
use fledger.RandomConnections.Messages.Bound.{LnLaws, IsBounded, process_messages-IsBounded}

-- A generator that counts its uses, and picks the first nodes of the slice.
abbrev pub first_env : Env
first_env = record {
  Rng = ℕ;
  choose_multiple = λ r ids n. (take n ids, suc r);
  unique = λ infos. infos;
  twice_ln_ceil = λ n. n;
}

count-take-le : (n : ℕ) (ids : NodeIds) (id : NodeId) → count id (take n ids) ≤ count id ids
count-take-le zero ids id = omega arith
count-take-le (suc n) [] id = omega arith
count-take-le (suc n) (x ∷ ids) id = ground (arith, count-take-le n ids id)

first_env-ChoosesFrom : ChoosesFrom first_env
first_env-ChoosesFrom = record {
  chosen_length = λ r ids n. length-take n ids;
  chosen_count = λ r ids n id. count-take-le n ids id;
}

first_env-LnLaws : LnLaws first_env
first_env-LnLaws = record { twice_ln_two = refl; twice_ln_mono = λ a b h k. k }

abbrev pub stored : RandomStorage
stored = record {
  connected = record { id = 1; ticks = 5 } ∷ record { id = 2; ticks = 100 } ∷ [];
  connecting = record { id = 3; ticks = 0 } ∷ [];
  known = 1 ∷ 2 ∷ 3 ∷ 4 ∷ 5 ∷ 6 ∷ 7 ∷ 8 ∷ [];
  infos = [];
}

stored-IsPartitioned : IsPartitioned stored
stored-IsPartitioned = record {
  known_once = λ id. ground arith;
  connected_once = λ id. ground arith;
  connecting_once = λ id. ground arith;
  connected_known = λ id h. ground arith;
  connecting_known = λ id h. ground arith;
  one_list = λ id. ground arith;
}

-- A node with a key of one byte.
abbrev node : ℕ → NodeInfo
node n = record { name = "node"; client = "test"; pubkey = n ∷ []; modules = 0 }

abbrev arriving : List RandomIn
arriving =
    node_list (node 1 ∷ node 2 ∷ node 3 ∷ [])
    ∷ node_connected 1
    ∷ tick
    ∷ node_comm_from_network 1 drop_connection
    ∷ node_failure 2
    ∷ []

fresh-IsPartitioned : IsPartitioned default
fresh-IsPartitioned = record {
  known_once = λ id. ground arith;
  connected_once = λ id. ground arith;
  connecting_once = λ id. ground arith;
  connected_known = λ id h. ground arith;
  connecting_known = λ id h. ground arith;
  one_list = λ id. ground arith;
}

three_nodes : NamesOnce (node_list (node 1 ∷ node 2 ∷ node 3 ∷ []))
unfolding id_of from_bytes
three_nodes = λ y. ground arith

process_messages-IsPartitioned_example :
    IsPartitioned (process_messages first_env 0 (new default_config) arriving).0.store
process_messages-IsPartitioned_example =
    process_messages-IsPartitioned first_env first_env-ChoosesFrom 0 (new default_config) arriving
      (three_nodes, (tt, (tt, (tt, (tt, tt))))) fresh-IsPartitioned

process_messages-IsBounded_example :
    IsBounded first_env (process_messages first_env 0 (new default_config) arriving).0.store
process_messages-IsBounded_example =
    process_messages-IsBounded first_env first_env-LnLaws 0 (new default_config) arriving
      (omega arith)

choose_new_lem_example :
    (length (choose_new first_env 0 stored 2).1 ≡ min 2 (length (unused stored)))
    × ((id : NodeId)
        → contains (choose_new first_env 0 stored 2).1 id ≡ true
        → (contains stored.known id ≡ true)
          × (is_connected stored id ≡ false)
          × (is_connecting stored id ≡ false)
          × (is_connecting (choose_new first_env 0 stored 2).0 id ≡ true))
choose_new_lem_example =
    choose_new_lem first_env first_env-ChoosesFrom 0 stored stored-IsPartitioned 2

remove_oldest_ticks_young_example :
    (count 1 (get_nodes (remove_oldest_ticks stored.connected 50).0) ≡ 0)
    × (count 1 (remove_oldest_ticks stored.connected 50).1 ≡ 0)
remove_oldest_ticks_young_example =
    remove_oldest_ticks_young 50 (record { id = 1; ticks = 5 })
      (record { id = 2; ticks = 100 } ∷ []) (omega arith) (omega arith) refl
