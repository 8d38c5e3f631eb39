-- ===== src/RandomConnections/Storage/Choice.antt =====
-- flmodules/src/random_connections/core.rs: the choice of new nodes, and what it and the dropping of
-- nodes leave of the invariant.
use fledger.Prelude.{
  ℕ, ◌+◌, ◌-◌, ◌≤◌, ◌≡◌, refl, ap, true, false, not, ◌&&◌, List, [], ◌∷◌, map, arith, ltb,
  Bool-cases, inl, inr, length, min, contains, count, IsDistinct, contains-count, contains-retain,
  count-retain,
}
use fledger.NodeIds.{NodeId, NodeIds}
use fledger.NodeIds.Laws.{remove_existing_lem}
use fledger.NodeInfo.{NodeInfo, id_of}
use fledger.RandomConnections.Nodes.{
  NodeTime, Nodes, get_nodes, add_new, oldest_ticks, keep_oldest_n,
}
use fledger.RandomConnections.Nodes
use fledger.RandomConnections.Nodes.Removal.{keep_oldest_n-IsCut, contains-add_new}
use fledger.RandomConnections.Storage.{
  Env, ChoosesFrom, RandomStorage, tick, unused, connecting, total_len, new_infos, choose_new,
  fill_up, drop_surplus, limit_active,
}
use fledger.RandomConnections.Storage.Invariant.{
  IsPartitioned, is_connected, is_connecting, new_list-IsPartitioned, connecting-IsPartitioned,
  disconnect-IsPartitioned,
}

get_nodes-tick : (ns : Nodes) → get_nodes (Nodes.tick ns) ≡ get_nodes ns
unfolding Nodes.tick
get_nodes-tick [] = refl
get_nodes-tick (n ∷ ns) = ap (◌∷◌ n.id) (get_nodes-tick ns)

pub tick-IsPartitioned : {s : RandomStorage} → IsPartitioned s → IsPartitioned (tick s)
unfolding tick
tick-IsPartitioned {s} v = record {
  known_once = v.known_once;
  connected_once = rw get_nodes-tick v.connected_once;
  connecting_once = rw get_nodes-tick v.connecting_once;
  connected_known = rw get_nodes-tick v.connected_known;
  connecting_known = rw get_nodes-tick v.connecting_known;
  one_list = rw (get_nodes-tick s.connected, get_nodes-tick s.connecting) v.one_list;
}

contains-unused :
    (s : RandomStorage) (id : NodeId)
    → contains (unused s) id
      ≡ (contains s.known id && not (is_connected s id) && not (is_connecting s id))
unfolding unused
contains-unused s id =
    rw (unused, remove_existing_lem, contains-retain, remove_existing_lem, contains-retain)

count-unused-le : (s : RandomStorage) (id : NodeId) → count id (unused s) ≤ count id s.known
unfolding unused
count-unused-le s id =
    rw (unused, remove_existing_lem, count-retain, remove_existing_lem, count-retain) (ground arith)

-- `keep_oldest_n` only takes nodes away.
count-keep_oldest_n-le :
    (ns : Nodes) (n : ℕ) (id : NodeId)
    → count id (get_nodes (keep_oldest_n ns n).0) ≤ count id (get_nodes ns)
count-keep_oldest_n-le ns n id = let cut = keep_oldest_n-IsCut ns n in omega (arith, cut.total id)

contains-keep_oldest_n :
    (ns : Nodes) (n : ℕ) (id : NodeId)
    → contains (get_nodes (keep_oldest_n ns n).0) id ≡ true
    → contains (get_nodes ns) id ≡ true
contains-keep_oldest_n ns n id h = ground (
  arith,
  count-keep_oldest_n-le ns n id,
  contains-count id (get_nodes ns),
  contains-count id (get_nodes (keep_oldest_n ns n).0),
)

keep_oldest_n-IsPartitioned :
    {s : RandomStorage} (n : ℕ)
    → IsPartitioned s
    → IsPartitioned (record s { connected = (keep_oldest_n s.connected n).0 })
keep_oldest_n-IsPartitioned {s} n v = record {
  known_once = v.known_once;
  connected_once =
      λ id. omega (arith, count-keep_oldest_n-le s.connected n id, v.connected_once id);
  connecting_once = v.connecting_once;
  connected_known = λ id h. v.connected_known id (contains-keep_oldest_n s.connected n id h);
  connecting_known = v.connecting_known;
  one_list = λ id. ground (arith, contains-keep_oldest_n s.connected n id, v.one_list id);
}

module _ (env : Env) where
  open env use {Rng, choose_multiple}

  drop_surplus-IsPartitioned :
      {s : RandomStorage} (n : ℕ) (ids : NodeIds)
      → IsPartitioned s
      → IsPartitioned (drop_surplus env s n ids).0
  unfolding drop_surplus
  drop_surplus-IsPartitioned {s} n ids v = elim (Bool-cases (ltb n (total_len s - length ids))) [
    | inl e ↦ rw e (keep_oldest_n-IsPartitioned (n + length ids) v)
    | inr e ↦ rw e v
  ]

  pub limit_active-IsPartitioned :
      {s : RandomStorage} (churn : ℕ) → IsPartitioned s → IsPartitioned (limit_active env s churn).0
  unfolding limit_active
  limit_active-IsPartitioned churn v = disconnect-IsPartitioned _ (drop_surplus-IsPartitioned _ _ v)

  pub new_infos-IsPartitioned :
      {s : RandomStorage} (list : List NodeInfo)
      → IsDistinct (map id_of list)
      → IsPartitioned s
      → IsPartitioned (new_infos env s list)
  unfolding new_infos
  new_infos-IsPartitioned list once v =
      let w = new_list-IsPartitioned (map id_of list) once v in
      record {
        known_once = w.known_once;
        connected_once = w.connected_once;
        connecting_once = w.connecting_once;
        connected_known = w.connected_known;
        connecting_known = w.connecting_known;
        one_list = w.one_list;
      }

  module _ (chooses : ChoosesFrom env) (rng : Rng) (s : RandomStorage) (v : IsPartitioned s) where
    chosen-IsDistinct : (n : ℕ) → IsDistinct (choose_multiple rng (unused s) n).0
    chosen-IsDistinct n = λ id.
        omega
          (arith, chooses.chosen_count rng (unused s) n id, count-unused-le s id, v.known_once id)

    contains-chosen :
        (n : ℕ) (id : NodeId)
        → contains (choose_multiple rng (unused s) n).0 id ≡ true
        → contains (unused s) id ≡ true
    contains-chosen n id h = ground (
      arith,
      chooses.chosen_count rng (unused s) n id,
      contains-count id (unused s),
      contains-count id (choose_multiple rng (unused s) n).0,
    )

    pub choose_new-IsPartitioned : (n : ℕ) → IsPartitioned (choose_new env rng s n).0
    unfolding choose_new
    choose_new-IsPartitioned n = connecting-IsPartitioned _ (chosen-IsDistinct _) v

    pub fill_up-IsPartitioned : IsPartitioned (fill_up env rng s).0
    unfolding fill_up
    fill_up-IsPartitioned = choose_new-IsPartitioned _

    -- In a state whose lists are distinct, known and apart, `choose_new` picks as many nodes as
    -- asked for, or all that are unused if there are fewer. Each is known, was in neither list, and
    -- is connecting afterwards.
    pub choose_new_lem :
        (n : ℕ)
        → (length (choose_new env rng s n).1 ≡ min n (length (unused s)))
          × ((id : NodeId)
              → contains (choose_new env rng s n).1 id ≡ true
              → (contains s.known id ≡ true)
                × (is_connected s id ≡ false)
                × (is_connecting s id ≡ false)
                × (is_connecting (choose_new env rng s n).0 id ≡ true))
    unfolding choose_new connecting
    choose_new_lem n =
        let m = min n (length (unused s)) in
        let ids = (choose_multiple rng (unused s) m).0 in
        (
          omega (arith, chooses.chosen_length rng (unused s) m),
          λ id h.
              let free = contains-chosen m id h in
              let split = contains-unused s id in
              (
                ground arith,
                ground arith,
                ground arith,
                ground (arith, contains-add_new s.connecting ids id),
              ),
        )
