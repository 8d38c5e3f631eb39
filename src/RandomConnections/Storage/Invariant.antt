-- ===== src/RandomConnections/Storage/Invariant.antt =====
-- flmodules/src/random_connections/core.rs: connected and connecting nodes are known, distinct and
-- in one of the two lists only, whatever the operations do.
use fledger.Prelude.{
  ◌≡◌, Bool, true, false, not, ◌&&◌, arith, contains, IsDistinct, contains-retain, count-retain,
}
use fledger.NodeIds.{NodeId, NodeIds, remove_existing}
use fledger.NodeIds.Laws.{contains-merge, merge-IsDistinct, remove_existing_lem}
use fledger.RandomConnections.Nodes.{get_nodes}
use fledger.RandomConnections.Nodes.Removal.{
  contains-remove, contains-add_new, add_new-IsDistinct, remove-IsDistinct,
}
use fledger.RandomConnections.Storage.{
  RandomStorage, new_list, connect, disconnect, connecting, failure,
}

abbrev pub is_connected : RandomStorage → NodeId → Bool
is_connected s id = contains (get_nodes s.connected) id

abbrev pub is_connecting : RandomStorage → NodeId → Bool
is_connecting s id = contains (get_nodes s.connecting) id

pub record IsPartitioned (s : RandomStorage) : Type 0 where
  pub known_once : IsDistinct s.known
  pub connected_once : IsDistinct (get_nodes s.connected)
  pub connecting_once : IsDistinct (get_nodes s.connecting)
  pub connected_known : (id : NodeId) → is_connected s id ≡ true → contains s.known id ≡ true
  pub connecting_known : (id : NodeId) → is_connecting s id ≡ true → contains s.known id ≡ true
  pub one_list : (id : NodeId) → (is_connected s id && is_connecting s id) ≡ false

module _ {s : RandomStorage} (nodes : NodeIds) (once : IsDistinct nodes) (v : IsPartitioned s) where
  pub new_list-IsPartitioned : IsPartitioned (new_list s nodes)
  unfolding new_list
  new_list-IsPartitioned = record {
    known_once = merge-IsDistinct s.known nodes v.known_once once;
    connected_once = v.connected_once;
    connecting_once = v.connecting_once;
    connected_known = λ id h. ground (arith, contains-merge s.known nodes id, v.connected_known id);
    connecting_known =
        λ id h. ground (arith, contains-merge s.known nodes id, v.connecting_known id);
    one_list = v.one_list;
  }

  pub connect-IsPartitioned : IsPartitioned (connect s nodes)
  unfolding connect
  connect-IsPartitioned = record {
    known_once = merge-IsDistinct s.known nodes v.known_once once;
    connected_once = add_new-IsDistinct s.connected nodes v.connected_once once;
    connecting_once = remove-IsDistinct s.connecting nodes v.connecting_once;
    connected_known = λ id h. ground (
      arith,
      contains-add_new s.connected nodes id,
      contains-merge s.known nodes id,
      v.connected_known id,
    );
    connecting_known = λ id h. ground (
      arith,
      contains-remove s.connecting nodes id,
      contains-merge s.known nodes id,
      v.connecting_known id,
    );
    one_list = λ id. ground (
      arith,
      contains-add_new s.connected nodes id,
      contains-remove s.connecting nodes id,
      v.one_list id,
    );
  }

  pub connecting-IsPartitioned : IsPartitioned (connecting s nodes)
  unfolding connecting
  connecting-IsPartitioned = record {
    known_once = merge-IsDistinct s.known nodes v.known_once once;
    connected_once = remove-IsDistinct s.connected nodes v.connected_once;
    connecting_once = add_new-IsDistinct s.connecting nodes v.connecting_once once;
    connected_known = λ id h. ground (
      arith,
      contains-remove s.connected nodes id,
      contains-merge s.known nodes id,
      v.connected_known id,
    );
    connecting_known = λ id h. ground (
      arith,
      contains-add_new s.connecting nodes id,
      contains-merge s.known nodes id,
      v.connecting_known id,
    );
    one_list = λ id. ground (
      arith,
      contains-remove s.connected nodes id,
      contains-add_new s.connecting nodes id,
      v.one_list id,
    );
  }

module _ {s : RandomStorage} (nodes : NodeIds) (v : IsPartitioned s) where
  pub disconnect-IsPartitioned : IsPartitioned (disconnect s nodes)
  unfolding disconnect
  disconnect-IsPartitioned = record {
    known_once = v.known_once;
    connected_once = remove-IsDistinct s.connected nodes v.connected_once;
    connecting_once = remove-IsDistinct s.connecting nodes v.connecting_once;
    connected_known =
        λ id h. ground (arith, contains-remove s.connected nodes id, v.connected_known id);
    connecting_known =
        λ id h. ground (arith, contains-remove s.connecting nodes id, v.connecting_known id);
    one_list = λ id. ground (
      arith,
      contains-remove s.connected nodes id,
      contains-remove s.connecting nodes id,
      v.one_list id,
    );
  }

  contains-remove_existing :
      (id : NodeId)
      → contains (remove_existing s.known nodes).0 id
        ≡ (contains s.known id && not (contains nodes id))
  contains-remove_existing id =
      rw remove_existing_lem (contains-retain (λ x. not (contains nodes x)) s.known id)

  pub failure-IsPartitioned : IsPartitioned (failure s nodes)
  unfolding failure
  failure-IsPartitioned = record {
    known_once = λ id.
        rw remove_existing_lem
          (ground (arith, count-retain id (λ x. not (contains nodes x)) s.known, v.known_once id));
    connected_once = remove-IsDistinct s.connected nodes v.connected_once;
    connecting_once = remove-IsDistinct s.connecting nodes v.connecting_once;
    connected_known = λ id h. ground (
      arith,
      contains-remove s.connected nodes id,
      contains-remove_existing id,
      v.connected_known id,
    );
    connecting_known = λ id h. ground (
      arith,
      contains-remove s.connecting nodes id,
      contains-remove_existing id,
      v.connecting_known id,
    );
    one_list = λ id. ground (
      arith,
      contains-remove s.connected nodes id,
      contains-remove s.connecting nodes id,
      v.one_list id,
    );
  }
