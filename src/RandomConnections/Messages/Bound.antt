-- ===== src/RandomConnections/Messages/Bound.antt =====
-- flmodules/src/random_connections: the number of connected nodes under every message.
use fledger.Prelude.{
  ℕ, ◌*◌, ◌≤◌, ◌≡◌, List, [], ◌∷◌, ltb, leb, add_u32, Bool-cases, inl, inr, arith, length,
  length-map, length-append, map, contains, not, retain,
}
use fledger.NodeIds.{NodeIds, merge}
use fledger.NodeInfo.{NodeInfo, id_of}
use fledger.RandomConnections.Nodes.{Nodes, remove, NodeTime}
use fledger.RandomConnections.Nodes
use fledger.RandomConnections.Storage.{
  Env, RandomStorage, new_list, connecting, choose_new, fill_up, nodes_needed, limit_active,
  drop_surplus, disconnect, new_infos, total_len,
}
use fledger.RandomConnections.Storage
use fledger.RandomConnections.Storage.Limits.{limit_active_bound, length-remove-le_length}
use fledger.RandomConnections.Messages.{
  for_module, drop_connection, RandomIn, node_list, node_failure, node_connected, node_disconnected,
  node_comm_from_network, network_mapper_to_network, tick, RandomConnections, Handled,
  new_connection, need_drop, churn, fill_connection, update, network_msg, process_message,
  process_messages,
}

-- What the bound needs of the logarithm.
pub record LnLaws (env : Env) : Type 0 where
  pub twice_ln_two : env.twice_ln_ceil 2 ≡ 2
  pub twice_ln_mono : (a b : ℕ) → 2 ≤ a → a ≤ b → env.twice_ln_ceil a ≤ env.twice_ln_ceil b

module _ (env : Env) where
  -- At most `2 * nodes_needed` nodes are connected.
  abbrev pub IsBounded : RandomStorage → Type 0
  IsBounded s = length s.connected ≤ nodes_needed env s * 2

  known-limit_active : (s : RandomStorage) (n : ℕ) → (limit_active env s n).0.known ≡ s.known
  unfolding limit_active disconnect
  known-limit_active s n = ground arith

  needed_same : (s t : RandomStorage) → s.known ≡ t.known → nodes_needed env s ≡ nodes_needed env t
  unfolding nodes_needed
  needed_same s t h = rw h

  limit_active-IsBounded : (s : RandomStorage) (n : ℕ) → IsBounded (limit_active env s n).0
  limit_active-IsBounded s n = omega (
    arith,
    limit_active_bound env s n,
    needed_same (limit_active env s n).0 s (known-limit_active s n),
  )

  module _ (ln : LnLaws env) where
    open env use {Rng}

    needed_mono :
        (s t : RandomStorage)
        → length s.known ≤ length t.known
        → nodes_needed env s ≤ nodes_needed env t
    unfolding nodes_needed
    needed_mono s t h = ground (
      arith,
      ln.twice_ln_two,
      ln.twice_ln_mono 2 (length t.known),
      ln.twice_ln_mono (length s.known) (length t.known),
    )

    -- Fewer connections and more known nodes keep the bound.
    keeps_bound :
        (s t : RandomStorage)
        → length t.connected ≤ length s.connected
        → length s.known ≤ length t.known
        → IsBounded s
        → IsBounded t
    keeps_bound s t fewer more h = omega (arith, needed_mono s t more)

    length-merge-le : (ids other : NodeIds) → length ids ≤ length (merge ids other)
    unfolding merge
    length-merge-le ids other =
        omega (arith, length-append ids (retain (λ n. not (contains ids n)) other))

    connecting-IsBounded :
        (s : RandomStorage) (ids : NodeIds) → IsBounded s → IsBounded (connecting s ids)
    connecting-IsBounded s ids =
        keeps_bound s (connecting s ids)
          (unfold connecting in length-remove-le_length s.connected ids)
          (unfold connecting in length-merge-le s.known ids)

    choose_new-IsBounded :
        (rng : Rng) (s : RandomStorage) (n : ℕ) → IsBounded s → IsBounded (choose_new env rng s n).0
    unfolding choose_new
    choose_new-IsBounded rng s n h = connecting-IsBounded s _ h

    disconnect-IsBounded :
        (s : RandomStorage) (ids : NodeIds) → IsBounded s → IsBounded (disconnect s ids)
    disconnect-IsBounded s ids =
        keeps_bound s (disconnect s ids)
          (unfold disconnect in length-remove-le_length s.connected ids)
          (unfold disconnect in omega arith)

    new_infos-IsBounded :
        (s : RandomStorage) (infos : List NodeInfo)
        → IsBounded s
        → IsBounded (new_infos env s infos)
    new_infos-IsBounded s infos =
        keeps_bound s (new_infos env s infos) (unfold new_infos in omega arith)
          (unfold new_infos in length-merge-le s.known (map id_of infos))

    length-tick : (ns : Nodes) → length (Nodes.tick ns) ≡ length ns
    unfolding Nodes.tick
    length-tick ns = length-map (λ (n : NodeTime). record n { ticks = add_u32 n.ticks 1 }) ns

    tick-IsBounded : (s : RandomStorage) → IsBounded s → IsBounded (Storage.tick s)
    tick-IsBounded s =
        keeps_bound s (Storage.tick s)
          (unfold Storage.tick in omega (arith, length-tick s.connected))
          (unfold Storage.tick in omega arith)

    abbrev Keeps : Handled env → Type 0
    Keeps h = IsBounded h.0.store

    new_connection-IsBounded :
        (rng : Rng) (rc : RandomConnections)
        → IsBounded rc.store
        → Keeps (new_connection env rng rc)
    unfolding new_connection fill_up
    new_connection-IsBounded rng rc h = choose_new-IsBounded rng rc.store _ h

    -- This one needs no bound to start from.
    need_drop-IsBounded : (rng : Rng) (rc : RandomConnections) → Keeps (need_drop env rng rc)
    unfolding need_drop
    need_drop-IsBounded rng rc = limit_active-IsBounded rc.store rc.cfg.churn_connected

    churn-IsBounded :
        (rng : Rng) (rc : RandomConnections) → IsBounded rc.store → Keeps (churn env rng rc)
    unfolding churn
    churn-IsBounded rng rc h = choose_new-IsBounded rng rc.store _ h

    fill_connection-IsBounded :
        (rng : Rng) (rc : RandomConnections)
        → IsBounded rc.store
        → Keeps (fill_connection env rng rc)
    unfolding fill_connection
    fill_connection-IsBounded rng rc h =
        elim (Bool-cases (leb rc.cfg.fill_connected (add_u32 rc.fill 1))) [
          | inl e ↦ elim (Bool-cases (ltb (total_len rc.store) (nodes_needed env rc.store))) [
            | inl f ↦ rw (e, f) (choose_new-IsBounded rng rc.store 1 h)
            | inr f ↦ rw (e, f) h
          ]
          | inr e ↦ rw e h
        ]

    update-IsBounded :
        (rng : Rng) (rc : RandomConnections) → IsBounded rc.store → Keeps (update env rng rc)
    unfolding update
    update-IsBounded rng rc h = h

    process_message-IsBounded :
        (rng : Rng) (rc : RandomConnections) (msg : RandomIn)
        → IsBounded rc.store
        → IsBounded (process_message env rng rc msg).0.store
    unfolding process_message network_msg
    process_message-IsBounded rng rc (node_list nodes) h =
        new_connection-IsBounded rng _ (new_infos-IsBounded rc.store nodes h)
    process_message-IsBounded rng rc (node_connected node) h = need_drop-IsBounded rng _
    process_message-IsBounded rng rc (node_disconnected node) h =
        new_connection-IsBounded rng _ (disconnect-IsBounded rc.store (node ∷ []) h)
    process_message-IsBounded rng rc (node_failure node) h = need_drop-IsBounded _ _
    process_message-IsBounded rng rc tick h =
        update-IsBounded _ _
          (fill_connection-IsBounded _ _ (churn-IsBounded _ _ (need_drop-IsBounded _ _)))
    process_message-IsBounded rng rc (node_comm_from_network id (for_module msg)) h = h
    process_message-IsBounded rng rc (node_comm_from_network id drop_connection) h =
        new_connection-IsBounded _ _ (disconnect-IsBounded rc.store (id ∷ []) h)
    process_message-IsBounded rng rc (network_mapper_to_network dst msg) h = ground arith

    -- From a bounded state, no sequence of messages leads to more than `2 * nodes_needed` connected
    -- nodes, though the number of nodes that are needed changes with every message. The rounded
    -- logarithm is taken to be monotone, and 2 at two nodes.
    pub process_messages-IsBounded :
        (rng : Rng) (rc : RandomConnections) (msgs : List RandomIn)
        → IsBounded rc.store
        → IsBounded (process_messages env rng rc msgs).0.store
    unfolding process_messages
    process_messages-IsBounded rng rc [] h = h
    process_messages-IsBounded rng rc (msg ∷ msgs) h =
        process_messages-IsBounded (process_message env rng rc msg).2
          (process_message env rng rc msg).0 msgs (process_message-IsBounded rng rc msg h)
