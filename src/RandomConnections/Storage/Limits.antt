-- ===== src/RandomConnections/Storage/Limits.antt =====
-- flmodules/src/random_connections/core.rs: how far `fill_up` fills and `limit_active` cuts.
use fledger.Prelude.{
  ℕ, zero, suc, ◌+◌, ◌-◌, ◌*◌, ◌≤◌, ◌<◌, ◌≡◌, refl, ap, inl, inr, false, not, [], ◌∷◌, ◌++◌, arith,
  ltb, ltb→lt, Bool-cases, length, length-append, length-drop, drop, drop-append, retain,
  retain-append, length-retain-le, contains, count, contains-count,
}
use fledger.Prelude.Sorting.{sort_by, sort_by-IsSorted, length-retain-sort_by, count-retain-sort_by}
use fledger.NodeIds.{NodeId, NodeIds, merge}
use fledger.NodeIds.Laws.{count-merge}
use fledger.RandomConnections.Nodes.{Nodes, get_nodes, newer, remove, oldest_ticks, keep_oldest_n}
use fledger.RandomConnections.Nodes.Ages.{
  expired, unexpired, newer-order, sorted_split, count-oldest_ticks, length-oldest_ticks,
}
use fledger.RandomConnections.Nodes.Removal.{keep_oldest_n_cut, keep_oldest_n_whole}
use fledger.RandomConnections.Storage.{
  Env, RandomStorage, disconnect, total_len, nodes_needed, drop_surplus, limit_active,
}

total_len_lem : (s : RandomStorage) → total_len s ≡ length s.connected + length s.connecting
unfolding total_len
total_len_lem s = refl

pub length-remove-le_length : (ns : Nodes) (ids : NodeIds) → length (remove ns ids) ≤ length ns
unfolding remove
length-remove-le_length ns ids = length-retain-le (λ n. not (contains ids n.id)) ns

merge-empty : (ids : NodeIds) → merge [] ids ≡ ids
unfolding merge
merge-empty [] = refl
merge-empty (x ∷ ids) = ap (◌∷◌ x) (merge-empty ids)

module _ (ticks : ℕ) where
  -- The identifiers hold those of all old nodes of the list.
  abbrev Lists : NodeIds → Nodes → Type 0
  Lists ids ns = (id : NodeId) → count id (get_nodes (retain (expired ticks) ns)) ≤ count id ids

  -- Removing all old nodes leaves at most the young ones.
  length-remove-le :
      (ids : NodeIds) (ns : Nodes)
      → Lists ids ns
      → length (remove ns ids) ≤ length (retain (unexpired ticks) ns)
  unfolding remove
  length-remove-le ids [] h = omega arith
  length-remove-le ids (n ∷ ns) h =
      let rest = length-remove-le ids ns (λ id. ground (arith, h id)) in
      ground (arith, h n.id, contains-count n.id ids)

  length-partition :
      (ns : Nodes)
      → length (retain (unexpired ticks) ns) + length (retain (expired ticks) ns) ≡ length ns
  length-partition [] = refl
  length-partition (n ∷ ns) = ground (arith, length-partition ns)

  none_young : (ns : Nodes) → length (retain (unexpired ticks) (retain (expired ticks) ns)) ≡ 0
  none_young [] = refl
  none_young (n ∷ ns) = ground (arith, none_young ns)

  count-retain-drop-le :
      (n : ℕ) (ns : Nodes) (id : NodeId)
      → count id (get_nodes (retain (expired ticks) (drop n ns)))
        ≤ count id (get_nodes (retain (expired ticks) ns))
  count-retain-drop-le zero ns id = omega arith
  count-retain-drop-le (suc n) [] id = omega arith
  count-retain-drop-le (suc n) (x ∷ ns) id = ground (arith, count-retain-drop-le n ns id)

  module _ (ns : Nodes) where
    abbrev by_age : Nodes
    by_age = sort_by newer ns

    oldest-Lists : Lists (oldest_ticks ns ticks) ns
    oldest-Lists id = omega (arith, count-oldest_ticks ticks ns id)

    -- Dropping young nodes from the front of the rising list.
    length-young-drop :
        (n : ℕ)
        → n ≤ length (retain (unexpired ticks) by_age)
        → length (retain (unexpired ticks) (drop n by_age))
          ≤ length (retain (unexpired ticks) by_age) - n
    length-young-drop n h =
        let young = retain (unexpired ticks) by_age in
        let old = retain (expired ticks) by_age in
        let split : by_age ≡ young ++ old =
          sorted_split ticks by_age (sort_by-IsSorted newer newer-order ns) in
        omega (
          arith,
          ap (λ l. length (retain (unexpired ticks) (drop n l))) split,
          ap (λ l. length (retain (unexpired ticks) l)) (drop-append n young old h),
          ap length (retain-append (unexpired ticks) (drop n young) old),
          length-append (retain (unexpired ticks) (drop n young)) (retain (unexpired ticks) old),
          none_young by_age,
          length-retain-le (unexpired ticks) (drop n young),
          length-drop n young,
        )

    Lists-more : (ids more : NodeIds) → Lists ids ns → Lists (merge ids more) ns
    Lists-more ids more h =
        λ id. ground (arith, h id, count-merge ids more id, contains-count id ids)

    remove_oldest_le :
        (ids : NodeIds)
        → Lists ids ns
        → length (remove ns ids) + length (oldest_ticks ns ticks) ≤ length ns
    remove_oldest_le ids h =
        omega (arith, length-remove-le ids ns h, length-partition ns, length-oldest_ticks ticks ns)

    -- What is left of the oldest n nodes and all the old ones, once the old ones are removed.
    keep_remove_le :
        (max : ℕ) (ids : NodeIds)
        → max + length (oldest_ticks ns ticks) < length ns
        → ((id : NodeId) → count id (oldest_ticks ns ticks) ≤ count id ids)
        → length (remove (keep_oldest_n ns (max + length (oldest_ticks ns ticks))).0 ids) ≤ max
    keep_remove_le max ids h holds =
        let m = max + length (oldest_ticks ns ticks) in
        let k = length ns - m in
        rw (keep_oldest_n_cut ns m h) (
          omega (
            arith,
            length-remove-le ids (drop k by_age) (λ id. omega (
              arith,
              count-retain-drop-le k by_age id,
              count-retain-sort_by newer (λ n. n.id) id (expired ticks) ns,
              oldest-Lists id,
              count-oldest_ticks ticks ns id,
              holds id,
            )),
            length-young-drop k (
                omega (
                  arith,
                  length-retain-sort_by newer (unexpired ticks) ns,
                  length-partition ns,
                  length-oldest_ticks ticks ns,
                )),
            length-retain-sort_by newer (unexpired ticks) ns,
            length-partition ns,
            length-oldest_ticks ticks ns,
          ))

module _ (env : Env) (s : RandomStorage) (churn : ℕ) where
  abbrev dropped_first : NodeIds
  dropped_first = oldest_ticks s.connected churn

  -- The second step, once the old nodes are listed.
  drop_surplus_bound :
      (max : ℕ)
      → let r = drop_surplus env s max dropped_first in length (remove r.0.connected r.1) ≤ max
  unfolding drop_surplus
  drop_surplus_bound max = elim (Bool-cases (ltb max (total_len s - length dropped_first))) [
    | inl e ↦ elim (Bool-cases (ltb (max + length dropped_first) (length s.connected))) [
      | inl f ↦ rw e (
          keep_remove_le churn s.connected max _ (ltb→lt _ _ f) (λ id. ground (
            arith,
            count-merge dropped_first (keep_oldest_n s.connected (max + length dropped_first)).1 id,
            contains-count id dropped_first,
          )))
      | inr f ↦
          let few : length s.connected ≤ max + length dropped_first = ground arith in
          rw (e, keep_oldest_n_whole s.connected (max + length dropped_first) few)
            (omega (
              arith,
              remove_oldest_le churn s.connected (merge dropped_first [])
                  (Lists-more churn s.connected dropped_first [] (oldest-Lists churn s.connected)),
            ))
    ]
    | inr e ↦
        let few : total_len s - length dropped_first ≤ max = ground arith in
        rw e (
          omega (
            arith,
            total_len_lem s,
            remove_oldest_le churn s.connected dropped_first (oldest-Lists churn s.connected),
          ))
  ]

  -- The identifiers that are taken off first are never more than there are connections, so the
  -- subtraction of `limit_active` does not wrap.
  length-dropped_first-le : length dropped_first ≤ total_len s
  length-dropped_first-le = omega (
    arith,
    total_len_lem s,
    length-oldest_ticks churn s.connected,
    length-retain-le (expired churn) s.connected,
  )

  -- After `limit_active` there are at most `2 * nodes_needed` connected nodes, whatever their ages
  -- and however many there were.
  pub limit_active_bound : length (limit_active env s churn).0.connected ≤ nodes_needed env s * 2
  unfolding limit_active disconnect
  limit_active_bound = elim (Bool-cases (ltb (nodes_needed env s * 2) (total_len s))) [
    | inl e ↦ rw (e, merge-empty dropped_first) (drop_surplus_bound (nodes_needed env s * 2))
    | inr e ↦
        let few : total_len s ≤ nodes_needed env s * 2 = ground arith in
        let again : ltb (nodes_needed env s * 2) (total_len s - 0) ≡ false = ground arith in
        rw (e, again) (omega (arith, total_len_lem s, length-remove-le_length s.connected []))
  ]
