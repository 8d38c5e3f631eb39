-- ===== src/RandomConnections/Storage/Filling.antt =====
-- flmodules/src/random_connections/core.rs: how far `fill_up` fills.
use fledger.Prelude.{
  ℕ, ◌+◌, ◌-◌, ◌/◌, ◌≡◌, refl, ap, true, false, not, [], ◌∷◌, arith, ==-refl, length, length-append,
  length-map, retain, min, contains, map,
}
use fledger.NodeIds.{NodeId, NodeIds}
use fledger.RandomConnections.Nodes.{NodeTime, Nodes, get_nodes, add_new, remove}
use fledger.RandomConnections.Storage.{
  Env, ChoosesFrom, RandomStorage, unused, connecting, choose_new, fill_up, nodes_needed, total_len,
}
use fledger.RandomConnections.Storage.Invariant.{IsPartitioned}
use fledger.RandomConnections.Storage.Choice.{choose_new_lem}

-- The list holds none of the identifiers.
abbrev IsFresh : NodeIds → Nodes → Type 0
IsFresh ids ns = (id : NodeId) → contains ids id ≡ true → contains (get_nodes ns) id ≡ false

remove_fresh : (ids : NodeIds) (ns : Nodes) → IsFresh ids ns → remove ns ids ≡ ns
unfolding remove
remove_fresh ids [] h = refl
remove_fresh ids (n ∷ ns) h =
    let ih = remove_fresh ids ns (λ id c. ground (arith, h id c)) in
    ground (arith, ih, h n.id, ==-refl n.id)

retain_fresh :
    (ids : NodeIds) (ns : Nodes)
    → IsFresh ids ns
    → retain (λ n. not (contains (get_nodes ns) n)) ids ≡ ids
retain_fresh [] ns h = refl
retain_fresh (x ∷ ids) ns h =
    let ih = retain_fresh ids ns (λ id c. h id (ground arith)) in ground (arith, ih, h x, ==-refl x)

length-add_new_fresh :
    (ids : NodeIds) (ns : Nodes) → IsFresh ids ns → length (add_new ns ids) ≡ length ns + length ids
unfolding add_new
length-add_new_fresh ids ns h = omega (
  arith,
  length-append ns (
      map (λ (n : NodeId). record { id = n; ticks = 0 })
        (retain (λ n. not (contains (get_nodes ns) n)) ids)),
  length-map {B = NodeTime} (λ n. record { id = n; ticks = 0 })
      (retain (λ n. not (contains (get_nodes ns) n)) ids),
  ap length (retain_fresh ids ns h),
)

module _ (env : Env) (chooses : ChoosesFrom env) (rng : env.Rng) (s : RandomStorage)
    (v : IsPartitioned s) where
  -- Each chosen node is one connection more.
  total_len-choose_new :
      (n : ℕ)
      → total_len (choose_new env rng s n).0 ≡ total_len s + length (choose_new env rng s n).1
  unfolding choose_new connecting total_len
  total_len-choose_new n =
      let ids = (choose_new env rng s n).1 in
      let spec = choose_new_lem env chooses rng s v n in
      omega (
        arith,
        ap length (remove_fresh ids s.connected (λ id h. (spec.1 id h).1)),
        length-add_new_fresh ids s.connecting (λ id h. (spec.1 id h).2),
      )

  -- In a state whose lists are distinct, known and apart, `fill_up` brings the number of
  -- connections to half of the nodes that are needed, rounded up, or as near to it as the unused
  -- nodes allow.
  total_len-fill_up :
      total_len (fill_up env rng s).0
      ≡ total_len s + min ((nodes_needed env s + 1) / 2 - total_len s) (length (unused s))
  unfolding fill_up
  total_len-fill_up =
      let n = (nodes_needed env s + 1) / 2 - total_len s in
      omega (arith, total_len-choose_new n, (choose_new_lem env chooses rng s v n).0)
