-- ===== src/RandomConnections/Nodes.antt =====
-- flmodules/src/random_connections/nodes.rs: the nodes of one list with the ticks since they joined.
pub mod Removal
pub mod Ages
use fledger.Prelude.{
  ℕ, ◌+◌, ◌-◌, Bool, false, not, List, [], ◌∷◌, ◌++◌, map, reverse, ltb, leb, if◌then◌else◌,
  add_u32, length, take, drop, take_while, retain, min,
}
use fledger.Prelude.{contains as has}
use fledger.Prelude.Sorting.{sort_by}
use fledger.NodeIds.{NodeId, NodeIds}
use fledger.NodeIds

pub record NodeTime : Type 0 where
  pub id : NodeId
  pub ticks : ℕ

abbrev pub Nodes : Type 0
Nodes = List NodeTime

abbrev pub new : Nodes
new = []

abbrev pub get_nodes : Nodes → NodeIds
get_nodes = map (λ n. n.id)

-- A method that changes the list returns the new list first.
pub remove_missing : Nodes → NodeIds → Nodes × NodeIds
remove_missing ns nodes =
    let removed = (NodeIds.remove_missing (get_nodes ns) nodes).1 in
    (retain (λ nt. not (has removed nt.id)) ns, removed)

unfoldable pub remove : Nodes → NodeIds → Nodes
remove ns nodes = retain (λ nt. not (has nodes nt.id)) ns

unfoldable pub contains : Nodes → NodeId → Bool
contains ns node = has (get_nodes ns) node

unfoldable pub add_new : Nodes → List NodeId → Nodes
unfolding contains
add_new ns nodes =
    let nodes_new = retain (λ n. not (contains ns n)) nodes in
    ns ++ map (λ n. record { id = n; ticks = 0 }) nodes_new

abbrev pub older : NodeTime → NodeTime → Bool
older a b = ltb b.ticks a.ticks

abbrev pub newer : NodeTime → NodeTime → Bool
newer a b = ltb a.ticks b.ticks

-- `splice(..n, vec![])` on the sorted list: the first n leave it and are returned.
pub remove_oldest_n : Nodes → ℕ → Nodes × NodeIds
remove_oldest_n ns n =
    let by_age = sort_by older ns in
    let n' = min n (length by_age) in (drop n' by_age, get_nodes (take n' by_age))

pub remove_newest_n : Nodes → ℕ → Nodes × NodeIds
remove_newest_n ns n =
    let by_age = sort_by newer ns in
    let n' = min n (length by_age) in (drop n' by_age, get_nodes (take n' by_age))

pub keep_newest_n : Nodes → ℕ → Nodes × NodeIds
keep_newest_n ns n =
    if ltb n (length ns) then remove_oldest_n ns (length ns - n) else (ns, NodeIds.empty)

pub keep_oldest_n : Nodes → ℕ → Nodes × NodeIds
keep_oldest_n ns n =
    if ltb n (length ns) then remove_newest_n ns (length ns - n) else (ns, NodeIds.empty)

sorted : Nodes → Bool → Nodes
sorted ns rising = let s = sort_by newer ns in if rising then s else reverse s

pub oldest_ticks : Nodes → ℕ → NodeIds
unfolding sorted
oldest_ticks ns ticks = get_nodes (take_while (λ n. leb ticks n.ticks) (sorted ns false))

-- The `fold`, with the counter as accumulator.
count_from : ℕ → ℕ → Nodes → ℕ
count_from ticks a [] = a
count_from ticks a (n ∷ ns) = count_from ticks (if leb ticks n.ticks then a + 1 else a) ns

pub count_expired : Nodes → ℕ → ℕ
unfolding count_from
count_expired ns ticks = count_from ticks 0 ns

pub remove_oldest_ticks : Nodes → ℕ → Nodes × NodeIds
unfolding oldest_ticks
remove_oldest_ticks ns ticks = let nodes = oldest_ticks ns ticks in (drop (length nodes) ns, nodes)

unfoldable pub tick : Nodes → Nodes
tick = map (λ (n : NodeTime). record n { ticks = add_u32 n.ticks 1 })
