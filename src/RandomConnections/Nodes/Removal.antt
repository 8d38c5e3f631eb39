-- ===== src/RandomConnections/Nodes/Removal.antt =====
-- flmodules/src/random_connections/nodes.rs: cutting a list down by age.
use mathlib.Core.List.{map-append}
use fledger.Prelude.{
  ℕ, ◌+◌, ◌-◌, ◌≤◌, ◌<◌, true, ◌≡◌, refl, ap, inl, inr, Bool, false, not, List, [], ◌∷◌, arith,
  ==_iff, ltb, Bool-cases, length, length-drop, take, drop, take-append-drop, All, count,
  count-map-append, min, contains, ◌&&◌, ◌++◌, map, retain, contains-retain, contains-append,
  IsDistinct, count-append, count-retain, contains-count, count-map-retain-le, ◌||◌, ◌∙◌,
}
use fledger.Prelude.Sorting.{
  sort_by, StrictOrder, sort_by-IsSorted, cut-IsSorted, count-sort_by, length-sort_by,
}
use fledger.NodeIds.{NodeId, NodeIds}
use fledger.RandomConnections.Nodes.{
  NodeTime, Nodes, get_nodes, older, newer, remove_oldest_n, remove_newest_n, keep_newest_n,
  keep_oldest_n, remove, add_new,
}
use fledger.RandomConnections.Nodes.Ages.{newer-order, older-order}

-- What it means that a list is cut down to its n last nodes by `less`: the size, that every
-- identifier is kept or returned as often as it was there, and the order of the two parts.
pub record IsCut (less : NodeTime → NodeTime → Bool) (ns : Nodes) (n : ℕ) (kept : Nodes)
    (removed : NodeIds) : Type 0 where
  pub size : length kept ≡ min n (length ns)
  pub total : (id : NodeId) → count id (get_nodes kept) + count id removed ≡ count id (get_nodes ns)
  pub victims : Nodes
  pub removed_victims : removed ≡ get_nodes victims
  pub in_order : All (λ r. All (λ k. less k r ≡ false) kept) victims

module _ (less : NodeTime → NodeTime → Bool) (o : StrictOrder less) where
  sort-IsCut :
      (ns : Nodes) (n : ℕ)
      → n ≤ length ns
      → let s = sort_by less ns in
        let k = min (length ns - n) (length s) in IsCut less ns n (drop k s) (get_nodes (take k s))
  sort-IsCut ns n h =
      let s = sort_by less ns in
      let k = min (length ns - n) (length s) in
      record {
        size = omega (arith, length-drop k s, length-sort_by less ns);
        total = λ id. omega (
          arith,
          count-map-append (λ (n : NodeTime). n.id) id (take k s) (drop k s),
          ap (λ l. count id (get_nodes l)) (take-append-drop k s),
          count-sort_by less (λ n. n.id) id ns,
        );
        victims = take k s;
        removed_victims = refl;
        in_order = cut-IsSorted less k s (sort_by-IsSorted less o ns);
      }

  whole-IsCut : (ns : Nodes) (n : ℕ) → length ns ≤ n → IsCut less ns n ns []
  whole-IsCut ns n h = record {
    size = omega arith;
    total = λ id. omega arith;
    victims = [];
    removed_victims = refl;
    in_order = tt;
  }

-- `keep_oldest_n` cuts the list down to its n oldest nodes and returns the others.
pub keep_oldest_n-IsCut :
    (ns : Nodes) (n : ℕ) → IsCut newer ns n (keep_oldest_n ns n).0 (keep_oldest_n ns n).1
unfolding keep_oldest_n remove_newest_n
keep_oldest_n-IsCut ns n = elim (Bool-cases (ltb n (length ns))) [
  | inl e ↦ rw e (sort-IsCut newer newer-order ns n (ground arith))
  | inr e ↦ rw e (whole-IsCut newer newer-order ns n (ground arith))
]

-- `keep_newest_n` cuts the list down to its n newest nodes and returns the others.
keep_newest_n-IsCut :
    (ns : Nodes) (n : ℕ) → IsCut older ns n (keep_newest_n ns n).0 (keep_newest_n ns n).1
unfolding keep_newest_n remove_oldest_n
keep_newest_n-IsCut ns n = elim (Bool-cases (ltb n (length ns))) [
  | inl e ↦ rw e (sort-IsCut older older-order ns n (ground arith))
  | inr e ↦ rw e (whole-IsCut older older-order ns n (ground arith))
]

-- `remove` leaves no node of the argument.
pub contains-remove :
    (ns : Nodes) (nodes : NodeIds) (id : NodeId)
    → contains (get_nodes (remove ns nodes)) id
      ≡ (contains (get_nodes ns) id && not (contains nodes id))
unfolding remove
contains-remove [] nodes id = refl
contains-remove (n ∷ ns) nodes id = ground (arith, contains-remove ns nodes id, ==_iff n.id id)

module _ (ns : Nodes) (nodes : List NodeId) where
  get_nodes-add_new :
      get_nodes (add_new ns nodes)
      ≡ get_nodes ns ++ retain (λ n. not (contains (get_nodes ns) n)) nodes
  unfolding add_new
  get_nodes-add_new =
      map-append (λ (n : NodeTime). n.id) ns _
      ∙ ap (λ l. get_nodes ns ++ l)
          (ids-fresh (retain (λ n. not (contains (get_nodes ns) n)) nodes))
    where
      ids-fresh : (l : List NodeId) → get_nodes (map (λ n. record { id = n; ticks = 0 }) l) ≡ l
      ids-fresh [] = refl
      ids-fresh (x ∷ l) = ap (◌∷◌ x) (ids-fresh l)

  -- `add_new` adds what is not there yet.
  pub contains-add_new :
      (id : NodeId)
      → contains (get_nodes (add_new ns nodes)) id
        ≡ (contains (get_nodes ns) id || contains nodes id)
  contains-add_new id = rw get_nodes-add_new (
      ground (
        arith,
        contains-append (get_nodes ns) (retain (λ n. not (contains (get_nodes ns) n)) nodes) id,
        contains-retain (λ n. not (contains (get_nodes ns) n)) nodes id,
      ))

  pub add_new-IsDistinct :
      IsDistinct (get_nodes ns) → IsDistinct nodes → IsDistinct (get_nodes (add_new ns nodes))
  add_new-IsDistinct d e = λ id. rw get_nodes-add_new (
      ground (
        arith,
        count-append id (get_nodes ns) (retain (λ n. not (contains (get_nodes ns) n)) nodes),
        count-retain id (λ n. not (contains (get_nodes ns) n)) nodes,
        contains-count id (get_nodes ns),
        d id,
        e id,
      ))

pub remove-IsDistinct :
    (ns : Nodes) (nodes : NodeIds)
    → IsDistinct (get_nodes ns)
    → IsDistinct (get_nodes (remove ns nodes))
unfolding remove
remove-IsDistinct ns nodes d = λ id. omega (
  arith,
  d id,
  count-map-retain-le (λ (n : NodeTime). n.id) id (λ n. not (contains nodes n.id)) ns,
)

pub keep_oldest_n_cut :
    (ns : Nodes) (n : ℕ)
    → n < length ns
    → (keep_oldest_n ns n).0 ≡ drop (length ns - n) (sort_by newer ns)
unfolding keep_oldest_n remove_newest_n
keep_oldest_n_cut ns n h =
    let test : ltb n (length ns) ≡ true = ground arith in
    rw test (ap (λ k. drop k (sort_by newer ns)) (omega (arith, length-sort_by newer ns)))

pub keep_oldest_n_whole : (ns : Nodes) (n : ℕ) → length ns ≤ n → keep_oldest_n ns n ≡ (ns, [])
unfolding keep_oldest_n
keep_oldest_n_whole ns n h = let test : ltb n (length ns) ≡ false = ground arith in rw test
