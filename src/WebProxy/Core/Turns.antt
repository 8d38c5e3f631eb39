-- ===== src/WebProxy/Core/Turns.antt =====
-- flmodules/src/web_proxy/core.rs: the nodes take turns.
use fledger.Prelude.{
  ℕ, zero, suc, ◌+◌, ◌%◌, ◌≡◌, refl, ap, ◌∙◌, List, [], ◌∷◌, arith, length, get_elem?,
}
use native.Mathlib.Nat.{mod-add-mod}
use fledger.NodeIds.{NodeId}
use fledger.WebProxy.Core.{WebProxyCore, take_turn, get_node}

-- The state after a number of calls of `get_node`.
unfoldable pub after_turns : ℕ → WebProxyCore → WebProxyCore
unfolding get_node
after_turns zero c = c
after_turns (suc n) c = (get_node (after_turns n c)).0

add_one : (m : ℕ) → suc m ≡ m + 1
add_one m = omega arith

regroup : (m k : ℕ) → m + k + 1 ≡ m + suc k
regroup m k = omega arith

take_turn-nodes : (ids : List NodeId) (c : WebProxyCore) → (take_turn ids c).0.nodes ≡ c.nodes
unfolding take_turn
take_turn-nodes [] c = refl
take_turn-nodes (n ∷ ns) c = refl

module _ (c : WebProxyCore) where
  after_turns-nodes : (k : ℕ) → (after_turns k c).nodes ≡ c.nodes
  unfolding after_turns get_node
  after_turns-nodes zero = refl
  after_turns-nodes (suc k) =
      take_turn-nodes (after_turns k c).nodes (after_turns k c) ∙ after_turns-nodes k

module _ (c : WebProxyCore) (n : NodeId) (ns : List NodeId) (has : c.nodes ≡ n ∷ ns) where
  turn :
      (k : ℕ)
      → get_node (after_turns k c) ≡ (
        record (after_turns k c) {
          node_index = suc ((after_turns k c).node_index % length (n ∷ ns));
        },
        get_elem? (n ∷ ns) ((after_turns k c).node_index % length (n ∷ ns)),
      )
  unfolding get_node take_turn
  turn k = ap (λ ids. take_turn ids (after_turns k c)) (after_turns-nodes c k ∙ has)

  after_turns-node_index :
      (k : ℕ)
      → (after_turns k c).node_index % length (n ∷ ns) ≡ (c.node_index + k) % length (n ∷ ns)
  unfolding after_turns
  after_turns-node_index zero = ap (λ i. i % length (n ∷ ns)) (omega arith)
  after_turns-node_index (suc k) =
      let l : ℕ = length (n ∷ ns) in
      let i : ℕ = (after_turns k c).node_index in
      ap (λ r. r.0.node_index % l) (turn k)
      ∙ ap (λ m. suc m % l) (after_turns-node_index k)
      ∙ ap (λ x. x % l) (add_one ((c.node_index + k) % l))
      ∙ mod-add-mod (c.node_index + k) l 1
      ∙ ap (λ x. x % l) (regroup c.node_index k)

  -- The nodes take turns: the k-th call of `get_node`, counted from zero, gives the node that stands
  -- k places after the first one that was next, around the list, as long as the list stays.
  pub get_node_takes_turns :
      (k : ℕ)
      → (get_node (after_turns k c)).1 ≡ get_elem? (n ∷ ns) ((c.node_index + k) % length (n ∷ ns))
  get_node_takes_turns k =
      ap (λ r. r.1) (turn k) ∙ ap (get_elem? (n ∷ ns)) (after_turns-node_index k)
