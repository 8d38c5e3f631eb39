-- ===== src/Template/Counting.antt =====
-- flmodules/src/template: what the counter counts.
use fledger.Prelude.{ℕ, List, [], ◌∷◌, ◌≡◌, ◌<◌, ◌∙◌, ◌+◌, ◌*◌, ◌%◌, ◌^◌, arith, add_u32}
use fledger.NodeIds.{remove_missing}
use fledger.Template.{
  TemplateIn, from_network, update_node_list, increase_by, counter_is, TemplateMessages, increase,
  process_node_message, process_message, process_messages,
}

-- What the messages of a batch add.
abbrev added : ℕ → List TemplateIn → ℕ
added m [] = 0
added m (from_network src (increase_by c) ∷ msgs) = c * m + added m msgs
added m (from_network src (counter_is c) ∷ msgs) = added m msgs
added m (update_node_list ids ∷ msgs) = added m msgs

add_wraps : (c x t : ℕ) → (add_u32 c (x % 2 ^ 32) + t) % 2 ^ 32 ≡ (c + (x + t)) % 2 ^ 32
add_wraps c x t = omega arith

below : (c x : ℕ) → add_u32 c (x % 2 ^ 32) < 2 ^ 32
below c x = omega arith

-- The counter after a batch is what it was and what the nodes' increases add, each times the
-- multiplier, modulo 2 ^ 32: the wrap-around of every single step loses nothing more.
counter_sums :
    (t : TemplateMessages) (msgs : List TemplateIn)
    → t.core.storage.counter < 2 ^ 32
    → (process_messages t msgs).0.core.storage.counter
      ≡ (t.core.storage.counter + added t.core.config.multiplier msgs) % 2 ^ 32
unfolding process_messages process_message process_node_message increase
counter_sums t [] h = omega (arith, h)
counter_sums t (from_network src (increase_by c) ∷ msgs) h =
    let m = t.core.config.multiplier in
    counter_sums (record t { core = increase c t.core }) msgs (below t.core.storage.counter (c * m))
    ∙ add_wraps t.core.storage.counter (c * m) (added m msgs)
counter_sums t (from_network src (counter_is c) ∷ msgs) h = counter_sums t msgs h
counter_sums t (update_node_list ids ∷ msgs) h =
    counter_sums (record t { nodes = (remove_missing ids (t.our_id ∷ [])).1 }) msgs h
