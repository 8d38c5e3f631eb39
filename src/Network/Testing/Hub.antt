-- ===== src/Network/Testing/Hub.antt =====
-- flmodules/src/network/testing.rs: what the simulated nodes send to one another arrives.
use fledger.Prelude.{
  String, Option, none, some, List, [], ◌∷◌, ◌≡◌, refl, arith, inl, inr, ◌==◌, if◌then◌else◌,
  Bool-cases, filter_map,
}
use fledger.NodeIds.{U256}
use fledger.Network.Broker.{NetworkMessage, input, output, message_to_node, message_from_node}
use fledger.Network.Testing.{NsHubMessage, NsHub, nsh_net, net_nsh, messages}

-- The sender, the receiver and the text of a message.
abbrev pub Sent : Type 0
Sent = U256 × U256 × String

abbrev pub sent : Sent → Option NsHubMessage
sent s = net_nsh s.0 (input (message_to_node s.1 s.2))

abbrev pub addressed : U256 → Sent → Option NetworkMessage
addressed our_id s = if s.1 == our_id then some (output (message_from_node s.0 s.2)) else none

-- Texts that nodes send in one batch: each node gets those that are for it, in order, with their
-- senders, and no others.
pub hub_delivers :
    (hub : NsHub) (our_id : U256) (sends : List Sent)
    → filter_map (nsh_net our_id) (messages hub (filter_map sent sends)).1
      ≡ filter_map (addressed our_id) sends
unfolding messages nsh_net net_nsh
hub_delivers hub our_id [] = refl
hub_delivers hub our_id (s ∷ sends) = elim (Bool-cases (s.1 == our_id)) [
  | inl e ↦ ground (arith, e, hub_delivers hub our_id sends)
  | inr e ↦ ground (arith, e, hub_delivers hub our_id sends)
]
