-- ===== src/Network/Signal/Routing.antt =====
-- flmodules/src/network/signal.rs: where the messages of a connection's setup go.
use fledger.Prelude.{
  ℕ, ◌≡◌, refl, ◌⊎◌, inl, inr, some, List, [], ◌==◌, ==_iff, Bool-cases, Option-cases, arith,
}
use fledger.NodeIds.{U256, NodeId}
use fledger.WebRtc.Messages.{PeerInfo, get_remote}
use fledger.Network.Messages.{peer_setup}
use fledger.Network.Signal.{Env, SignalServer, SignalMessage, send_msg_node, ws_peer_setup}

-- The two identifiers are those of the two nodes that the message is about.
abbrev IsPair : PeerInfo → NodeId → NodeId → Type 0
IsPair pi a b = ((pi.id_init ≡ a) × (pi.id_follow ≡ b)) ⊎ ((pi.id_follow ≡ a) × (pi.id_init ≡ b))

get_remote-IsPair :
    (pi : PeerInfo) (local dst : NodeId) → get_remote pi local ≡ some dst → IsPair pi local dst
get_remote-IsPair pi local dst h = elim (Bool-cases (pi.id_init == local)) [
  | inl initiator ↦ inl (ground (arith, ==_iff pi.id_init local))
  | inr no_initiator ↦ inr (ground (arith, ==_iff pi.id_follow local))
]

-- How a message for a setup is passed on: from the connection of one of its two nodes to the connection
-- that is registered for the other one.
pub record Passes (env : Env) (s : SignalServer env) (index : ℕ) (pi : PeerInfo)
    (out : List SignalMessage) : Type 0 where
  pub sender : U256
  pub receiver : U256
  pub dst_index : ℕ
  pub from_sender : env.get_by_right s.connection_ids index ≡ some sender
  pub to_receiver : env.get_by_left s.connection_ids receiver ≡ some dst_index
  pub pair : IsPair pi sender receiver
  pub passed_on : out ≡ send_msg_node env dst_index (peer_setup pi)

module _ (env : Env) where
  -- A message for a setup changes nothing in the server. It is dropped, or passed on unchanged from the
  -- connection of one of its two nodes to the connection of the other one.
  pub ws_peer_setup_lem :
      (s : SignalServer env) (index : ℕ) (pi : PeerInfo)
      → let (s', out) = ws_peer_setup env s index pi in
        (s' ≡ s) × ((out ≡ []) ⊎ Passes env s index pi out)
  unfolding ws_peer_setup
  ws_peer_setup_lem s index pi = elim (Option-cases (env.get_by_right s.connection_ids index)) [
    | inl unknown ↦ rw (unknown, ws_peer_setup) (refl, inl refl)
    | inr (id, had) ↦ elim (Option-cases (get_remote pi id)) [
      | inl stranger ↦ rw (had, ws_peer_setup, stranger) (refl, inl refl)
      | inr (dst, remote) ↦ elim (Option-cases (env.get_by_left s.connection_ids dst)) [
        | inl away ↦ rw (had, ws_peer_setup, remote, away) (refl, inl refl)
        | inr (dst_index, there) ↦
            rw (had, ws_peer_setup, remote, there)
              (
                refl,
                inr (record {
                  sender = id;
                  receiver = dst;
                  dst_index = dst_index;
                  from_sender = had;
                  to_receiver = there;
                  pair = get_remote-IsPair pi id dst remote;
                  passed_on = refl;
                }),
              )
      ]
    ]
  ]
