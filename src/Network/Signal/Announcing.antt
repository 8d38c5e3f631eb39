-- ===== src/Network/Signal/Announcing.antt =====
-- flmodules/src/network/signal.rs: who can register under an identifier, and what a removal leaves.
use fledger.Prelude.{
  ℕ, ◌≡◌, ◌≢◌, refl, ap, ◌∙◌, subst, true, false, Option, none, some, List, [], ◌∷◌, arith, ◌==◌,
  ==_iff, ==-refl, Option-cases, Bool-cases, inl, inr, ◌⊎◌, length,
}
use fledger.Prelude.Maps.{get, insert, get-insert, get-remove}
use fledger.NodeIds.{U256, to_bytes}
use fledger.NodeInfo.{NodeInfo, get_id, id_of, verify, Ed25519}
use fledger.Network.Messages.{MessageAnnounce}
use fledger.Network.Signal.{
  Env, BiMapLaws, SignalServer, SignalMessage, output, new_node, remove_node, ws_announce, Handled,
}

module _ (env : Env) where
  -- What a successful announcement leaves behind: the connection had an identifier, the announced key
  -- signed its bytes, the connection now has the node's identifier, the node is listed under it,
  -- and the other entries of the list are as before.
  pub record Registers (s : SignalServer env) (index : ℕ) (msg : MessageAnnounce)
      (s' : SignalServer env) (out : List SignalMessage) : Type 0 where
    pub previous : U256
    pub had_previous : env.get_by_right s.connection_ids index ≡ some previous
    pub signed : verify env.ed25519 msg.node_info (to_bytes previous) msg.signature ≡ some true
    pub registered : env.get_by_right s'.connection_ids index ≡ some (id_of msg.node_info)
    pub listed : get (id_of msg.node_info) s'.info ≡ some msg.node_info
    pub others : (id : U256) → id_of msg.node_info ≢ id → get id s'.info ≡ get id s.info
    pub reported : out ≡ output (new_node (id_of msg.node_info)) ∷ []

  get_id_cases : (ni : NodeInfo) → (get_id ni ≡ none) ⊎ (get_id ni ≡ some (id_of ni))
  unfolding get_id
  get_id_cases ni = elim (Bool-cases (length ni.pubkey == 32)) [
    | inl e ↦ inr (rw e refl)
    | inr e ↦ inl (rw e refl)
  ]

  module _ (laws : BiMapLaws env) where
    pub registers :
        (s : SignalServer env) (index : ℕ) (msg : MessageAnnounce) (previous : U256)
        → env.get_by_right s.connection_ids index ≡ some previous
        → verify env.ed25519 msg.node_info (to_bytes previous) msg.signature ≡ some true
        → Registers s index msg
            (record s {
              connection_ids = env.insert_pair s.connection_ids (id_of msg.node_info) index;
              info = insert (id_of msg.node_info) msg.node_info s.info;
            })
            (output (new_node (id_of msg.node_info)) ∷ [])
    registers s index msg previous had signed =
        let id = id_of msg.node_info in
        record {
          previous = previous;
          had_previous = had;
          signed = signed;
          registered =
              ground (arith, laws.right_insert s.connection_ids id index index, ==-refl index);
          listed = ground (arith, get-insert id id msg.node_info s.info, ==-refl id);
          others =
              λ other h. ground (arith, get-insert id other msg.node_info s.info, ==_iff id other);
          reported = refl;
        }

    abbrev Outcome : SignalServer env → ℕ → MessageAnnounce → Option (Handled env) → Type 0
    Outcome s index msg none = Unit
    Outcome s index msg (some h) = ((h.0 ≡ s) × (h.1 ≡ [])) ⊎ Registers s index msg h.0 h.1

    outcome :
        (s : SignalServer env) (index : ℕ) (msg : MessageAnnounce)
        → Outcome s index msg (ws_announce env s index msg)
    unfolding ws_announce
    outcome s index msg = elim (Option-cases (env.get_by_right s.connection_ids index)) [
      | inl unknown ↦ rw (unknown, ws_announce) (inl (refl, refl))
      | inr (previous, had) ↦
          elim (Option-cases (verify env.ed25519 msg.node_info (to_bytes previous) msg.signature)) [
            | inl unreadable ↦ rw (had, ws_announce, unreadable) tt
            | inr (false, wrong) ↦ rw (had, ws_announce, wrong) (inl (refl, refl))
            | inr (true, right) ↦ elim (get_id_cases msg.node_info) [
              | inl short ↦ rw (had, ws_announce, right, short) tt
              | inr named ↦
                  rw (had, ws_announce, right, named)
                    (inr (registers s index msg previous had right))
            ]
          ]
    ]

    -- An announcement that does not panic either changes nothing and is not answered, or registers
    -- the node under the identifier of its own key, having checked that this key signed the bytes
    -- of the identifier that the connection had before.
    pub ws_announce_lem :
        (s s' : SignalServer env) (index : ℕ) (msg : MessageAnnounce) (out : List SignalMessage)
        → ws_announce env s index msg ≡ some (s', out)
        → ((s' ≡ s) × (out ≡ [])) ⊎ Registers s index msg s' out
    ws_announce_lem s s' index msg out h = subst (Outcome s index msg) h (outcome s index msg)

-- The crate reads a key of 32 bytes only.
pub record ReadsKeys (ed : Ed25519) : Type 1 where
  pub key_length : (bytes : List ℕ) → length bytes ≢ 32 → ed.public_key_from_slice bytes ≡ none

-- Any connected node can stop the server: an announcement with a key that has not 32 bytes makes it
-- panic, whatever the signature.
pub ws_announce_panics :
    (env : Env) (s : SignalServer env) (index : ℕ) (msg : MessageAnnounce) (id : U256)
    → ReadsKeys env.ed25519
    → env.get_by_right s.connection_ids index ≡ some id
    → length msg.node_info.pubkey ≢ 32
    → ws_announce env s index msg ≡ none
unfolding ws_announce verify
ws_announce_panics env s index msg id reads connected wrong =
    rw (connected, ws_announce, verify, reads.key_length msg.node_info.pubkey wrong) refl

module _ (env : Env) (laws : BiMapLaws env) where
  -- The connection that is removed has no identifier and no time left, its node is no longer listed,
  -- and the other connections and nodes are as before.
  remove_node_lem :
      (s : SignalServer env) (index : ℕ)
      → let s' = remove_node env s index in
        (env.get_by_right s'.connection_ids index ≡ none)
        × (get index s'.ttl ≡ none)
        × ((id : U256) → env.get_by_right s.connection_ids index ≡ some id → get id s'.info ≡ none)
        × ((k : ℕ)
            → index ≢ k
            → (env.get_by_right s'.connection_ids k ≡ env.get_by_right s.connection_ids k)
              × (get k s'.ttl ≡ get k s.ttl))
        × ((id : U256)
            → env.get_by_right s.connection_ids index ≢ some id
            → get id s'.info ≡ get id s.info)
  unfolding remove_node
  remove_node_lem s index = (
    ground (arith, laws.right_remove s.connection_ids index index, ==-refl index),
    ground (arith, get-remove index index s.ttl, ==-refl index),
    λ id had. rw had (ground (arith, get-remove id id s.info, ==-refl id)),
    λ k other. (
      ground (arith, laws.right_remove s.connection_ids index k, ==_iff index k),
      ground (arith, get-remove index k s.ttl, ==_iff index k),
    ),
    λ id other. elim (Option-cases (env.get_by_right s.connection_ids index)) [
      | inl unknown ↦ rw unknown refl
      | inr (own, had) ↦
          let differ : own ≢ id = λ e. other (had ∙ ap some e) in
          rw had (ground (arith, get-remove own id s.info, ==_iff own id))
    ],
  )
