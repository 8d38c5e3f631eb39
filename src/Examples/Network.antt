-- ===== src/Examples/Network.antt =====
-- flmodules/src/network with maps that are functions, and keys that sign everything.
use fledger.Prelude.{
  filter_map, ℕ, suc, ◌+◌, ◌≡◌, refl, ◌⊎◌, true, Option, none, some, List, [], ◌∷◌, arith, ◌==◌,
  ==_iff, if◌then◌else◌, length, IsDistinct,
}
use fledger.Prelude.Maps.{keys, get}
use fledger.NodeIds.{U256, from_bytes}
use fledger.NodeInfo.{Ed25519, verify, get_id, id_of}
use fledger.Network.Messages.{peer_setup, MessageAnnounce}
use fledger.WebRtc.Messages.{outgoing, init, PeerInfo}
use fledger.WebRtc.NodeConnection.{text, setup}
use fledger.WebRtc.NodeConnection
use fledger.WebRtc.Connections
use fledger.Network.Signal
use fledger.Network.Signal.{
  BiMapLaws, SignalServer, SignalMessage, output, new_node, remove_node, ws_announce, ws_peer_setup,
  send_msg_node,
}
use fledger.Network.Signal.Routing.{Passes, ws_peer_setup_lem}
use fledger.Network.Signal.Timer.{timers, idle_connection}
use fledger.Network.Signal.Announcing.{Registers, ReadsKeys, ws_announce_lem, ws_announce_panics}
use fledger.Network.Broker
use fledger.Network.Broker.{
  NetworkBroker, NetworkMessage, input, message_to_node, disconnect_from, tick, to_ws, message,
  msg_call, ensure_connected, to_web_rtc, connect, disconnect, messages,
}
use fledger.Network.Broker.Requests.{InOrder, Covers, asked_for_all, requests_first}
use fledger.Network.Delivery.{inputs_delivered}
use fledger.Network.Broker.Updates.{repeat}

-- Two functions, one for each side.
abbrev Pairs : Type 0
Pairs = (U256 → Option ℕ) × (ℕ → Option U256)

abbrev unless : Option ℕ → ℕ → Option ℕ
unless none x = none
unless (some y) x = if y == x then none else some y

abbrev pub trusting : Ed25519
trusting = record {
  PublicKey = List ℕ;
  Signature = List ℕ;
  public_key_from_slice = λ bytes. if length bytes == 32 then some bytes else none;
  signature_from_slice = λ bytes. some bytes;
  verify_signature = λ key msg sig. true;
}

abbrev pub server_env : Signal.Env
server_env = record {
  BiMap = Pairs;
  empty = (λ l. none, λ r. none);
  insert_pair = λ m l r. (
    λ k. if l == k then some r else unless (m.0 k) r,
    λ k.
        if r == k
        then some l
        else elim (m.1 k) [ none ↦ none | some l' ↦ if l' == l then none else some l' ],
  );
  get_by_left = λ m l. m.0 l;
  get_by_right = λ m r. m.1 r;
  remove_by_right = λ m r. (λ l. unless (m.0 l) r, λ k. if r == k then none else m.1 k);
  Rng = ℕ;
  rnd = λ n. (n, suc n);
  from_str = λ text. none;
  to_string = λ msg. "message";
  ed25519 = trusting;
}

pub server_env-BiMapLaws : BiMapLaws server_env
server_env-BiMapLaws = record {
  right_empty = λ r. refl;
  right_insert = λ m l r k. refl;
  right_remove = λ m r k. refl;
}

trusting-ReadsKeys : ReadsKeys trusting
trusting-ReadsKeys = record { key_length = λ bytes h. ground (arith, ==_iff (length bytes) 32) }

-- Connection 7 has its challenge, 40, and three minutes left.
abbrev waiting : SignalServer server_env
waiting = record {
  connection_ids = server_env.insert_pair server_env.empty 40 7;
  info = [];
  ttl = (7, 3) ∷ [];
  ttl_minutes = 4;
}

waiting-IsDistinct : IsDistinct (keys waiting.ttl)
waiting-IsDistinct = λ y. ground arith

idle_connection_example :
    ((n left : ℕ)
      → n + suc left ≡ 3
      → (get 7 (timers server_env server_env-BiMapLaws n waiting).ttl ≡ some (suc left))
        × (server_env.get_by_right
              (timers server_env server_env-BiMapLaws n waiting).connection_ids
              7
            ≡ some 40))
    × (get 7 (timers server_env server_env-BiMapLaws 3 waiting).ttl ≡ none)
    × (server_env.get_by_right (timers server_env server_env-BiMapLaws 3 waiting).connection_ids 7
        ≡ none)
idle_connection_example =
    idle_connection server_env server_env-BiMapLaws 7 3 waiting waiting-IsDistinct (omega arith)
      (omega arith) refl

abbrev pub announcement : List ℕ → MessageAnnounce
announcement pubkey = record {
  version = 3;
  challenge = 40;
  node_info = record { name = "node"; client = "test"; pubkey = pubkey; modules = 0 };
  signature = [];
}

abbrev announced : SignalServer server_env
announced = record waiting {
  connection_ids = server_env.insert_pair waiting.connection_ids (from_bytes (repeat 32 0)) 7;
  info = (from_bytes (repeat 32 0), (announcement (repeat 32 0)).node_info) ∷ [];
}

announced_run :
    ws_announce server_env waiting 7 (announcement (repeat 32 0))
    ≡ some (announced, output (new_node (from_bytes (repeat 32 0))) ∷ [])
unfolding ws_announce verify get_id id_of
announced_run = refl

ws_announce_lem_example :
    ((announced ≡ waiting) × (output (new_node (from_bytes (repeat 32 0))) ∷ [] ≡ []))
    ⊎ Registers server_env waiting 7
        (announcement (repeat 32 0))
        announced
        (output (new_node (from_bytes (repeat 32 0))) ∷ [])
ws_announce_lem_example =
    ws_announce_lem server_env server_env-BiMapLaws waiting announced 7 (announcement (repeat 32 0))
      (output (new_node (from_bytes (repeat 32 0))) ∷ []) announced_run

ws_announce_panics_example : ws_announce server_env waiting 7 (announcement (1 ∷ [])) ≡ none
ws_announce_panics_example =
    ws_announce_panics server_env waiting 7 (announcement (1 ∷ [])) 40 trusting-ReadsKeys refl
      (λ h. omega arith)

-- Connections 7 and 8 are registered for the nodes 40 and 50.
abbrev paired : SignalServer server_env
paired = record waiting {
  connection_ids = server_env.insert_pair waiting.connection_ids 50 8;
  ttl = (7, 3) ∷ (8, 4) ∷ [];
}

abbrev invitation : PeerInfo
invitation = record { id_init = 40; id_follow = 50; message = init }

paired_run :
    (ws_peer_setup server_env paired 7 invitation).1
    ≡ send_msg_node server_env 8 (peer_setup invitation)
unfolding ws_peer_setup
paired_run = refl

ws_peer_setup_lem_example :
    let (s', out) = ws_peer_setup server_env paired 7 invitation in
    (s' ≡ paired) × ((out ≡ []) ⊎ Passes server_env paired 7 invitation out)
ws_peer_setup_lem_example = ws_peer_setup_lem server_env paired 7 invitation

abbrev pub client_env : Broker.Env
client_env = record {
  from_str = λ text. none;
  to_string = λ msg. "message";
  sign = λ keypair msg. some msg;
}

abbrev client : NetworkBroker
client = Broker.new (record {
  info = record { name = "node"; client = "test"; pubkey = []; modules = 0 };
  keypair = [];
})

abbrev orders : List NetworkMessage
orders =
    input (message_to_node 5 "hello")
    ∷ input (disconnect_from 5)
    ∷ input (message_to_node 5 "again")
    ∷ []

abbrev ordered : Broker.Handled
ordered = elim (messages client_env client orders) [ none ↦ (client, []) | some h ↦ h ]

ordered_run : messages client_env client orders ≡ some ordered
unfolding messages message msg_call ensure_connected connect disconnect
ordered_run = refl

requests_first_example : InOrder [] ordered.1 × Covers (asked_for_all [] ordered.1) ordered.0
requests_first_example = requests_first client_env client ordered.0 orders ordered.1 ordered_run

inputs_delivered_example :
    (Connections.messages (λ id. true) Connections.new (filter_map to_web_rtc ordered.1)).1
    ≡ (5, setup outgoing init)
      ∷ (5, text "hello")
      ∷ (5, NodeConnection.disconnect)
      ∷ (5, setup outgoing init)
      ∷ (5, text "again")
      ∷ []
unfolding messages message
inputs_delivered_example =
    inputs_delivered (λ id. true) (λ id. refl) client_env client ordered.0 Connections.new orders
      ordered.1 (λ id h. h) ordered_run
