-- ===== src/WebProxy/Core.antt =====
-- flmodules/src/web_proxy/core.rs and response.rs: the requests that wait for answers, and the node
-- that takes the next one. Time and the network of the requests are not part of this.
pub mod Turns
use fledger.Prelude.{
  ℕ, suc, ◌+◌, ◌%◌, String, Option, none, some, List, [], ◌∷◌, ◌++◌, length, get_elem?, add_u32,
}
use fledger.Prelude.Maps.{Map, get, insert, remove}
use fledger.NodeIds.{NodeId, NodeIds, U256, remove_missing}
use fledger.NetworkWrapper.{Yaml}

abbrev pub Bytes : Type 0
Bytes = List ℕ

pub record ResponseStatus : Type 0 where
  pub code : ℕ
  pub msg : String

pub record ResponseHeader : Type 0 where
  pub status : ResponseStatus
  pub headers : List (String × List String)

pub data ResponseMessage : Type 0 where
  header : ResponseHeader → ResponseMessage
  body : Bytes → ResponseMessage
  error : String → ResponseMessage
  done : ResponseMessage

pub record Counters : Type 0 where
  pub rx_requests : ℕ
  pub tx_requests : ℕ
  pub rx_packets : ℕ
  pub tx_packets : ℕ

pub record WebProxyStorage : Type 0 where
  pub counters : Counters

abbrev pub default_storage : WebProxyStorage
default_storage = record {
  counters = record { rx_requests = 0; tx_requests = 0; rx_packets = 0; tx_packets = 0 };
}

pub data WebProxyStorageSave : Type 0 where
  v1 : WebProxyStorage → WebProxyStorageSave

-- `tx` names the channel that a request's answer goes to.
pub record WebProxyCore : Type 0 where
  pub storage : WebProxyStorage
  pub nodes : NodeIds
  pub our_id : NodeId
  pub node_index : ℕ
  pub requests : Map (NodeId × U256)

abbrev pub new : WebProxyStorage → NodeId → WebProxyCore
new storage our_id = record {
  storage = storage;
  nodes = [];
  our_id = our_id;
  node_index = 0;
  requests = [];
}

module _ (yaml : Yaml WebProxyStorageSave) where
  abbrev latest : WebProxyStorageSave → WebProxyStorage
  latest (v1 s) = s

  unfoldable pub from_str : String → Option WebProxyStorage
  from_str text = elim (yaml.from_str text) [ none ↦ none | some s ↦ some (latest s) ]

  unfoldable pub to_yaml : WebProxyStorage → Option String
  to_yaml s = yaml.to_string (v1 s)

-- What is removed as missing from a list of this node alone are all others.
unfoldable pub node_list : WebProxyCore → NodeIds → WebProxyCore
node_list c nodes = record c { nodes = (remove_missing nodes (c.our_id ∷ [])).1 }

unfoldable pub take_turn : NodeIds → WebProxyCore → WebProxyCore × Option NodeId
take_turn [] c = (c, none)
take_turn (n ∷ ns) c =
    let i = c.node_index % length (n ∷ ns) in
    (record c { node_index = suc i }, get_elem? (n ∷ ns) i)

unfoldable pub get_node : WebProxyCore → WebProxyCore × Option NodeId
unfolding take_turn
get_node c = take_turn c.nodes c

unfoldable pub request_get : WebProxyCore → U256 → U256 → WebProxyCore × Option NodeId
unfolding get_node
request_get c rnd tx =
    let (c', node) = get_node c in
    elim node [
      | none ↦ (c', none)
      | some n ↦ (record c' { requests = insert rnd (n, tx) c'.requests }, some n)
    ]

abbrev pub count_packet : WebProxyStorage → WebProxyStorage
count_packet s = record s {
  counters = record s.counters { rx_packets = add_u32 s.counters.rx_packets 1 };
}

-- The answer to a request that waits. A body is handed to a task of its own, which sends it to the
-- channel: the last part are the bodies and their channels.
unfoldable pub answer :
    WebProxyCore
    → U256
    → U256
    → ResponseMessage
    → WebProxyCore × Option ResponseHeader × List (U256 × Bytes)
answer c nonce tx (header h) = (record c { storage = count_packet c.storage }, some h, [])
answer c nonce tx (body b) = (record c { storage = count_packet c.storage }, none, (tx, b) ∷ [])
answer c nonce tx done = (record c { requests = remove nonce c.requests }, none, [])
answer c nonce tx (error e) = (c, none, [])

unfoldable pub handle_response :
    WebProxyCore
    → U256
    → ResponseMessage
    → WebProxyCore × Option ResponseHeader × List (U256 × Bytes)
unfolding answer
handle_response c nonce msg = elim (get nonce c.requests) [
  | none ↦ (c, none, [])
  | some (node, tx) ↦ answer c nonce tx msg
]

-- `Response`: `rx` is what the channel of the bodies holds until it is closed.
pub record Response : Type 0 where
  pub proxy : NodeId
  pub header : ResponseHeader
  pub rx : List Bytes

-- The next chunk and what is left.
unfoldable chunk : Response → Option Bytes × Response
chunk r = elim r.rx [ [] ↦ (none, r) | n ∷ rx ↦ (some n, record r { rx = rx }) ]

-- The `while` of `bytes`.
unfoldable all_chunks : List Bytes → Bytes
all_chunks [] = []
all_chunks (n ∷ rx) = n ++ all_chunks rx

unfoldable bytes : Response → Bytes × Response
unfolding all_chunks
bytes r = (all_chunks r.rx, record r { rx = [] })

-- `from_utf8` is a parameter; `none` is its error.
unfoldable text : (Bytes → Option String) → Response → Option String × Response
unfolding bytes
text from_utf8 r = let (b, r') = bytes r in (from_utf8 b, r')
