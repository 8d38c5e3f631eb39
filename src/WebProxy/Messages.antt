-- ===== src/WebProxy/Messages.antt =====
-- flmodules/src/web_proxy/messages.rs and broker.rs: the messages of the module, its handler and its
-- links. The web request itself is made by a crate: its result is a parameter.
pub mod Answers
use fledger.Prelude.{
  String, Bool, true, false, Option, none, some, List, [], ◌∷◌, ◌++◌, map, filter_map, ◌==◌, ◌%◌,
  ◌/◌,
}
use fledger.NodeIds.{NodeId, NodeIds, U256}
use fledger.NodeInfo.{NodeInfo, get_id}
use fledger.NetworkWrapper.{
  NetworkWrapper, Yaml, wrap_yaml, unwrap_yaml, Linked, linked, ignored, panicked,
}
use fledger.Overlay.{
  OverlayMessage, node_info_available, node_ids_connected, node_infos_connected,
  network_wrapper_from_network, network_wrapper_to_network,
}
use fledger.WebProxy.Core
use fledger.WebProxy.Core.{
  Bytes, ResponseHeader, ResponseMessage, header, body, error, done, WebProxyCore, WebProxyStorage,
}

pub data ModuleMessage : Type 0 where
  request : U256 → String → ModuleMessage
  response : U256 → ResponseMessage → ModuleMessage

-- The last part of a request names the channel for its answer.
pub data WebProxyIn : Type 0 where
  from_network : NodeId → ModuleMessage → WebProxyIn
  node_info_connected : List NodeInfo → WebProxyIn
  in_request_get : U256 → String → U256 → WebProxyIn

pub data WebProxyOut : Type 0 where
  to_network : NodeId → ModuleMessage → WebProxyOut
  response_get : NodeId → U256 → ResponseHeader → WebProxyOut
  update_storage : WebProxyStorage → WebProxyOut

pub data WebProxyMessage : Type 0 where
  input : WebProxyIn → WebProxyMessage
  output : WebProxyOut → WebProxyMessage

-- `reqwest::get`: an answer with its header and the chunks of its body, or an error.
pub data Fetched : Type 0 where
  fetched : ResponseHeader → List Bytes → Fetched
  refused : String → Fetched

-- What the task of a request sends, in order.
unfoldable pub respond : NodeId → U256 → Fetched → List WebProxyOut
respond src nonce (fetched h chunks) =
    map (λ m. to_network src (response nonce m)) (header h ∷ (map body chunks ++ done ∷ done ∷ []))
respond src nonce (refused e) = to_network src (response nonce (error e)) ∷ []

-- The bit `ENABLE_WEBPROXY_REQUESTS` of the capabilities.
abbrev takes_requests : NodeInfo → Bool
takes_requests ni = ni.modules / 32 % 2 == 1

-- `none` is the panic of `get_id`.
unfoldable proxies : List NodeInfo → Option NodeIds
unfolding get_id
proxies [] = some []
proxies (ni ∷ nis) = elim (takes_requests ni) [
  | false ↦ proxies nis
  | true ↦ elim (get_id ni) [
    | none ↦ none
    | some id ↦ elim (proxies nis) [ none ↦ none | some ids ↦ some (id ∷ ids) ]
  ]
]

abbrev header_out : NodeId → U256 → Option ResponseHeader → List WebProxyOut
header_out src nonce none = []
header_out src nonce (some h) = response_get src nonce h ∷ []

abbrev request_out : U256 → String → Option NodeId → List WebProxyOut
request_out rnd url none = []
request_out rnd url (some node) = to_network node (request rnd url) ∷ []

-- The state, what is sent, the bodies that are sent on with their channels, and the web requests
-- that are made for others.
pub record Handled : Type 0 where
  pub core : WebProxyCore
  pub out : List WebProxyOut
  pub bodies : List (U256 × Bytes)
  pub requests : List (NodeId × U256 × String)

unfoldable pub process_node_message : WebProxyCore → NodeId → ModuleMessage → Handled
process_node_message c src (request nonce url) = record {
  core = c;
  out = update_storage c.storage ∷ [];
  bodies = [];
  requests = (src, nonce, url) ∷ [];
}
process_node_message c src (response nonce msg) =
    let (c', h, bodies) = Core.handle_response c nonce msg in
    record {
      core = c';
      out = header_out src nonce h ++ update_storage c'.storage ∷ [];
      bodies = bodies;
      requests = [];
    }

abbrev or_none : WebProxyCore → Option NodeIds → Option Handled
or_none c none = none
or_none c (some ids) =
    some (record { core = Core.node_list c ids; out = []; bodies = []; requests = [] })

-- `none` is a panic.
unfoldable pub process_message : WebProxyCore → WebProxyIn → Option Handled
unfolding process_node_message proxies
process_message c (from_network src msg) = some (process_node_message c src msg)
process_message c (node_info_connected infos) = or_none c (proxies infos)
process_message c (in_request_get rnd url tx) =
    let (c', node) = Core.request_get c rnd tx in
    some (record { core = c'; out = request_out rnd url node; bodies = []; requests = [] })

abbrev joined : Handled → Option Handled → Option Handled
joined h none = none
joined h (some t) = some (record {
  core = t.core;
  out = h.out ++ t.out;
  bodies = h.bodies ++ t.bodies;
  requests = h.requests ++ t.requests;
})

unfoldable pub process_messages : WebProxyCore → List WebProxyIn → Option Handled
unfolding process_message
process_messages c [] = some (record { core = c; out = []; bodies = []; requests = [] })
process_messages c (msg ∷ msgs) = elim (process_message c msg) [
  | none ↦ none
  | some h ↦ joined h (process_messages h.core msgs)
]

abbrev pub module_name : String
module_name = "WebProxy"

abbrev from_node : U256 → Option ModuleMessage → Linked WebProxyMessage
from_node id none = ignored
from_node id (some msg) = linked (input (from_network id msg))

abbrev to_node : U256 → Option NetworkWrapper → Linked OverlayMessage
to_node id none = panicked
to_node id (some w) = linked (OverlayMessage.input (network_wrapper_to_network id w))

module _ (yaml : Yaml ModuleMessage) where
  unfoldable link_overlay_proxy : OverlayMessage → Linked WebProxyMessage
  unfolding unwrap_yaml
  link_overlay_proxy (OverlayMessage.output (node_infos_connected list)) =
      linked (input (node_info_connected list))
  link_overlay_proxy (OverlayMessage.output (network_wrapper_from_network id msg)) =
      from_node id (unwrap_yaml yaml msg module_name)
  link_overlay_proxy (OverlayMessage.output (node_info_available list)) = ignored
  link_overlay_proxy (OverlayMessage.output (node_ids_connected ids)) = ignored
  link_overlay_proxy (OverlayMessage.input msg) = ignored
  link_overlay_proxy (OverlayMessage.internal msg) = ignored

  unfoldable link_proxy_overlay : WebProxyMessage → Linked OverlayMessage
  unfolding wrap_yaml
  link_proxy_overlay (output (to_network id msg_node)) =
      to_node id (wrap_yaml yaml module_name msg_node)
  link_proxy_overlay (output (response_get id nonce h)) = ignored
  link_proxy_overlay (output (update_storage s)) = ignored
  link_proxy_overlay (input msg) = ignored

-- The inputs of a batch.
abbrev input_of : WebProxyMessage → Option WebProxyIn
input_of (input msg) = some msg
input_of (output msg) = none

-- The handler's reply to a batch, with what `process_messages` says.
unfoldable pub messages :
    WebProxyCore → List WebProxyMessage → Option (Handled × List WebProxyMessage)
unfolding process_messages
messages c msgs = elim (process_messages c (filter_map input_of msgs)) [
  | none ↦ none
  | some h ↦ some (h, map output h.out)
]
