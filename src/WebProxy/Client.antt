-- ===== src/WebProxy/Client.antt =====
-- flmodules/src/web_proxy/broker.rs: `WebProxy`, which asks for a web page and keeps the storage. What
-- its tap receives until the time is up is an argument, as is the new channel.
pub mod Restart
use fledger.Prelude.{
  ℕ, String, Bool, true, false, Option, none, some, List, [], ◌∷◌, ◌==◌, if◌then◌else◌,
}
use fledger.NodeIds.{U256, NodeId}
use fledger.NetworkWrapper.{Yaml}
use fledger.DataStorage
use fledger.DataStorage.{DataStorageTemp}
use fledger.Broker.Handle
use fledger.Broker.Handle.{Broker, emit_msg, get_tap, remove_subsystem}
use fledger.WebProxy.Core
use fledger.WebProxy.Core.{
  Bytes, ResponseHeader, Response, Counters, WebProxyStorage, WebProxyStorageSave, default_storage,
  to_yaml,
}
use fledger.WebProxy.Messages.{
  WebProxyMessage, input, output, in_request_get, to_network, response_get, update_storage,
  module_name,
}

pub data WebProxyError : Type 0 where
  timeout_proxy_node broker_error no_nodes response_timeout : WebProxyError

pub data Got : Type 0 where
  response : Response → Got
  failed : WebProxyError → Got

-- The `while` of `get`, over what the tap receives.
unfoldable answer_for : U256 → List WebProxyMessage → Option (NodeId × ResponseHeader)
answer_for our_rnd [] = none
answer_for our_rnd (output (response_get proxy rnd header) ∷ msgs) =
    let later = answer_for our_rnd msgs in if rnd == our_rnd then some (proxy, header) else later
answer_for our_rnd (output (to_network id msg) ∷ msgs) = answer_for our_rnd msgs
answer_for our_rnd (output (update_storage s) ∷ msgs) = answer_for our_rnd msgs
answer_for our_rnd (input msg ∷ msgs) = answer_for our_rnd msgs

module _ {S : Type 0} where
  abbrev removed : Broker WebProxyMessage S × Bool → Got → Broker WebProxyMessage S × Got
  removed (b, true) got = (b, got)
  removed (b, false) got = (b, failed broker_error)

  -- With an answer, or if the tap was closed, the tap is removed; not if the time is up.
  unfoldable answered :
      Broker WebProxyMessage S
      → ℕ
      → Bool
      → List Bytes
      → Option (NodeId × ResponseHeader)
      → Broker WebProxyMessage S × Got
  unfolding remove_subsystem
  answered b id is_closed rx (some (proxy, header)) =
      removed (remove_subsystem id b)
        (response (record { proxy = proxy; header = header; rx = rx }))
  answered b id true rx none = removed (remove_subsystem id b) (failed response_timeout)
  answered b id false rx none = (b, failed response_timeout)

  unfoldable get :
      U256
      → U256
      → String
      → List WebProxyMessage
      → Bool
      → List Bytes
      → Broker WebProxyMessage S
      → Broker WebProxyMessage S × Got
  unfolding emit_msg get_tap answer_for answered
  get our_rnd tx url arrived is_closed rx web_proxy =
      let (b, sent) = emit_msg (input (in_request_get our_rnd url tx)) web_proxy in
      let (b', tap) = get_tap b in
      if sent
      then elim tap [
        | none ↦ (b', failed broker_error)
        | some id ↦ answered b' id is_closed rx (answer_for our_rnd arrived)
      ]
      else (b, failed broker_error)

module _ (yaml : Yaml WebProxyStorageSave) where
  abbrev or_default : Option WebProxyStorage → WebProxyStorage
  or_default none = default_storage
  or_default (some s) = s

  abbrev pub read : Option String → WebProxyStorage
  read none = or_default (Core.from_str yaml "")
  read (some text) = or_default (Core.from_str yaml text)

  -- The storage that `start` begins with.
  unfoldable pub loaded : DataStorageTemp → WebProxyStorage
  loaded ds = read (DataStorage.get ds module_name)

  -- One update of the task of `start`, in the source's order: `send` of the channel that all values
  -- of `WebProxy` share, which is an error once there are none, and then the data storage. `none` is
  -- the panic of either `expect`, which leaves the data storage as it was.
  unfoldable pub store : Bool → DataStorageTemp → WebProxyStorage → Option DataStorageTemp
  unfolding to_yaml
  store false ds s = none
  store true ds s = elim (to_yaml yaml s) [
    | none ↦ some ds
    | some val ↦ let (ds', ok) = DataStorage.set ds module_name val in if ok then some ds' else none
  ]

  -- The loop of that task, over what its tap receives, each with whether a `WebProxy` is left by
  -- then. A panic ends it: the last part tells whether it still runs.
  unfoldable pub store_all :
      DataStorageTemp → List (Bool × WebProxyMessage) → DataStorageTemp × Bool
  unfolding store
  store_all ds [] = (ds, true)
  store_all ds ((held, output (update_storage s)) ∷ msgs) = elim (store held ds s) [
    | none ↦ (ds, false)
    | some ds' ↦ store_all ds' msgs
  ]
  store_all ds ((held, output (to_network id msg)) ∷ msgs) = store_all ds msgs
  store_all ds ((held, output (response_get id nonce h)) ∷ msgs) = store_all ds msgs
  store_all ds ((held, input msg) ∷ msgs) = store_all ds msgs
