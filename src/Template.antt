-- ===== src/Template.antt =====
-- flmodules/src/template: the module that new modules are copied from. It keeps a counter, which other
-- nodes increase.
pub mod Counting
use fledger.Prelude.{
  ℕ, String, Option, none, some, List, [], ◌∷◌, ◌++◌, ◌*◌, ◌%◌, ◌^◌, add_u32, map, filter_map,
}
use fledger.NodeIds.{U256, NodeId, NodeIds, remove_missing}
use fledger.NetworkWrapper.{
  NetworkWrapper, Yaml, wrap_yaml, unwrap_yaml, Linked, linked, ignored, panicked,
}
use fledger.RandomConnections.Messages.{
  node_ids_connected, network_wrapper_from_network, network_mapper_to_network, node_infos_connected,
  connect_node, disconnect_node, node_comm_to_network, storage,
}
use fledger.RandomConnections.Broker.{RandomMessage}

pub record TemplateStorage : Type 0 where
  pub counter : ℕ

pub record TemplateConfig : Type 0 where
  pub multiplier : ℕ

pub record TemplateCore : Type 0 where
  pub storage : TemplateStorage
  pub config : TemplateConfig

-- Both operations wrap around at 2 ^ 32.
unfoldable pub increase : ℕ → TemplateCore → TemplateCore
increase i c = record c {
  storage = record { counter = add_u32 c.storage.counter (i * c.config.multiplier % 2 ^ 32) };
}

pub data ModuleMessage : Type 0 where
  increase_by : ℕ → ModuleMessage
  counter_is : ℕ → ModuleMessage

pub data TemplateIn : Type 0 where
  from_network : NodeId → ModuleMessage → TemplateIn
  update_node_list : NodeIds → TemplateIn

pub data TemplateOut : Type 0 where
  to_network : NodeId → ModuleMessage → TemplateOut
  update_storage : TemplateStorage → TemplateOut

pub data TemplateMessage : Type 0 where
  input : TemplateIn → TemplateMessage
  output : TemplateOut → TemplateMessage

pub record TemplateMessages : Type 0 where
  pub core : TemplateCore
  pub nodes : NodeIds
  pub our_id : NodeId

unfoldable pub process_node_message :
    TemplateMessages → NodeId → ModuleMessage → TemplateMessages × List TemplateOut
unfolding increase
process_node_message t src (increase_by c) =
    let core = increase c t.core in
    (
      record t { core = core },
      map (λ id. to_network id (counter_is core.storage.counter)) t.nodes
          ++ update_storage core.storage ∷ [],
    )
process_node_message t src (counter_is c) = (t, [])

unfoldable pub process_message : TemplateMessages → TemplateIn → TemplateMessages × List TemplateOut
unfolding process_node_message
process_message t (from_network src msg) = process_node_message t src msg
process_message t (update_node_list ids) =
    (record t { nodes = (remove_missing ids (t.our_id ∷ [])).1 }, [])

unfoldable pub process_messages :
    TemplateMessages → List TemplateIn → TemplateMessages × List TemplateOut
unfolding process_message
process_messages t [] = (t, [])
process_messages t (msg ∷ msgs) =
    let (t', out) = process_message t msg in
    let (t'', rest) = process_messages t' msgs in (t'', out ++ rest)

abbrev module_name : String
module_name = "Template"

abbrev from_node : U256 → Option ModuleMessage → Linked TemplateMessage
from_node id none = ignored
from_node id (some msg) = linked (input (from_network id msg))

abbrev to_node : U256 → Option NetworkWrapper → Linked RandomMessage
to_node id none = panicked
to_node id (some w) = linked (RandomMessage.input (network_mapper_to_network id w))

module _ (yaml : Yaml ModuleMessage) where
  unfoldable link_rnd_template : RandomMessage → Linked TemplateMessage
  unfolding unwrap_yaml
  link_rnd_template (RandomMessage.output (node_ids_connected list)) =
      linked (input (update_node_list list))
  link_rnd_template (RandomMessage.output (network_wrapper_from_network id msg)) =
      from_node id (unwrap_yaml yaml msg module_name)
  link_rnd_template (RandomMessage.output (connect_node id)) = ignored
  link_rnd_template (RandomMessage.output (disconnect_node id)) = ignored
  link_rnd_template (RandomMessage.output (node_infos_connected infos)) = ignored
  link_rnd_template (RandomMessage.output (node_comm_to_network id msg)) = ignored
  link_rnd_template (RandomMessage.output (storage s)) = ignored
  link_rnd_template (RandomMessage.input msg) = ignored

  unfoldable link_template_rnd : TemplateMessage → Linked RandomMessage
  unfolding wrap_yaml
  link_template_rnd (output (to_network id msg_node)) =
      to_node id (wrap_yaml yaml module_name msg_node)
  link_template_rnd (output (update_storage s)) = ignored
  link_template_rnd (input msg) = ignored

abbrev input_of : TemplateMessage → Option TemplateIn
input_of (input msg) = some msg
input_of (output msg) = none

-- The handler's reply to a batch.
unfoldable messages :
    TemplateMessages → List TemplateMessage → TemplateMessages × List TemplateMessage
unfolding process_messages
messages t msgs =
    let (t', out) = process_messages t (filter_map input_of msgs) in (t', map output out)
