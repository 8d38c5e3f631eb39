-- ===== src/GossipEvents/Broker/Views.antt =====
-- flmodules/src/gossip_events/broker.rs: what the program sees of the module's storage.
use fledger.Prelude.{List, [], ◌∷◌, ◌++◌, ◌≡◌, ◌≢◌, refl, ap, ◌∙◌, All, filter_map}
use fledger.NodeIds.{U256}
use fledger.GossipEvents.Events.{Event}
use fledger.GossipEvents.Storage.{EventsStorage}
use fledger.GossipEvents.Messages.{
  GossipOut, set_storage, to_network, storage, updated, process_message,
}
use fledger.GossipEvents.Messages.Outputs.{seen, seen-append, process_message-Follows}
use fledger.GossipEvents.Broker.{
  GossipMessage, input, output, Translate, storage_of, handle_inputs, messages, GossipBroker,
  latest, update,
}

latest-append :
    (s : EventsStorage) (xs ys : List EventsStorage) → latest s (xs ++ ys) ≡ latest (latest s xs) ys
unfolding latest
latest-append s [] ys = refl
latest-append s (x ∷ xs) ys = latest-append x xs ys

latest-storage_of :
    (s : EventsStorage) (out : List GossipOut) → latest s (filter_map storage_of out) ≡ seen s out
unfolding latest
latest-storage_of s [] = refl
latest-storage_of s (storage u ∷ out) = latest-storage_of u out
latest-storage_of s (to_network id msg ∷ out) = latest-storage_of s out
latest-storage_of s (updated ∷ out) = latest-storage_of s out

-- A message that does not replace the module's storage from outside.
abbrev KeepsStorage : GossipMessage → Type 0
KeepsStorage (input i) = (s : EventsStorage) → i ≢ set_storage s
KeepsStorage (output o) = Unit

module _ (get_id : Event → U256) where
  handle_inputs-seen :
      (tr : Translate) (msgs : List GossipMessage)
      → All KeepsStorage msgs
      → let (tr', out) = handle_inputs get_id tr msgs in
        (seen tr.module_state.store out ≡ tr'.module_state.store) × (tr'.storage_tx ≡ tr.storage_tx)
  unfolding handle_inputs
  handle_inputs-seen tr [] k = (refl, refl)
  handle_inputs-seen tr (output o ∷ msgs) k = handle_inputs-seen tr msgs k.1
  handle_inputs-seen tr (input i ∷ msgs) k =
      let (g, out) = process_message get_id tr.module_state i in
      let next = record tr { module_state = g } in
      let (tr', rest) = handle_inputs get_id next msgs in
      let (follows, kept) = handle_inputs-seen next msgs k.1 in
      (
        seen-append tr.module_state.store out rest
            ∙ ap (λ s. seen s rest) (process_message-Follows get_id tr.module_state i k.0)
            ∙ follows,
        kept,
      )

  -- The program's view of the storage: if it is up to date with what was sent before a batch, then
  -- after the batch and `update` it is the storage of the module, whatever the batch holds but a
  -- storage that replaces the module's.
  pub update_shows_storage :
      (tr : Translate) (b : GossipBroker) (msgs : List GossipMessage)
      → All KeepsStorage msgs
      → latest b.storage tr.storage_tx ≡ tr.module_state.store
      → let tr' = (messages get_id tr msgs).0 in
        (update (record b { storage_rx = tr'.storage_tx })).storage ≡ tr'.module_state.store
  unfolding messages update
  update_shows_storage tr b msgs k fresh =
      let (tr', out) = handle_inputs get_id tr msgs in
      let (follows, kept) = handle_inputs-seen tr msgs k in
      latest-append b.storage tr'.storage_tx (filter_map storage_of out)
      ∙ ap (λ s. latest s (filter_map storage_of out)) (ap (latest b.storage) kept ∙ fresh)
      ∙ latest-storage_of tr.module_state.store out
      ∙ follows
