-- ===== src/Ping/Broker/Views.antt =====
-- flmodules/src/ping/broker.rs: what the program sees of the module's storage.
use mathlib.Core.List.{append_assoc, append-nil}
use fledger.Prelude.{List, [], ◌∷◌, ◌++◌, ◌≡◌, refl, sym, ap, ◌∙◌, filter_map, filter_map-append}
use fledger.Ping.Storage.{PingStorage}
use fledger.Ping.Messages.{tick, storage, process_msg, create_messages}
use fledger.Ping.Storage
use fledger.Ping.Messages.Outputs.{tick_sends_storage}
use fledger.Ping.Broker.{
  input, Translate, storage_of, handle_inputs, messages, PingBroker, latest, update,
}

latest-append :
    (s : PingStorage) (xs : List PingStorage) (u : PingStorage) → latest s (xs ++ u ∷ []) ≡ u
unfolding latest
latest-append s [] u = refl
latest-append s (x ∷ xs) u = latest-append x xs u

-- After a tick and `update`, the program's view of the storage is the storage of the module,
-- whatever the view was and whatever waits to be seen.
pub update_after_tick :
    (tr : Translate) (b : PingBroker)
    → let tr' = (messages tr (input tick ∷ [])).0 in
      (update (record b { storage_rx = tr'.storage_tx })).storage ≡ tr'.module_state.store
unfolding messages update handle_inputs
update_after_tick tr b =
    let (p, out) = process_msg tr.module_state tick in
    let front = (create_messages (record { store = Storage.tick tr.module_state.store })).1 in
    let sent : filter_map storage_of (out ++ []) ≡ filter_map storage_of front ++ p.store ∷ [] =
      ap (filter_map storage_of) (append-nil out ∙ tick_sends_storage tr.module_state)
      ∙ filter_map-append storage_of front (storage p.store ∷ []) in
    ap (λ us. latest b.storage (tr.storage_tx ++ us)) sent
    ∙ ap (latest b.storage)
        (sym (append_assoc tr.storage_tx (filter_map storage_of front) (p.store ∷ [])))
    ∙ latest-append b.storage (tr.storage_tx ++ filter_map storage_of front) p.store
