-- ===== src/WebProxy/Client/Restart.antt =====
-- flmodules/src/web_proxy/broker.rs: what a web proxy begins with after a restart.
use fledger.Prelude.{
  Bool, true, false, some, List, [], ◌∷◌, ◌≡◌, refl, ap, ◌∙◌, arith, inl, inr, Option-cases,
  is_some, All,
}
use fledger.NetworkWrapper.{Yaml, RoundTrips}
use fledger.DataStorage
use fledger.DataStorage.{DataStorageTemp}
use fledger.DataStorage.Entries.{get-set}
use fledger.WebProxy.Core
use fledger.WebProxy.Core.{WebProxyStorage, WebProxyStorageSave, from_str, to_yaml}
use fledger.WebProxy.Messages.{
  WebProxyMessage, input, output, to_network, response_get, update_storage, module_name,
}
use fledger.WebProxy.Client.{read, loaded, store, store_all}

-- The last storage that is reported before the first report that finds no `WebProxy` left, or the
-- storage before, and whether there is no such report.
unfoldable pub last_update :
    WebProxyStorage → List (Bool × WebProxyMessage) → WebProxyStorage × Bool
last_update s [] = (s, true)
last_update s ((true, output (update_storage u)) ∷ msgs) = last_update u msgs
last_update s ((false, output (update_storage u)) ∷ msgs) = (s, false)
last_update s ((held, output (to_network id msg)) ∷ msgs) = last_update s msgs
last_update s ((held, output (response_get id nonce h)) ∷ msgs) = last_update s msgs
last_update s ((held, input msg) ∷ msgs) = last_update s msgs

module _ (yaml : Yaml WebProxyStorageSave) where
  -- A storage that is reported can be written.
  abbrev CanWrite : Bool × WebProxyMessage → Type 0
  CanWrite (held, output (update_storage s)) = is_some (yaml.to_string (Core.v1 s)) ≡ true
  CanWrite (held, output (to_network id msg)) = Unit
  CanWrite (held, output (response_get id nonce h)) = Unit
  CanWrite (held, input msg) = Unit

module _ (yaml : Yaml WebProxyStorageSave) (trips : RoundTrips yaml) where
  -- What one update leaves.
  stored :
      (ds : DataStorageTemp) (s : WebProxyStorage)
      → is_some (yaml.to_string (Core.v1 s)) ≡ true
      → ds.is_locked ≡ false
      → (ds' : DataStorageTemp) × (store yaml true ds s ≡ some ds')
        × (ds'.is_locked ≡ false)
        × (loaded yaml ds' ≡ s)
  unfolding store to_yaml loaded from_str DataStorage.set
  stored ds s writes free = elim (Option-cases (yaml.to_string (Core.v1 s))) [
    | inl e ↦ absurd (ground (arith, e, writes))
    | inr (val, e) ↦
        let ds' = (DataStorage.set ds module_name val).0 in
        let found : DataStorage.get ds' module_name ≡ some val =
          get-set ds module_name val module_name free in
        let again = trips.from_str-to_string (Core.v1 s) val e in
        (
          ds',
          ground (arith, e, free),
          ground (arith, free),
          ap (read yaml) found ∙ ground (arith, again),
        )
  ]

  store_all-stored :
      (ds ds' : DataStorageTemp) (s : WebProxyStorage) (msgs : List (Bool × WebProxyMessage))
      → store yaml true ds s ≡ some ds'
      → store_all yaml ds ((true, output (update_storage s)) ∷ msgs) ≡ store_all yaml ds' msgs
  unfolding store_all
  store_all-stored ds ds' s msgs e = ground (arith, e)

  -- A web proxy that is started again, on the storage of the first one, begins with the last storage
  -- that the first one reported while a value of `WebProxy` was left, counters included, or with what
  -- that one began with if there was no such report; if what is reported can be written, what was
  -- written is read back, and the lock is free. The first report that finds none left ends the task
  -- that writes, and nothing else does: that report and all later ones are lost.
  pub restart_keeps_storage :
      (ds : DataStorageTemp) (msgs : List (Bool × WebProxyMessage))
      → All (CanWrite yaml) msgs
      → ds.is_locked ≡ false
      → let (ds', runs) = store_all yaml ds msgs in
        (loaded yaml ds', runs) ≡ last_update (loaded yaml ds) msgs
  unfolding store_all last_update store
  restart_keeps_storage ds [] w free = refl
  restart_keeps_storage ds ((false, output (update_storage s)) ∷ msgs) w free = refl
  restart_keeps_storage ds ((true, output (update_storage s)) ∷ msgs) w free =
      let (ds1, one, unlocked, held) = stored ds s w.0 free in
      ap (λ r. (loaded yaml r.0, r.1)) (store_all-stored ds ds1 s msgs one)
      ∙ restart_keeps_storage ds1 msgs w.1 unlocked
      ∙ ap (λ u. last_update u msgs) held
  restart_keeps_storage ds ((held, output (to_network id msg)) ∷ msgs) w free =
      restart_keeps_storage ds msgs w.1 free
  restart_keeps_storage ds ((held, output (response_get id nonce h)) ∷ msgs) w free =
      restart_keeps_storage ds msgs w.1 free
  restart_keeps_storage ds ((held, input msg) ∷ msgs) w free =
      restart_keeps_storage ds msgs w.1 free
