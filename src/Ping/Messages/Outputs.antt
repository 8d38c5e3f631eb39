-- ===== src/Ping/Messages/Outputs.antt =====
-- flmodules/src/ping/messages.rs: the storage that a tick sends.
use fledger.Prelude.{[], ◌∷◌, ◌++◌, ◌≡◌, refl}
use fledger.Ping.Storage
use fledger.Ping.Messages.{Ping, tick, storage, create_messages, on_tick, process_msg}

-- The storage as it then is comes last.
pub tick_sends_storage :
    (p : Ping)
    → (process_msg p tick).1
      ≡ (create_messages (record { store = Storage.tick p.store })).1
        ++ storage (process_msg p tick).0.store ∷ []
unfolding process_msg on_tick
tick_sends_storage p = refl
