-- ===== src/Network/Broker/Updates.antt =====
-- flmodules/src/network/messages.rs: how often the list of nodes is asked for.
use fledger.Prelude.{ℕ, zero, suc, ◌≡◌, refl, sym, subst, some, List, [], ◌∷◌, ◌++◌}
use fledger.NodeIds.{NodeIds}
use fledger.NodeInfo.{NodeConfig}
use fledger.Network.Messages.{list_ids_request}
use fledger.Network.Broker.{
  tick, NetworkMessage, input, NetworkBroker, Env, to_ws, msg_call, message, messages,
  update_interval,
}

abbrev pub repeat {ℓ} : {A : Type ℓ} → ℕ → A → List A
repeat zero a = []
repeat (suc n) a = a ∷ repeat n a

-- Ten ticks, so many times.
abbrev tens : ℕ → List NetworkMessage
tens zero = []
tens (suc n) = repeat 10 (input tick) ++ tens n

abbrev updated : NodeConfig → NodeIds → NetworkBroker
updated config ids = record {
  node_config = config;
  get_update = update_interval;
  connections = ids;
}

updates :
    (env : Env) (n : ℕ) (config : NodeConfig) (ids : NodeIds)
    → messages env (updated config ids) (tens n)
      ≡ some (updated config ids, repeat n (to_ws env list_ids_request))
unfolding messages message msg_call
updates env zero config ids = refl
updates env (suc n) config ids = rw (updates env n config ids) refl

-- Where the counter stands at the interval, every tenth tick asks the signalling server for its
-- list and no other tick does, over any number of tens of ticks.
tick_updates :
    (env : Env) (n : ℕ) (nb : NetworkBroker)
    → nb.get_update ≡ update_interval
    → messages env nb (tens n) ≡ some (nb, repeat n (to_ws env list_ids_request))
tick_updates env n nb h =
    subst
      (λ (b : NetworkBroker).
        messages env b (tens n) ≡ some (b, repeat n (to_ws env list_ids_request)))
      (λ i. record nb { get_update = sym h i }) (updates env n nb.node_config nb.connections)
