-- ===== src/Broker/Handle.antt =====
-- flarch/src/broker.rs: `Broker`, what a client holds of a broker. All clones share the counter of
-- the subsystems and the channel to the broker's task.
pub mod Indices
use fledger.Prelude.{
  ℕ, suc, Bool, true, false, Option, none, some, List, [], ◌∷◌, ◌++◌, ◌≡◌, ◌+◌, ◌%◌, ◌^◌,
  if◌then◌else◌,
}
use fledger.Broker.Subsystem.{
  BrokerId, Destination, all, Subsystem, Sender, Translator, tap, tap_sync, translator,
}
use fledger.Broker.Intern.{
  Intern, InternMessage, SubsystemAction, subsystem, message, settle_all, add, remove_at,
}

-- `is_open` tells whether the broker's task still receives.
pub record Broker {ℓ} (T S : Type ℓ) : Type ℓ where
  pub intern : Intern T S
  pub subsystems : ℕ
  pub is_open : Bool

module _ {ℓ} {T S : Type ℓ} where
  -- `new`: a broker without subsystems and its task.
  unfoldable pub new : BrokerId → Broker T S
  new id = record {
    intern = record { main_rx = []; subsystems = []; msg_queue = []; id = id; effects = [] };
    subsystems = 0;
    is_open = true;
  }

  -- `send` on the channel; `false` is the error of a channel that is closed.
  unfoldable pub send_intern : InternMessage T S → Broker T S → Broker T S × Bool
  send_intern msg b =
      if b.is_open
      then (record b { intern = record b.intern { main_rx = b.intern.main_rx ++ msg ∷ [] } }, true)
      else (b, false)

  -- The index is used up, even if the subsystem cannot be sent. The counter is a `usize`, which wraps
  -- around.
  unfoldable pub add_subsystem : Subsystem T S → Broker T S → Broker T S × Option ℕ
  unfolding send_intern
  add_subsystem ss b =
      let index = (b.subsystems + 1) % 2 ^ 64 in
      let (b', sent) = send_intern (subsystem (add index ss)) (record b { subsystems = index }) in
      (b', if sent then some index else none)

  -- The request is sent; the source then waits for the reply, which is no part of this state.
  unfoldable pub settle : Broker T S → Broker T S × Bool
  unfolding send_intern
  settle b = send_intern (settle_all []) b

  unfoldable pub remove_subsystem : ℕ → Broker T S → Broker T S × Bool
  unfolding send_intern settle
  remove_subsystem ss b =
      let (b', sent) = send_intern (subsystem (remove_at ss)) b in
      if sent then settle b' else (b', false)

  unfoldable pub get_tap : Broker T S → Broker T S × Option ℕ
  unfolding add_subsystem
  get_tap b = add_subsystem (tap (record { is_open = true; received = [] })) b

  unfoldable get_tap_sync : Broker T S → Broker T S × Option ℕ
  unfolding add_subsystem
  get_tap_sync b = add_subsystem (tap_sync (record { is_open = true; received = [] })) b

  unfoldable pub emit_msg_dest : Destination → T → Broker T S → Broker T S × Bool
  unfolding send_intern
  emit_msg_dest dst msg b = send_intern (message (dst, msg)) b

  unfoldable pub emit_msg : T → Broker T S → Broker T S × Bool
  unfolding emit_msg_dest
  emit_msg msg b = emit_msg_dest all msg b

  unfoldable settle_msg_dest : Destination → T → Broker T S → Broker T S × Bool
  unfolding send_intern settle
  settle_msg_dest dst msg b =
      let (b', sent) = send_intern (message (dst, msg)) b in if sent then settle b' else (b', false)

  unfoldable settle_msg : T → Broker T S → Broker T S × Bool
  unfolding settle_msg_dest
  settle_msg msg b = settle_msg_dest all msg b

  -- `none` is the panic of `unwrap`.
  unfoldable forward : BrokerId → (T → Option S) → Broker T S → Option (Broker T S)
  unfolding add_subsystem
  forward target link_tr b =
      let (b', index) =
        add_subsystem (translator (record { broker = target; translate = link_tr })) b in
      elim index [ none ↦ none | some i ↦ some b' ]

module _ {ℓ} {T R : Type ℓ} where
  -- Both brokers, linked with one another.
  unfoldable link_bi :
      (R → Option T) → (T → Option R) → Broker T R → Broker R T → Option (Broker T R × Broker R T)
  unfolding forward
  link_bi link_rt link_tr b broker = elim (forward broker.intern.id link_tr b) [
    | none ↦ none
    | some b' ↦ elim (forward b.intern.id link_rt broker) [
      | none ↦ none
      | some broker' ↦ some (b', broker')
    ]
  ]
