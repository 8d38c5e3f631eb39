-- ===== src/Broker/Subsystem.antt =====
-- flarch/src/broker.rs: destinations of messages, and the subsystems of a broker. A handler or a
-- callback is an object with a state of its own: what it replies is a function of the batches that
-- it was handed before and of the new one.
use fledger.Prelude.{
  ℕ, Bool, true, false, Option, none, some, List, [], ◌∷◌, ◌++◌, map, contains, if◌then◌else◌,
}
use fledger.NodeIds.{U256}

abbrev pub BrokerId : Type 0
BrokerId = U256

abbrev pub Trail : Type 0
Trail = List BrokerId

pub data Destination : Type 0 where
  all : Destination
  no_tap : Destination
  forwarded : Trail → Destination
  handled : ℕ → Destination

abbrev pub Message {ℓ} : Type ℓ → Type ℓ
Message T = Destination × T

-- The sender of a channel: whether its receiver still exists, and what was sent to it.
pub record Sender {ℓ} (T : Type ℓ) : Type ℓ where
  pub is_open : Bool
  pub received : List T

pub record Handler {ℓ} (T : Type ℓ) : Type ℓ where
  pub messages : List (List T) → List T → List T
  pub batches : List (List T)

pub record Callback {ℓ} (T : Type ℓ) : Type ℓ where
  pub call : List (List T) → List T → List (Message T)
  pub batches : List (List T)

-- A link to another broker, whose messages are of type S.
pub record Translator {ℓ} (T S : Type ℓ) : Type ℓ where
  pub broker : BrokerId
  pub translate : T → Option S

pub record TranslatorCallback {ℓ} (T : Type ℓ) : Type ℓ where
  pub call : List (Trail × T) → Trail → T → Bool
  pub calls : List (Trail × T)

pub data Subsystem {ℓ} (T S : Type ℓ) : Type ℓ where
  tap : Sender T → Subsystem T S
  tap_sync : Sender T → Subsystem T S
  handler : Handler T → Subsystem T S
  translator : Translator T S → Subsystem T S
  callback : Callback T → Subsystem T S
  translator_callback : TranslatorCallback T → Subsystem T S

-- What a broker does to others: it forwards a message with the trail of the brokers that had it, it
-- asks another broker to settle, or it tells its caller that it has settled.
pub data Effect {ℓ} (S : Type ℓ) : Type ℓ where
  forward_to : BrokerId → Trail → S → Effect S
  settle_to : BrokerId → Trail → Effect S
  settled : Effect S

module _ {ℓ} {T : Type ℓ} where
  -- `none` is the error of a channel that is closed.
  unfoldable pub send : T → Sender T → Option (Sender T)
  send msg s = if s.is_open then some (record s { received = s.received ++ msg ∷ [] }) else none

  -- The `for` of a tap, which returns at the first error; `false` is that error.
  unfoldable pub send_each : List T → Sender T → Sender T × Bool
  send_each [] s = (s, true)
  send_each (msg ∷ msgs) s = elim (send msg s) [ none ↦ (s, false) | some s' ↦ send_each msgs s' ]

  -- What a tap's channel makes of the result.
  abbrev pub sent_all : Bool → Option (List (Message T))
  sent_all true = some []
  sent_all false = none

module _ {ℓ} {T S : Type ℓ} where
  unfoldable pub is_tap : Subsystem T S → Bool
  is_tap (tap s) = true
  is_tap (tap_sync s) = true
  is_tap _ = false

  unfoldable pub is_handler : Subsystem T S → Bool
  is_handler (handler h) = true
  is_handler (callback h) = true
  is_handler _ = false

  -- The subsystem after it was handed the messages, and its reply; `none` is an error.
  unfoldable pub put_messages :
      ℕ → List T → Subsystem T S → Subsystem T S × Option (List (Message T))
  unfolding send_each send
  put_messages index msgs (tap_sync s) =
      let (s', done) = send_each msgs s in (tap_sync s', sent_all done)
  put_messages index msgs (tap s) = let (s', done) = send_each msgs s in (tap s', sent_all done)
  put_messages index msgs (handler h) = (
    handler (record h { batches = h.batches ++ msgs ∷ [] }),
    some (map (λ m. (handled index, m)) (h.messages h.batches msgs)),
  )
  put_messages index msgs (callback h) =
      (callback (record h { batches = h.batches ++ msgs ∷ [] }), some (h.call h.batches msgs))
  put_messages index msgs (translator t) = (translator t, some [])
  put_messages index msgs (translator_callback t) = (translator_callback t, some [])

  -- `translate` of a translator, and the call of a translator's callback: the subsystem afterwards,
  -- what was forwarded, and whether the message was translated. The other subsystems are not asked.
  unfoldable pub translate : Trail → T → Subsystem T S → Subsystem T S × List (Effect S) × Bool
  translate trail msg (translator t) = elim (t.translate msg) [
    | none ↦ (translator t, [], false)
    | some msg_tr ↦ (translator t, forward_to t.broker trail msg_tr ∷ [], true)
  ]
  translate trail msg (translator_callback t) = (
    translator_callback (record t { calls = t.calls ++ (trail, msg) ∷ [] }),
    [],
    t.call t.calls trail msg,
  )
  translate trail msg ss = (ss, [], false)

  -- Only a translator to a broker that is not among the callers asks it to settle.
  unfoldable pub settle : Trail → Subsystem T S → List (Effect S)
  settle callers (translator t) =
      if contains callers t.broker then [] else settle_to t.broker callers ∷ []
  settle callers ss = []
