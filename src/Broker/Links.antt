-- ===== src/Broker/Links.antt =====
-- flarch/src/broker.rs: brokers that are linked with one another. The messages of all of them are of
-- one type here, and a link goes to a broker by its identifier.
pub mod LoopFree
use fledger.Prelude.{ℕ, Option, none, some, List, [], ◌∷◌, ◌++◌, ◌≡◌}
use fledger.Prelude.Maps.{Map, get, insert}
use fledger.Broker.Subsystem.{BrokerId, Effect, forward_to, settle_to, settled, forwarded}
use fledger.Broker.Intern.{Intern, InternMessage, message, settle_all, run}
use fledger.Broker.Intern.Trails.{GoodInput}

abbrev pub Brokers : Type 0 → Type 0
Brokers T = Map (Intern T T)

module _ {T : Type 0} where
  -- `send` on the channel of a broker.
  abbrev pub enqueue : InternMessage T T → Intern T T → Intern T T
  enqueue msg n = record n { main_rx = n.main_rx ++ msg ∷ [] }

  unfoldable pub send_to : BrokerId → InternMessage T T → Brokers T → Brokers T
  send_to b msg bs = elim (get b bs) [ none ↦ bs | some n ↦ insert b (enqueue msg n) bs ]

  -- An effect of one broker reaches the channel of another.
  unfoldable pub deliver : Effect T → Brokers T → Brokers T
  unfolding send_to
  deliver (forward_to b trail msg) bs = send_to b (message (forwarded trail, msg)) bs
  deliver (settle_to b callers) bs = send_to b (settle_all callers) bs
  deliver settled bs = bs

  -- One thing that happens: a client uses a broker, a broker's task makes a round, or the next
  -- effect of a broker reaches its target. A client does not invent a trail, nor do its callbacks.
  pub data Step (bs : Brokers T) (bs' : Brokers T) : Type 0 where
    use_broker :
        (b : BrokerId) (msg : InternMessage T T)
        → GoodInput (λ t. t ≡ []) msg
        → bs' ≡ send_to b msg bs
        → Step bs bs'
    turn :
        (b : BrokerId) (n r : Intern T T) (fuel : ℕ)
        → get b bs ≡ some n
        → run fuel n ≡ some r
        → bs' ≡ insert b r bs
        → Step bs bs'
    pass_on :
        (b : BrokerId) (n : Intern T T) (e : Effect T) (es : List (Effect T))
        → get b bs ≡ some n
        → n.effects ≡ e ∷ es
        → bs' ≡ deliver e (insert b (record n { effects = es }) bs)
        → Step bs bs'

  pub data Reach (start : Brokers T) : Brokers T → Type 0 where
    here : Reach start start
    next : {bs bs' : Brokers T} → Reach start bs → Step bs bs' → Reach start bs'
